-- ===== src/Store/Operations.antt =====
-- The operations of `Store` in src/store.rs, over the database and the drive. The lock of
-- `allocate_file` is held through the whole of that function, so an allocation is one step here.
pub mod Reading
pub mod Allocation
pub mod Allocating
pub mod Deletion
pub mod Uploading
pub mod Uploaded
use castella.Prelude.{
  ℕ, ◌++◌, List, Option, none, some, Result, ok, err, map_err, ◌>>=◌, Bytes, Bool, true, false,
  length, ◌==◌, if◌then◌else◌,
}
use castella.Prelude.Ranges.{Range, RangeBounds}
use castella.Text.{Text, codes}
use castella.Stream.Flow.{Stream, map_err_stream}
use castella.Stream.Library.{Futures, BytesLibrary, IoError, StreamReader}
use castella.Stream.Bandwidth.{BandwidthLimiter}
use castella.Drive
use castella.Drive.{Remote, FileHandle, FolderHandle, FileResponse}
use castella.Db
use castella.Db.{Server}
use castella.Db.Rows
use castella.Db.Rows.{File, Tables}
use castella.Store.Cipher.{Aead, secret_size, new}
use castella.Store.Layout.{
  encrypted_size, requested_range, chunk_range, encrypted_range, content_range,
}
use castella.Store.Content.{upload_stream, content_stream}

-- `Error`. `D` is the drive's error.
pub data Error (D : Type 0) : Type 0 where
  db : Db.Error → Error D
  drive : D → Error D
  io : IoError D → Error D
  secret_invalid : Error D

abbrev pub drive_max_file_limit : ℕ
drive_max_file_limit = 350000

-- `Store`: the tables of the database, and what the drive's operations act on.
pub record Store (W : Type 0) : Type 0 where
  pub tables : Tables
  pub remote : W

pub record FileData (D : Type 0) : Type 0 where
  pub info : File
  pub content : Stream (Error D) Bytes
  pub range : Range

-- What one call draws at random.
pub record Random : Type 0 where
  pub request_id : Text
  pub drive_name : Text
  pub boundary : Text
  pub file_name : Text
  pub secret : Bytes

-- `rand_drive_name` over its ten random characters.
unfoldable pub rand_drive_name : Text → Text
rand_drive_name random = codes "castella-" ++ random

module _ {W B X J A : Type 0} (remote : Remote W B X J A) where
  -- A new drive goes into the database behind its creation.
  unfoldable pub new_drive :
      Random → Server → Store W → Result (Error (Drive.Error X J A)) Rows.Drive × Store W
  new_drive random adding s =
      let (folder, w) =
        Drive.create_drive remote random.request_id (rand_drive_name random.drive_name) s.remote in
      elim folder [
        | err e ↦ (err (drive e), record s { remote = w })
        | ok f ↦
            let (added, t) = Db.add_drive adding f.id s.tables in
            (map_err db added, record { tables = t; remote = w })
      ]

  -- `allocate_file`
  unfoldable pub allocate_file :
      Random → Server → Server → Store W → Result (Error (Drive.Error X J A)) Rows.Drive × Store W
  unfolding new_drive
  allocate_file random searching adding s =
      let (found, t) = Db.get_drive_by_least_files searching drive_max_file_limit s.tables in
      elim found [
        | err e ↦ (err (db e), record s { tables = t })
        | ok none ↦ new_drive random adding (record s { tables = t })
        | ok (some d) ↦ (ok d, record s { tables = t })
      ]

  -- `delete`: from the database first.
  unfoldable pub delete :
      Server → ℕ → Store W → Result (Error (Drive.Error X J A)) (Option File) × Store W
  delete server key s =
      let (found, t) = Db.delete_file_by_key server key s.tables in
      elim found [
        | err e ↦ (err (db e), record s { tables = t })
        | ok none ↦ (ok none, record s { tables = t })
        | ok (some file) ↦
            let (deleted, w) = Drive.delete_file remote (record { id = file.id }) s.remote in
            (map_err drive deleted >>= λ _. ok (some file), record { tables = t; remote = w })
      ]

-- `get_info`
unfoldable pub get_info :
    {W D : Type 0} → Server → ℕ → Store W → Result (Error D) (Option File) × Store W
get_info server key s =
    let (found, t) = Db.get_file_by_key server key false s.tables in
    (map_err db found, record s { tables = t })

module _ {W X J A Y : Type 0} (futures : Futures) (aead : Aead) (reader : StreamReader Y)
    (remote : Remote W (IoError Y) X J A) where
  -- What `upload` does with its drive. `size as i64` keeps the 64 bits.
  unfoldable pub upload_to :
      Random
      → Server
      → BandwidthLimiter
      → ℕ
      → Text
      → Stream Y Bytes
      → Rows.Drive
      → Store W
      → Result (Error (Drive.Error X J A)) File × Store W
  upload_to random adding limiter size content_type content allocated s =
      let cipher = new random.secret in
      let stream = upload_stream futures aead reader size content cipher in
      let (created, w) =
        Drive.create_file futures remote limiter random.boundary random.file_name
          (record { id = allocated.id }) (encrypted_size size) (codes "application/octet-stream")
          stream s.remote in
      elim created [
        | err e ↦ (err (drive e), record s { remote = w })
        | ok file ↦
            let (added, t) =
              Db.add_file adding file.id allocated.key size content_type random.secret s.tables in
            (map_err db added, record { tables = t; remote = w })
      ]

  -- `upload`
  unfoldable pub upload :
      Random
      → Server
      → Server
      → Server
      → BandwidthLimiter
      → ℕ
      → Text
      → Stream Y Bytes
      → Store W
      → Result (Error (Drive.Error X J A)) File × Store W
  unfolding upload_to
  upload random searching adding_drive adding limiter size content_type content s =
      let (allocated, s') = allocate_file remote random searching adding_drive s in
      elim allocated [
        | err e ↦ (err e, s')
        | ok d ↦ upload_to random adding limiter size content_type content d s'
      ]

-- The range that is requested of the drive.
unfoldable pub encrypted_request : File → Option RangeBounds → Range
encrypted_request file range =
    encrypted_range (chunk_range (requested_range range file.size)) (encrypted_size file.size)

module _ {X J A : Type 0} (futures : Futures) (bytes : BytesLibrary) (aead : Aead)
    (reader : StreamReader (Drive.Error X J A)) where
  -- The data of a response of the drive.
  unfoldable pub file_data :
      File → Option RangeBounds → FileResponse (Drive.Error X J A) → FileData (Drive.Error X J A)
  unfolding encrypted_request
  file_data file range response =
      let requested = requested_range range file.size in
      let chunks = chunk_range requested in
      record {
        info = file;
        content = map_err_stream io (
            content_stream futures bytes aead reader response.stream response.range
              (encrypted_request file range) chunks (content_range requested chunks)
              (new file.secret));
        range = requested;
      }

module _ {W B X J A : Type 0} (futures : Futures) (bytes : BytesLibrary) (aead : Aead)
    (reader : StreamReader (Drive.Error X J A)) (remote : Remote W B X J A) where
  -- `get` behind the database: the secret has its size, or is invalid.
  unfoldable pub get_found :
      File
      → Option RangeBounds
      → W
      → Result (Error (Drive.Error X J A)) (Option (FileData (Drive.Error X J A))) × W
  unfolding file_data
  get_found file range w =
      if length file.secret == secret_size
      then (let (response, w') =
            Drive.get_file remote (record { id = file.id }) (encrypted_request file range) w in
          (
            map_err drive response >>= λ r.
                ok (some (file_data futures bytes aead reader file range r)),
            w',
          ))
      else (err secret_invalid, w)

  -- `get`
  unfoldable pub get :
      Server
      → ℕ
      → Option RangeBounds
      → Store W
      → Result (Error (Drive.Error X J A)) (Option (FileData (Drive.Error X J A))) × Store W
  unfolding get_found
  get server key range s =
      let (found, t) = Db.get_file_by_key server key true s.tables in
      elim found [
        | err e ↦ (err (db e), record s { tables = t })
        | ok none ↦ (ok none, record s { tables = t })
        | ok (some file) ↦
            let (data', w) = get_found file range s.remote in
            (data', record { tables = t; remote = w })
      ]
