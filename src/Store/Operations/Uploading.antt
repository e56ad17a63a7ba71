-- ===== src/Store/Operations/Uploading.antt =====
-- What an upload leaves in the database.
use castella.Prelude.{false, ℕ, ◌≡◌, refl, ◌∙◌, Result, ok, err, Bytes, arith}
use castella.Text.{Text}
use castella.Stream.Flow.{Stream}
use castella.Stream.Library.{Futures, IoError, StreamReader}
use castella.Stream.Bandwidth.{BandwidthLimiter}
use castella.Drive
use castella.Drive.{Remote}
use castella.Db
use castella.Db.{Server, transaction, query_only}
use castella.Db.Rows
use castella.Db.Rows.{File, Tables, insert_drive, insert_file, least_files}
use castella.Store.Cipher.{Aead}
use castella.Store.Operations.Allocating.{SameFiles, allocate_file-SameFiles}
use castella.Store.Operations.{Store, Error, Random, allocate_file, upload_to, upload}

files-add_file :
    (server : Server) (id : Text) (drive_key size : ℕ) (content_type : Text) (secret : Bytes)
    (t : Tables) {e : Db.Error}
    → server.lost ≡ false
    → (Db.add_file server id drive_key size content_type secret t).0 ≡ err e
    → (Db.add_file server id drive_key size content_type secret t).1 ≡ t
unfolding Db.add_file transaction insert_file
files-add_file server id drive_key size content_type secret t kept h = ground arith

module _ {W X J A Y : Type 0} (futures : Futures) (aead : Aead) (reader : StreamReader Y)
    (remote : Remote W (IoError Y) X J A) (random : Random) (adding : Server)
    (limiter : BandwidthLimiter) (size : ℕ) (content_type : Text) (content : Stream Y Bytes) where
  upload_to-SameFiles :
      (d : Rows.Drive) (s : Store W) {e : Error (Drive.Error X J A)}
      → adding.lost ≡ false
      → (upload_to futures aead reader remote random adding limiter size content_type content d s).0
        ≡ err e
      → SameFiles s.tables
          (upload_to futures aead reader remote random adding limiter size content_type content d
            s).1.tables
  unfolding upload_to
  upload_to-SameFiles d s kept h = grind (arith, files-add_file)

  module _ (searching adding_drive : Server) (s : Store W) where
    abbrev uploaded : Result (Error (Drive.Error X J A)) File × Store W
    uploaded =
        upload futures aead reader remote random searching adding_drive adding limiter size
          content_type content s

    abbrev allocated : Result (Error (Drive.Error X J A)) Rows.Drive × Store W
    allocated = allocate_file remote random searching adding_drive s

    upload_at :
        {e : Error (Drive.Error X J A)} (r : Result (Error (Drive.Error X J A)) Rows.Drive)
        → adding.lost ≡ false
        → allocated.0 ≡ r
        → uploaded.0 ≡ err e
        → SameFiles s.tables uploaded.1.tables
    unfolding upload
    upload_at (err x) kept a =
        rw (a, upload) (λ h. allocate_file-SameFiles remote random searching adding_drive s)
    upload_at (ok d) kept a =
        let before = allocate_file-SameFiles remote random searching adding_drive s in
        rw (a, upload)
          (λ h.
            let behind = upload_to-SameFiles d allocated.1 kept h in
            (behind.0 ∙ before.0, behind.1 ∙ before.1))

    -- Where a commit that fails is rolled back, an upload that fails leaves the files of the database, and the sequence of their keys, as they were.
    pub upload-SameFiles :
        {e : Error (Drive.Error X J A)}
        → adding.lost ≡ false
        → uploaded.0 ≡ err e
        → SameFiles s.tables uploaded.1.tables
    upload-SameFiles kept h = upload_at _ kept refl h

  -- Where a commit that fails is rolled back, an upload that fails, at whichever of its steps, leaves the files of the database as they were.
  pub files-upload :
      (searching adding_drive : Server) (s : Store W) {e : Error (Drive.Error X J A)}
      → adding.lost ≡ false
      → (upload futures aead reader remote random searching adding_drive adding limiter size
          content_type content s).0
        ≡ err e
      → (upload futures aead reader remote random searching adding_drive adding limiter size
          content_type content s).1.tables.files
        ≡ s.tables.files
  files-upload searching adding_drive s kept h =
      (upload-SameFiles searching adding_drive s kept h).0
