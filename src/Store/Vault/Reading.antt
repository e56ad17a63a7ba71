-- ===== src/Store/Vault/Reading.antt =====
-- `get` and `get_info` read the map that the store represents.
use castella.Prelude.{
  ℕ, ◌≡◌, refl, ◌⊎◌, inl, inr, Option, none, some, Result, ok, err, Bytes, true, length, ◌==◌,
  Bool-cases, arith,
}
use castella.Prelude.Ranges.{RangeBounds}
use castella.Text.{Text}
use castella.Stream.Library.{Futures, BytesLibrary, StreamReader}
use castella.Drive
use castella.Drive.{Remote, FileHandle, FileResponse}
use castella.Drive.Service.{Service}
use castella.Drive.Kept.{file-get_file}
use castella.Db
use castella.Db.{Server, get_file_by_key, transaction, read_file, file_get}
use castella.Db.Rows.{File, Tables, select_file, touch_files}
use castella.Db.Files.{
  KeysBelow-touch_files, touch_option, transaction_ok, touch_file_ok, select-touch_files,
}
use castella.Store.Cipher.{Aead, secret_size}
use castella.Store.Operations.{Store, Error, FileData, encrypted_request, get_found, get}
use castella.Store.Vault.{Document, Vault, Holds, Represents}
use castella.Store.Vault.Ids.{touch_files-DistinctIds}

-- The tables behind a read with an update of the access time.
read_tables :
    (server : Server) (key : ℕ) (t : Tables)
    → ((Db.get_file_by_key server key true t).1 ≡ t)
      ⊎ ((Db.get_file_by_key server key true t).1
          ≡ record t { files = touch_files server.now key t.files })
unfolding get_file_by_key transaction read_file
read_tables server key t = ground arith

read_row :
    (server : Server) (key : ℕ) (t : Tables) {found : Option File}
    → (Db.get_file_by_key server key true t).0 ≡ ok found
    → found ≡ touch_option server.now (select_file key t.files)
unfolding get_file_by_key
read_row server key t {found} h =
    (touch_file_ok server.now key t _ found
      (transaction_ok server file_get (read_file server.now key true) t h)).0

module _ {W B X J A : Type 0} {remote : Remote W B X J A} (aead : Aead)
    (service : Service remote) where
  touched-Holds :
      (w : W) (now : ℕ) (o : Option File) (d : Option Document)
      → Holds aead service w o d
      → Holds aead service w (touch_option now o) d
  touched-Holds w now none none h = tt
  touched-Holds w now none (some d) h = h
  touched-Holds w now (some f) none h = h
  touched-Holds w now (some f) (some d) h = record {
    secret = h.secret;
    size = h.size;
    nonempty = h.nonempty;
    small = h.small;
    content_type = h.content_type;
    held = h.held;
  }

  pub none-Holds : (w : W) (d : Option Document) → Holds aead service w none d → d ≡ none
  none-Holds w none h = refl
  none-Holds w (some d) h = absurd h

  -- A world that keeps every file holds what it held.
  pub kept-Holds :
      (w w' : W) (o : Option File) (d : Option Document)
      → ((id : Text) (content : Bytes)
          → service.file w id ≡ some content
          → service.file w' id ≡ some content)
      → Holds aead service w o d
      → Holds aead service w' o d
  kept-Holds w w' none none kept h = tt
  kept-Holds w w' none (some d) kept h = h
  kept-Holds w w' (some f) none kept h = h
  kept-Holds w w' (some f) (some d) kept h = record {
    secret = h.secret;
    size = h.size;
    nonempty = h.nonempty;
    small = h.small;
    content_type = h.content_type;
    held = kept f.id _ h.held;
  }

  touched-Represents :
      (s : Store W) (v : Vault) (now key : ℕ)
      → Represents aead service s v
      → Represents aead service
          (record s { tables = record s.tables { files = touch_files now key s.tables.files } })
          v
  touched-Represents s v now key h = record {
    valid = KeysBelow-touch_files s.tables.next_file now key s.tables.files h.valid;
    distinct = touch_files-DistinctIds now key s.tables.files h.distinct;
    rows = λ j. rw (select-touch_files now key j s.tables.files) (elim (Bool-cases (j == key)) [
      | inl same ↦
          rw same (touched-Holds s.remote now (select_file j s.tables.files) (v j) (h.rows j))
      | inr other ↦ rw other (h.rows j)
    ]);
  }

  read-Represents :
      (s : Store W) (v : Vault) (server : Server) (key : ℕ)
      → Represents aead service s v
      → Represents aead service
          (record s { tables = (Db.get_file_by_key server key true s.tables).1 })
          v
  read-Represents s v server key h = elim (read_tables server key s.tables) [
    | inl same ↦ rw same h
    | inr touched ↦ rw touched (touched-Represents s v server.now key h)
  ]

  -- What is known of a row that a read returned.
  pub read-Holds :
      (s : Store W) (v : Vault) (server : Server) (key : ℕ) {found : Option File}
      → Represents aead service s v
      → (Db.get_file_by_key server key true s.tables).0 ≡ ok found
      → Holds aead service s.remote found (v key)
  read-Holds s v server key h e =
      rw (read_row server key s.tables e)
        (touched-Holds s.remote server.now (select_file key s.tables.files) (v key) (h.rows key))

  pub kept-Represents :
      (s : Store W) (v : Vault) (w' : W)
      → ((id : Text) (content : Bytes)
          → service.file s.remote id ≡ some content
          → service.file w' id ≡ some content)
      → Represents aead service s v
      → Represents aead service (record s { remote = w' }) v
  kept-Represents s v w' kept h = record {
    valid = h.valid;
    distinct = h.distinct;
    rows = λ j. kept-Holds s.remote w' (select_file j s.tables.files) (v j) kept (h.rows j);
  }

  module _ (futures : Futures) (bytes : BytesLibrary) (reader : StreamReader (Drive.Error X J A))
      (server : Server) (key : ℕ) (range : Option RangeBounds) (s : Store W) where
    abbrev got :
        Result (Error (Drive.Error X J A)) (Option (FileData (Drive.Error X J A))) × Store W
    got = get futures bytes aead reader remote server key range s

    file-get_found :
        (file : File) (id : Text) {content : Bytes}
        → service.file s.remote id ≡ some content
        → service.file (get_found futures bytes aead reader remote file range s.remote).1 id
          ≡ some content
    unfolding get_found
    file-get_found file id kept = elim (Bool-cases (length file.secret == secret_size)) [
      | inl sized ↦ rw sized (
          file-get_file service (record { id = file.id }) (encrypted_request file range) s.remote id
            kept)
      | inr other ↦ rw other kept
    ]

    got_state_at :
        (read : Result Db.Error (Option File)) (v : Vault)
        → (Db.get_file_by_key server key true s.tables).0 ≡ read
        → Represents aead service s v
        → Represents aead service got.1 v
    unfolding get
    got_state_at (err e) v h rep = rw (h, get) (read-Represents s v server key rep)
    got_state_at (ok none) v h rep = rw (h, get) (read-Represents s v server key rep)
    got_state_at (ok (some file)) v h rep =
        rw (h, get)
          (kept-Represents (record s { tables = (Db.get_file_by_key server key true s.tables).1 }) v
            (get_found futures bytes aead reader remote file range s.remote).1
            (λ id content kept. file-get_found file id kept) (read-Represents s v server key rep))

    -- Where the store represents a map, it represents the same map behind `get`, whatever that returns.
    pub get-Represents : (v : Vault) → Represents aead service s v → Represents aead service got.1 v
    get-Represents v rep = got_state_at _ v refl rep
