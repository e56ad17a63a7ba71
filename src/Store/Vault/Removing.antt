-- ===== src/Store/Vault/Removing.antt =====
-- `delete` removes a document from the map that the store represents.
use castella.Prelude.{
  ℕ, ◌≡◌, refl, sym, inl, inr, Option, none, some, Result, ok, err, map_err, ◌>>=◌, Bytes, false,
  ◌==◌, Bool-cases, arith,
}
use castella.Drive
use castella.Drive.{Remote, FileHandle}
use castella.Drive.Service.{Service}
use castella.Drive.Kept.{file-delete_file}
use castella.Db
use castella.Db.{Server, delete_file_by_key, transaction, remove_file}
use castella.Db.Rows.{File, Tables, select_file, delete_files}
use castella.Db.Files.{KeysBelow-delete_files, select-delete_files, remove_file_ok, transaction_ok}
use castella.Store.Cipher.{Aead}
use castella.Store.Operations.{Store, Error, db, drive, delete}
use castella.Store.Vault.{Document, Vault, update, Holds, Represents}
use castella.Store.Vault.Ids.{delete_files-DistinctIds, select_file-distinct}

-- The map behind a deletion: the document is gone unless the database failed.
abbrev pub removed : {D A : Type 0} → Vault → ℕ → Result (Error D) A → Vault
removed v key (err (db e)) = v
removed v key _ = update v key none

-- A deletion from the database that fails changes nothing; otherwise it returns the row that was there.
delete_failed :
    (server : Server) (key : ℕ) (t : Tables) {e : Db.Error}
    → server.lost ≡ false
    → (Db.delete_file_by_key server key t).0 ≡ err e
    → (Db.delete_file_by_key server key t).1 ≡ t
unfolding delete_file_by_key transaction remove_file
delete_failed server key t kept h = ground arith

delete_done :
    (server : Server) (key : ℕ) (t : Tables) {found : Option File}
    → (Db.delete_file_by_key server key t).0 ≡ ok found
    → (found ≡ select_file key t.files)
      × ((Db.delete_file_by_key server key t).1 ≡ record t { files = delete_files key t.files })
unfolding delete_file_by_key
delete_done server key t {found} h =
    remove_file_ok key t _ found (transaction_ok server Db.file_delete (remove_file key) t h)

module _ {W B X J A : Type 0} {remote : Remote W B X J A} (aead : Aead)
    (service : Service remote) where
  -- A world that keeps the file of a row holds the row's document.
  spared-Holds :
      (w w' : W) (o : Option File) (d : Option Document)
      → ((f : File) (content : Bytes)
          → o ≡ some f
          → service.file w f.id ≡ some content
          → service.file w' f.id ≡ some content)
      → Holds aead service w o d
      → Holds aead service w' o d
  spared-Holds w w' none none kept h = tt
  spared-Holds w w' none (some d) kept h = h
  spared-Holds w w' (some f) none kept h = h
  spared-Holds w w' (some f) (some d) kept h = record {
    secret = h.secret;
    size = h.size;
    nonempty = h.nonempty;
    small = h.small;
    content_type = h.content_type;
    held = kept f _ refl h.held;
  }

  module _ (key : ℕ) (s : Store W) (v : Vault) (w' : W) where
    -- The rows behind the removal of one, in a world that keeps the files of the others.
    removed-Represents :
        ((j : ℕ) (f : File) (content : Bytes)
          → (j == key) ≡ false
          → select_file j s.tables.files ≡ some f
          → service.file s.remote f.id ≡ some content
          → service.file w' f.id ≡ some content)
        → Represents aead service s v
        → Represents aead service
            (record {
              tables = record s.tables { files = delete_files key s.tables.files };
              remote = w';
            })
            (update v key none)
    removed-Represents kept h = record {
      valid = KeysBelow-delete_files s.tables.next_file key s.tables.files h.valid;
      distinct = delete_files-DistinctIds key s.tables.files h.distinct;
      rows = λ j. rw (select-delete_files key j s.tables.files) (elim (Bool-cases (j == key)) [
        | inl same ↦ rw same tt
        | inr other ↦ rw other (
            spared-Holds s.remote w' (select_file j s.tables.files) (v j)
              (λ f content found held. kept j f content other found held) (h.rows j))
      ]);
    }

  module _ (server : Server) (key : ℕ) (s : Store W) (v : Vault) where
    abbrev deleted : Result (Error (Drive.Error X J A)) (Option File) × Store W
    deleted = delete remote server key s

    swapped : (j : ℕ) → (j == key) ≡ false → (key == j) ≡ false
    swapped j h = ground arith

    spared :
        (file : File) (j : ℕ) (f : File) (content : Bytes)
        → Represents aead service s v
        → select_file key s.tables.files ≡ some file
        → (j == key) ≡ false
        → select_file j s.tables.files ≡ some f
        → service.file s.remote f.id ≡ some content
        → service.file (Drive.delete_file remote (record { id = file.id }) s.remote).1 f.id
          ≡ some content
    spared file j f content rep here other there held =
        file-delete_file service (record { id = file.id }) s.remote f.id
          (select_file-distinct key j s.tables.files file f rep.distinct here there
            (swapped j other))
          held

    not_db :
        (file : File) (r : Result (Drive.Error X J A) (Unit {0}))
        → removed v key (map_err {F = Error (Drive.Error X J A)} drive r >>= λ _. ok (some file))
          ≡ update v key none
    not_db file (err e) = refl
    not_db file (ok u) = refl

    deleted_at :
        (read : Result Db.Error (Option File))
        → server.lost ≡ false
        → (Db.delete_file_by_key server key s.tables).0 ≡ read
        → Represents aead service s v
        → Represents aead service deleted.1 (removed v key deleted.0)
    unfolding delete
    deleted_at (err e) kept h rep =
        rw (h, delete) (rw (delete_failed server key s.tables kept h) rep)
    deleted_at (ok none) kept h rep =
        rw (h, delete)
          (rw (delete_done server key s.tables h).1
            (removed-Represents key s v s.remote (λ j f content other found held. held) rep))
    deleted_at (ok (some file)) kept h rep =
        let done = delete_done server key s.tables h in
        rw (h, delete)
          (rw (done.1, not_db file (Drive.delete_file remote (record { id = file.id }) s.remote).0)
            (removed-Represents key s v
              (Drive.delete_file remote (record { id = file.id }) s.remote).1
              (λ j f content other found held.
                spared file j f content rep (sym done.0) other found held)
              rep))

    -- Where the store represents a map, and a commit that fails is rolled back, its answer not being lost
    -- with the connection: behind `delete` it represents the map without a document of the
    -- key, whether the drive deleted the file or failed, and the same map if the database failed; every
    -- other document is as it was.
    pub delete-Represents :
        server.lost ≡ false
        → Represents aead service s v
        → Represents aead service deleted.1 (removed v key deleted.0)
    delete-Represents kept rep = deleted_at _ kept refl rep
