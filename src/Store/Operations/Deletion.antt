-- ===== src/Store/Operations/Deletion.antt =====
-- What is left behind a deletion.
use castella.Prelude.{ℕ, ◌≡◌, refl, ap, ◌∙◌, Option, none, ok, arith, ◌==◌, if◌then◌else◌, false}
use castella.Drive
use castella.Drive.{Remote}
use castella.Db.{Server, transaction, read_file, get_file_by_key, delete_file_by_key}
use castella.Db.Rows.{File, Tables, select_file}
use castella.Db.Files.{IsValid, delete_file_by_key_lem}
use castella.Store.Operations.{Store, delete, get_info}

-- A server with which nothing fails.
abbrev pub healthy : ℕ → Server
healthy now = record { now = now; begin = none; statement = none; commit = none; lost = false }

get_info-healthy :
    {W D : Type 0} (now key : ℕ) (s : Store W)
    → (get_info {D = D} (healthy now) key s).0 ≡ ok (select_file key s.tables.files)
unfolding get_info get_file_by_key transaction read_file
get_info-healthy now key s = refl

module _ {W B X J A : Type 0} (remote : Remote W B X J A) where
  tables-delete :
      (server : Server) (key : ℕ) (s : Store W)
      → (delete remote server key s).1.tables ≡ (delete_file_by_key server key s.tables).1
  unfolding delete
  tables-delete server key s = ground arith

  -- On tables whose keys are below the sequence, behind a `delete` whose database step succeeded, the
  -- database has no file under the key, whether the drive deleted the file or failed; and the file of
  -- every other key is as it was.
  pub delete-get_info :
      (server : Server) (key now : ℕ) (s : Store W) {found : Option File}
      → IsValid s.tables
      → (delete_file_by_key server key s.tables).0 ≡ ok found
      → let s' = (delete remote server key s).1 in
        ((get_info {D = Drive.Error X J A} (healthy now) key s').0 ≡ ok none)
        × ((j : ℕ)
            → (get_info {D = Drive.Error X J A} (healthy now) j s').0
              ≡ ok (if j == key then none else select_file j s.tables.files))
  delete-get_info server key now s valid h =
      let lem = delete_file_by_key_lem server key s.tables valid h in
      let at = λ (j : ℕ).
        get_info-healthy {D = Drive.Error X J A} now j (delete remote server key s).1
        ∙ ap (λ (t : Tables). ok (select_file j t.files)) (tables-delete server key s)
        ∙ ap ok (lem.4 j) in
      (at key ∙ ground arith, at)
