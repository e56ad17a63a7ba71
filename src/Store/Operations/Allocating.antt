-- ===== src/Store/Operations/Allocating.antt =====
-- What an allocation leaves of the files: in the database and in the service.
use castella.Prelude.{◌≡◌, refl, ap, ◌∙◌, Option, none, some, Result, ok, err, Bytes, arith}
use castella.Text.{Text}
use castella.Drive
use castella.Drive.{Remote}
use castella.Drive.Service.{Service}
use castella.Drive.Kept.{file-create_drive}
use castella.Db
use castella.Db.{Server, transaction, query_only}
use castella.Db.Rows
use castella.Db.Rows.{File, Tables, insert_drive, least_files}
use castella.Store.Operations.{
  Store, Random, drive_max_file_limit, rand_drive_name, new_drive, allocate_file,
}

-- The same files, and the same next key for a file.
abbrev pub SameFiles : Tables → Tables → Type 0
SameFiles t t' = (t'.files ≡ t.files) × (t'.next_file ≡ t.next_file)

add_drive-SameFiles :
    (server : Server) (id : Text) (t : Tables) → SameFiles t (Db.add_drive server id t).1
unfolding Db.add_drive transaction insert_drive
add_drive-SameFiles server id t = ground arith

search-SameFiles :
    (server : Server) (t : Tables)
    → SameFiles t (Db.get_drive_by_least_files server drive_max_file_limit t).1
unfolding Db.get_drive_by_least_files query_only
search-SameFiles server t = ground arith

module _ {W B X J A : Type 0} (remote : Remote W B X J A) where
  new_drive-SameFiles :
      (random : Random) (adding : Server) (s : Store W)
      → SameFiles s.tables (new_drive remote random adding s).1.tables
  unfolding new_drive
  new_drive-SameFiles random adding s = grind (arith, add_drive-SameFiles)

  remote-new_drive :
      (random : Random) (adding : Server) (s : Store W)
      → (new_drive remote random adding s).1.remote
        ≡ (Drive.create_drive remote random.request_id
            (rand_drive_name random.drive_name)
            s.remote).1
  unfolding new_drive
  remote-new_drive random adding s = ground arith

  module _ (random : Random) (searching adding : Server) (s : Store W) where
    abbrev searched : Result Db.Error (Option Rows.Drive) × Tables
    searched = Db.get_drive_by_least_files searching drive_max_file_limit s.tables

    allocate_file_at :
        (found : Result Db.Error (Option Rows.Drive))
        → searched.0 ≡ found
        → SameFiles s.tables (allocate_file remote random searching adding s).1.tables
    unfolding allocate_file
    allocate_file_at (err e) h = rw (h, allocate_file) (search-SameFiles searching s.tables)
    allocate_file_at (ok (some d)) h = rw (h, allocate_file) (search-SameFiles searching s.tables)
    allocate_file_at (ok none) h =
        let searching_kept = search-SameFiles searching s.tables in
        let adding_kept = new_drive-SameFiles random adding (record s { tables = searched.1 }) in
        rw (h, allocate_file) (adding_kept.0 ∙ searching_kept.0, adding_kept.1 ∙ searching_kept.1)

    -- An allocation leaves the files of the database, and the sequence of their keys, as they were.
    pub allocate_file-SameFiles :
        SameFiles s.tables (allocate_file remote random searching adding s).1.tables
    allocate_file-SameFiles = allocate_file_at _ refl

    kept_at :
        (service : Service remote) (id : Text) (found : Result Db.Error (Option Rows.Drive))
        {content : Bytes}
        → searched.0 ≡ found
        → service.file s.remote id ≡ some content
        → service.file (allocate_file remote random searching adding s).1.remote id ≡ some content
    unfolding allocate_file
    kept_at service id (err e) h kept = rw (h, allocate_file) kept
    kept_at service id (ok (some d)) h kept = rw (h, allocate_file) kept
    kept_at service id (ok none) h kept =
        rw (h, allocate_file)
          (ap (λ w. service.file w id)
              (remote-new_drive random adding (record s { tables = searched.1 }))
            ∙ file-create_drive service random.request_id (rand_drive_name random.drive_name)
                s.remote id kept)

    -- It leaves the files of the service as they were.
    pub file-allocate_file :
        (service : Service remote) (id : Text) {content : Bytes}
        → service.file s.remote id ≡ some content
        → service.file (allocate_file remote random searching adding s).1.remote id ≡ some content
    file-allocate_file service id kept = kept_at service id _ refl kept
