-- ===== src/Store/Operations/Allocation.antt =====
-- The drive that `upload` allocates a file to.
use castella.Prelude.{◌≤◌, ◌<◌, ◌≡◌, refl, Option, none, some, ok, arith}
use mathlib.Core.Path.{subst}
use castella.Drive.{Remote}
use castella.Db
use castella.Db.{Server, query_only, get_drive_by_least_files}
use castella.Db.Rows
use castella.Db.Rows.{Tables, SqlError, count_files, least_files}
use castella.Db.Placement.{OneOf, AllDrives, Found, least_files-Found}
use castella.Store.Operations.{Store, Random, drive_max_file_limit, new_drive, allocate_file}

query_only_ok :
    {A : Type 0} (server : Server) (wrap : SqlError → Db.Error) (query : Tables → A) (t : Tables)
    {a : A}
    → (query_only server wrap query t).0 ≡ ok a
    → (query t ≡ a) × ((query_only server wrap query t).1 ≡ t)
unfolding query_only
query_only_ok server wrap query t h = ground arith

found_lem :
    (server : Server) (t : Tables) {o : Option Rows.Drive}
    → (get_drive_by_least_files server drive_max_file_limit t).0 ≡ ok o
    → Found drive_max_file_limit t.files o t.drives
      × ((get_drive_by_least_files server drive_max_file_limit t).1 ≡ t)
unfolding get_drive_by_least_files
found_lem server t h =
    let (e, d) =
      query_only_ok server Db.drive_get (λ t'. least_files drive_max_file_limit t'.files t'.drives)
        t h in
    (
      subst (λ o. Found drive_max_file_limit t.files o t.drives) e
          (least_files-Found drive_max_file_limit t.files t.drives),
      d,
    )

module _ {W B X J A : Type 0} (remote : Remote W B X J A) where
  -- Where the database's search returns a drive, `allocate_file` returns that drive and changes nothing;
  -- it is one of the database's drives, it holds at most 350000 files, and none holds fewer.
  pub allocate_file_found :
      (random : Random) (searching adding : Server) (s : Store W) (d : Rows.Drive)
      → (get_drive_by_least_files searching drive_max_file_limit s.tables).0 ≡ ok (some d)
      → (allocate_file remote random searching adding s ≡ (ok d, s))
        × OneOf d s.tables.drives
        × (count_files d.key s.tables.files ≤ drive_max_file_limit)
        × AllDrives
            (λ e. count_files d.key s.tables.files ≤ count_files e.key s.tables.files)
            s.tables.drives
  unfolding allocate_file
  allocate_file_found random searching adding s d h =
      let (found, same) = found_lem searching s.tables h in
      (rw (h, same, allocate_file) refl, found.0, found.1, found.2)

  -- Where the search returns none, every drive of the database holds more than 350000 files, and
  -- `allocate_file` makes a new drive.
  pub allocate_file_new :
      (random : Random) (searching adding : Server) (s : Store W)
      → (get_drive_by_least_files searching drive_max_file_limit s.tables).0 ≡ ok none
      → (allocate_file remote random searching adding s ≡ new_drive remote random adding s)
        × AllDrives (λ e. drive_max_file_limit < count_files e.key s.tables.files) s.tables.drives
  unfolding allocate_file
  allocate_file_new random searching adding s h =
      let (found, same) = found_lem searching s.tables h in
      (rw (h, same, allocate_file) refl, found)
