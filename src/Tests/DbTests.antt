-- ===== src/Tests/DbTests.antt =====
-- The methods of the database on small tables.
use castella.Prelude.{ℕ, ◌≡◌, refl, [], ◌∷◌, none, some, ◌==◌, if◌then◌else◌, arith}
use castella.Db.{add_file, delete_file_by_key}
use castella.Db.Rows.{File, select_file, insert_file, least_files}
use castella.Db.Files.{IsValid, row_of, add_file_lem, delete_file_by_key_lem}
use castella.Db.Placement.{Found, least_files-Found}
use castella.Store.Operations.Deletion.{healthy}
use castella.Tests.Service.{row, secret, tables, full_drive, free_drive}

least_files-Found_example :
    Found 5 tables.files
      (least_files 5 tables.files (full_drive ∷ free_drive ∷ []))
      (full_drive ∷ free_drive ∷ [])
least_files-Found_example = least_files-Found 5 tables.files (full_drive ∷ free_drive ∷ [])

tables-IsValid : IsValid tables
tables-IsValid = (omega arith, (omega arith, (omega arith, tt)))

abbrev added : File
added = row_of 7 (9 ∷ []) 2 5 (97 ∷ []) secret tables

add_file_lem_example :
    let t' = (add_file (healthy 7) (9 ∷ []) 2 5 (97 ∷ []) secret tables).1 in
    (added ≡ row_of 7 (9 ∷ []) 2 5 (97 ∷ []) secret tables)
    × IsValid t'
    × (t'.drives ≡ tables.drives)
    × ((j : ℕ)
        → select_file j t'.files
          ≡ (if j == added.key then some added else select_file j tables.files))
unfolding add_file insert_file
add_file_lem_example =
    add_file_lem (healthy 7) (9 ∷ []) 2 5 (97 ∷ []) secret tables tables-IsValid refl

delete_file_by_key_lem_example :
    let t' = (delete_file_by_key (healthy 7) 2 tables).1 in
    (some (row 2 2) ≡ select_file 2 tables.files)
    × IsValid t'
    × (t'.drives ≡ tables.drives)
    × (t'.next_file ≡ tables.next_file)
    × ((j : ℕ) → select_file j t'.files ≡ (if j == 2 then none else select_file j tables.files))
unfolding delete_file_by_key select_file
delete_file_by_key_lem_example = delete_file_by_key_lem (healthy 7) 2 tables tables-IsValid refl
