-- ===== src/Db/Rows.antt =====
-- The rows, the tables, and the statements of src/db.rs. A list of rows is in the order in which the
-- server reads them, which SQL leaves open; every theorem is about every order.
use castella.Prelude.{
  ℕ, suc, [], ◌∷◌, ◌++◌, List, Option, none, some, Result, ok, err, Bytes, Bool, true, false, ◌&&◌,
  ◌||◌, not, leb, ◌==◌, if◌then◌else◌,
}
use castella.Text.{Text}

-- `Drive` and `File`. Times are numbers of seconds; `size` is the i64 as its 64 bits.
pub record Drive : Type 0 where
  pub key : ℕ
  pub id : Text
  pub created_time : ℕ

pub record File : Type 0 where
  pub key : ℕ
  pub id : Text
  pub drive_key : ℕ
  pub size : ℕ
  pub content_type : Text
  pub created_time : ℕ
  pub accessed_time : ℕ
  pub secret : Bytes

-- The two tables of sql/migration1.sql with the sequences of their serial keys. The server may also
-- leave gaps in a sequence when a transaction is rolled back, which the model does not.
pub record Tables : Type 0 where
  pub drives : List Drive
  pub files : List File
  pub next_drive : ℕ
  pub next_file : ℕ

-- What a statement may fail with: a constraint of the schema, a table that is not there, or the connection.
pub data SqlError : Type 0 where
  unique_violation : SqlError
  foreign_key_violation : SqlError
  undefined_table : SqlError
  connection : ℕ → SqlError

-- An error of serde_json, which only its print tells apart.
pub data JsonError : Type 0 where
  json : ℕ → JsonError

abbrev pub text_eq : Text → Text → Bool
text_eq [] [] = true
text_eq (a ∷ s) (b ∷ t) = (a == b) && text_eq s t
text_eq _ _ = false

unfoldable pub has_drive_id : Text → List Drive → Bool
has_drive_id id [] = false
has_drive_id id (d ∷ ds) = text_eq d.id id || has_drive_id id ds

unfoldable pub has_drive_key : ℕ → List Drive → Bool
has_drive_key key [] = false
has_drive_key key (d ∷ ds) = (d.key == key) || has_drive_key key ds

unfoldable pub has_file_id : Text → List File → Bool
has_file_id id [] = false
has_file_id id (f ∷ fs) = text_eq f.id id || has_file_id id fs

-- insert into drives (id) values ($1) returning *
unfoldable pub insert_drive : ℕ → Text → Tables → Result SqlError (Drive × Tables)
unfolding has_drive_id
insert_drive now id t =
    if has_drive_id id t.drives
    then err unique_violation
    else (let row : Drive = record { key = t.next_drive; id = id; created_time = now } in
        ok (row, record t { drives = t.drives ++ row ∷ []; next_drive = suc t.next_drive }))

-- insert into files (id, drive_key, size, content_type, secret) values (…) returning *
unfoldable pub insert_file :
    ℕ → Text → ℕ → ℕ → Text → Bytes → Tables → Result SqlError (File × Tables)
unfolding has_file_id has_drive_key
insert_file now id drive_key size content_type secret t =
    if has_file_id id t.files
    then err unique_violation
    else if not (has_drive_key drive_key t.drives)
    then err foreign_key_violation
    else (let row : File = record {
      key = t.next_file;
      id = id;
      drive_key = drive_key;
      size = size;
      content_type = content_type;
      created_time = now;
      accessed_time = now;
      secret = secret;
    } in
        ok (row, record t { files = t.files ++ row ∷ []; next_file = suc t.next_file }))

-- select * from files where key = $1
unfoldable pub select_file : ℕ → List File → Option File
select_file key [] = none
select_file key (f ∷ fs) = if f.key == key then some f else select_file key fs

-- update files set accessed_time = … where key = $1
unfoldable pub touch_files : ℕ → ℕ → List File → List File
touch_files now key [] = []
touch_files now key (f ∷ fs) =
    (if f.key == key then record f { accessed_time = now } else f) ∷ touch_files now key fs

-- delete from files where key = $1
unfoldable pub delete_files : ℕ → List File → List File
delete_files key [] = []
delete_files key (f ∷ fs) =
    let rest = delete_files key fs in if f.key == key then rest else f ∷ rest

-- select drive_key, count(drive_key) … group by drive_key, with coalesce(count, 0)
unfoldable pub count_files : ℕ → List File → ℕ
count_files drive_key [] = 0
count_files drive_key (f ∷ fs) =
    let rest = count_files drive_key fs in if f.drive_key == drive_key then suc rest else rest

-- … where coalesce(count, 0) <= $1 order by coalesce(count, 0) asc limit 1, row by row.
unfoldable pub prefer : ℕ → List File → Drive → Option Drive → Option Drive
unfolding count_files
prefer max files d none = if leb (count_files d.key files) max then some d else none
prefer max files d (some e) =
    if leb (count_files d.key files) (count_files e.key files) then some d else some e

unfoldable pub least_files : ℕ → List File → List Drive → Option Drive
unfolding prefer
least_files max files [] = none
least_files max files (d ∷ ds) = prefer max files d (least_files max files ds)
