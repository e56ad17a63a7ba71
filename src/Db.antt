-- ===== src/Db.antt =====
-- `Db` and `DbExecutor` of src/db.rs. Each method of `Db` runs one transaction: what it wrote is there
-- after the commit, and is gone if a statement fails, the commit is rolled back, or nothing is committed.
pub mod Rows
pub mod Files
pub mod Migration
pub mod Placement
use castella.Prelude.{
  ℕ, zero, suc, Option, none, some, Result, ok, err, map_err, ◌>>=◌, Bytes, Bool, true, false,
  if◌then◌else◌,
}
use castella.Text.{Text}
use Rows.{
  Drive, File, Tables, SqlError, JsonError, insert_drive, insert_file, select_file, touch_files,
  delete_files, least_files,
}

-- `Error`, with the errors of the driver and of serde_json.
pub data Error : Type 0 where
  pool_init : SqlError → Error
  transaction_begin : SqlError → Error
  transaction_commit : SqlError → Error
  config_table_create : SqlError → Error
  config_get : SqlError → Error
  config_set : SqlError → Error
  config_serde : JsonError → Error
  migration : SqlError → Error
  migration_version_invalid : ℕ → Error
  drive_add : SqlError → Error
  drive_get : SqlError → Error
  file_add : SqlError → Error
  file_get : SqlError → Error
  file_delete : SqlError → Error

-- What the server does with one transaction: the failures of the connection at the beginning, at the
-- statement and at the commit, and its time, which is that of the whole transaction. A commit that
-- fails is rolled back, unless only its answer was `lost` with the connection: then it is done.
pub record Server : Type 0 where
  pub now : ℕ
  pub begin : Option SqlError
  pub statement : Option SqlError
  pub commit : Option SqlError
  pub lost : Bool

abbrev pub succeed : Option SqlError → (SqlError → Error) → Result Error (Unit {0})
succeed none wrap = ok tt
succeed (some e) wrap = err (wrap e)

module _ {A : Type 0} where
  -- `executor`, a statement, and `commit`: the new tables come only with the commit.
  unfoldable pub transaction :
      Server
      → (SqlError → Error)
      → (Tables → Result SqlError (A × Tables))
      → Tables
      → Result Error A × Tables
  transaction server wrap statement t = elim (succeed server.begin transaction_begin) [
    | err e ↦ (err e, t)
    | ok _ ↦ elim (succeed server.statement wrap) [
      | err e ↦ (err e, t)
      | ok _ ↦ elim (statement t) [
        | err e ↦ (err (wrap e), t)
        | ok (a, t') ↦ elim (succeed server.commit transaction_commit) [
          | err e ↦ (err e, if server.lost then t' else t)
          | ok _ ↦ (ok a, t')
        ]
      ]
    ]
  ]

  -- The same with no commit: the executor is dropped, and the transaction rolled back.
  unfoldable pub query_only :
      Server → (SqlError → Error) → (Tables → A) → Tables → Result Error A × Tables
  query_only server wrap query t = elim (succeed server.begin transaction_begin) [
    | err e ↦ (err e, t)
    | ok _ ↦ elim (succeed server.statement wrap) [ err e ↦ (err e, t) | ok _ ↦ (ok (query t), t) ]
  ]

unfoldable pub add_drive : Server → Text → Tables → Result Error Drive × Tables
unfolding transaction
add_drive server id = transaction server drive_add (insert_drive server.now id)

unfoldable pub get_drive_by_least_files : Server → ℕ → Tables → Result Error (Option Drive) × Tables
unfolding query_only
get_drive_by_least_files server max_files =
    query_only server drive_get (λ t. least_files max_files t.files t.drives)

unfoldable pub add_file : Server → Text → ℕ → ℕ → Text → Bytes → Tables → Result Error File × Tables
unfolding transaction
add_file server id drive_key size content_type secret =
    transaction server file_add (insert_file server.now id drive_key size content_type secret)

-- The update returns the row as it is behind it.
unfoldable pub read_file : ℕ → ℕ → Bool → Tables → Result SqlError (Option File × Tables)
read_file now key true t =
    let files = touch_files now key t.files in
    ok (select_file key files, record t { files = files })
read_file now key false t = ok (select_file key t.files, t)

unfoldable pub get_file_by_key : Server → ℕ → Bool → Tables → Result Error (Option File) × Tables
unfolding transaction read_file
get_file_by_key server key update_atime =
    transaction server file_get (read_file server.now key update_atime)

unfoldable pub remove_file : ℕ → Tables → Result SqlError (Option File × Tables)
remove_file key t = ok (select_file key t.files, record t { files = delete_files key t.files })

unfoldable pub delete_file_by_key : Server → ℕ → Tables → Result Error (Option File) × Tables
unfolding transaction remove_file
delete_file_by_key server key = transaction server file_delete (remove_file key)
