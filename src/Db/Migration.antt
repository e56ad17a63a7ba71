-- ===== src/Db/Migration.antt =====
-- The config table and the migrations of src/db.rs.
mod Script
pub mod Outcome
pub mod Migrated
unfoldable pub use Script.{migration1}
use castella.Prelude.{
  false, ℕ, zero, suc, ◌+◌, [], ◌∷◌, List, Option, none, some, Result, ok, err, map_err, ◌>>=◌,
  Bool, ◌==◌, if◌then◌else◌,
}
use castella.Prelude.Words.{add_u32}
use castella.Text.{Text, split}
use castella.Db.{
  Error, Server, succeed, transaction_begin, transaction_commit, config_table_create, config_get,
  config_set, config_serde, migration, migration_version_invalid,
}
use castella.Db.Rows.{SqlError, JsonError, undefined_table}

-- The database: the table `config`, if it is there, and the rest of it.
pub record Database (S : Type 0) : Type 0 where
  pub config : Option (List (ℕ × Text))
  pub objects : S

-- `DbExecutor`: the database as the open transaction sees it, and the failures of the statements to
-- come; there is none behind the end of the list.
pub record DbExecutor (S : Type 0) : Type 0 where
  pub seen : Database S
  pub faults : List (Option SqlError)

-- `DbConfigKey`, with serde_json's functions: `to_string` at its type `T`, and `from_str` at
-- `Option<T>`, which is the type that `get_config` reads.
pub record DbConfigKey (T : Type 0) : Type 0 where
  pub value : ℕ
  pub to_string : T → Result JsonError Text
  pub from_str : Text → Result JsonError (Option T)

-- What the server does with a statement that is no query of the config table.
pub record Sql (S : Type 0) : Type 0 where
  pub execute : Text → S → Result SqlError S

-- select value from config where key = $1
unfoldable pub select_config : ℕ → List (ℕ × Text) → Option Text
select_config key [] = none
select_config key ((k, v) ∷ rows) = if k == key then some v else select_config key rows

-- insert into config (key, value) values ($1, $2) on conflict (key) do update set value = $2
unfoldable pub upsert_config : ℕ → Text → List (ℕ × Text) → List (ℕ × Text)
upsert_config key value [] = (key, value) ∷ []
upsert_config key value ((k, v) ∷ rows) =
    if k == key then (k, value) ∷ rows else (k, v) ∷ upsert_config key value rows

-- What a stored text is read as.
unfoldable pub parse_config : {T : Type 0} → DbConfigKey T → Option Text → Result Error (Option T)
parse_config key none = ok none
parse_config key (some value) = map_err config_serde (key.from_str value)

module _ {S : Type 0} where
  -- The failure of the next statement.
  unfoldable pub next_fault : DbExecutor S → Option SqlError
  next_fault x = elim x.faults [ [] ↦ none | fault ∷ faults ↦ fault ]

  unfoldable pub later_faults : DbExecutor S → List (Option SqlError)
  later_faults x = elim x.faults [ [] ↦ [] | fault ∷ faults ↦ faults ]

  -- One statement: it fails, or does `f` to the database.
  unfoldable pub issue :
      {A : Type 0}
      → (SqlError → Error)
      → (Database S → Result SqlError (A × Database S))
      → DbExecutor S
      → Result Error (A × DbExecutor S)
  unfolding next_fault later_faults
  issue wrap f x = elim (next_fault x) [
    | some e ↦ err (wrap e)
    | none ↦ elim (f x.seen) [
      | err e ↦ err (wrap e)
      | ok (a, seen) ↦ ok (a, record { seen = seen; faults = later_faults x })
    ]
  ]

  -- create table if not exists config
  abbrev pub create_config : Database S → Result SqlError (Unit {0} × Database S)
  create_config d = elim d.config [
    | none ↦ ok (tt, record d { config = some [] })
    | some rows ↦ ok (tt, d)
  ]

  unfoldable pub ensure_config_table : DbExecutor S → Result Error (Unit {0} × DbExecutor S)
  unfolding issue
  ensure_config_table = issue config_table_create create_config

  abbrev pub read_config : ℕ → Database S → Result SqlError (Option Text × Database S)
  read_config key d = elim d.config [
    | none ↦ err undefined_table
    | some rows ↦ ok (select_config key rows, d)
  ]

  abbrev pub write_config : ℕ → Text → Database S → Result SqlError (Unit {0} × Database S)
  write_config key value d = elim d.config [
    | none ↦ err undefined_table
    | some rows ↦ ok (tt, record d { config = some (upsert_config key value rows) })
  ]

  module _ {T : Type 0} (key : DbConfigKey T) where
    unfoldable pub get_config : DbExecutor S → Result Error (Option T × DbExecutor S)
    unfolding issue parse_config select_config
    get_config x =
        issue config_get (read_config key.value) x >>= λ (r : Option Text × DbExecutor S).
        parse_config key r.0 >>= λ t. ok (t, r.1)

    unfoldable pub set_config : T → DbExecutor S → Result Error (Unit {0} × DbExecutor S)
    unfolding issue upsert_config
    set_config t x = map_err config_serde (key.to_string t) >>= λ value.
        issue config_set (write_config key.value value) x

-- `unwrap_or(0)`
abbrev pub unwrap_or_zero : Option ℕ → ℕ
unwrap_or_zero none = 0
unwrap_or_zero (some n) = n

-- What the loop of `migrate` does at a version.
pub data Next : Type 0 where
  apply : Text → Next
  stop : Next
  invalid : Next

unfoldable pub next_queries : ℕ → Next
next_queries zero = apply migration1
next_queries (suc zero) = stop
next_queries (suc (suc n)) = invalid

module _ {S : Type 0} (sql : Sql S) where
  -- One line of a migration.
  abbrev pub execute_line : Text → Database S → Result SqlError (Unit {0} × Database S)
  execute_line line d =
      sql.execute line d.objects >>= λ objects. ok (tt, record d { objects = objects })

  unfoldable pub run_lines : List Text → DbExecutor S → Result Error (DbExecutor S)
  unfolding issue
  run_lines [] x = ok x
  run_lines (line ∷ lines) x =
      issue migration (execute_line line) x >>= λ (r : Unit {0} × DbExecutor S). run_lines lines r.1

  -- The loop, in so many rounds at most; `none` means that they were not enough.
  unfoldable pub migrate_loop : ℕ → ℕ → DbExecutor S → Option (Result Error (ℕ × DbExecutor S))
  unfolding next_queries run_lines
  migrate_loop zero version x = none
  migrate_loop (suc rounds) version x = elim (next_queries version) [
    | stop ↦ some (ok (version, x))
    | invalid ↦ some (err (migration_version_invalid version))
    | apply queries ↦ elim (run_lines (split b';' queries) x) [
      | err e ↦ some (err e)
      | ok x' ↦ migrate_loop rounds (add_u32 version 1) x'
    ]
  ]

  module _ (key : DbConfigKey ℕ) where
    -- The end of `migrate`: the version that the loop has reached is stored.
    unfoldable pub store_version :
        Option (Result Error (ℕ × DbExecutor S)) → Option (Result Error (DbExecutor S))
    unfolding set_config
    store_version none = none
    store_version (some (err e)) = some (err e)
    store_version (some (ok (version, x))) =
        some (set_config key version x >>= λ (r : Unit {0} × DbExecutor S). ok r.1)

    -- `DbExecutor::migrate`
    unfoldable pub migrate_executor : ℕ → DbExecutor S → Option (Result Error (DbExecutor S))
    unfolding ensure_config_table get_config migrate_loop store_version
    migrate_executor rounds x = elim (ensure_config_table x) [
      | err e ↦ some (err e)
      | ok (u, x') ↦ elim (get_config key x') [
        | err e ↦ some (err e)
        | ok (stored, x'') ↦ store_version (migrate_loop rounds (unwrap_or_zero stored) x'')
      ]
    ]

    -- The commit of `Db::migrate`: without it the database is as it was, unless only its answer was lost.
    unfoldable pub commit_migration :
        Server
        → Database S
        → Option (Result Error (DbExecutor S))
        → Option (Result Error (Unit {0}) × Database S)
    commit_migration server d none = none
    commit_migration server d (some (err e)) = some (err e, d)
    commit_migration server d (some (ok x)) = elim (succeed server.commit transaction_commit) [
      | err e ↦ some (err e, if server.lost then x.seen else d)
      | ok u ↦ some (ok tt, x.seen)
    ]

    -- `Db::migrate`; `faults` are the failures of its statements.
    unfoldable pub migrate :
        ℕ
        → Server
        → List (Option SqlError)
        → Database S
        → Option (Result Error (Unit {0}) × Database S)
    unfolding migrate_executor commit_migration
    migrate rounds server faults d = elim (succeed server.begin transaction_begin) [
      | err e ↦ some (err e, d)
      | ok u ↦
          commit_migration server d (migrate_executor rounds (record { seen = d; faults = faults }))
    ]
