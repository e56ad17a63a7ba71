-- ===== src/Tests/MigrationTests.antt =====
-- Migrations of a small database, whose statements are recorded as they are run.
use castella.Prelude.{
  ℕ, suc, ◌≡◌, refl, [], ◌∷◌, List, Option, none, some, Result, ok, err, ◌++◌, arith,
}
use castella.Text.{Text, split}
use castella.Db.{Error, migration, migration_version_invalid}
use castella.Db.Rows.{JsonError, json, connection}
use castella.Db.Migration.{
  Database, DbConfigKey, Sql, migration1, migrate, parse_config, select_config,
}
use castella.Db.Migration.Migrated.{IsOutcome, migrate-IsOutcome, migrate_later}
use castella.Store.Operations.Deletion.{healthy}

-- Every statement is appended to the log.
abbrev pub log : Sql (List Text)
log = record { execute = λ line objects. ok (objects ++ (line ∷ [])) }

-- A number is printed as one character.
abbrev from_char : Text → Result JsonError (Option ℕ)
from_char [] = err (json 0)
from_char (c ∷ text) = ok (some c)

abbrev pub version_key : DbConfigKey ℕ
version_key = record { value = 1; to_string = λ n. ok (n ∷ []); from_str = from_char }

pub version_key_lem :
    (n : ℕ) (text : Text)
    → version_key.to_string n ≡ ok text
    → version_key.from_str text ≡ ok (some n)
version_key_lem n [] h = cc
version_key_lem n (c ∷ text) h = ground arith

abbrev pub fresh : Database (List Text)
fresh = record { config = none; objects = [] }

abbrev pub later : Database (List Text)
later = record { config = some ((1, 2 ∷ []) ∷ []); objects = [] }

abbrev pieces : List Text → ℕ
pieces [] = 0
pieces (text ∷ texts) = suc (pieces texts)

-- The script has ten statements, and a blank one at its end.
abbrev statements : Option (Result Error (Unit {0}) × Database (List Text)) → ℕ
statements none = 0
statements (some r) = pieces r.1.objects

migrate_fresh : statements (migrate log version_key 2 (healthy 7) [] fresh) ≡ 11
unfolding migrate split migration1
migrate_fresh = refl

-- The fourth statement of the transaction fails.
migrate_failed :
    migrate log version_key 2 (healthy 7) (none ∷ none ∷ none ∷ some (connection 1) ∷ []) fresh
    ≡ some (err (migration (connection 1)), fresh)
unfolding migrate split migration1
migrate_failed = refl

migrate-IsOutcome_example :
    IsOutcome log version_key fresh (migrate log version_key 2 (healthy 7) [] fresh)
migrate-IsOutcome_example =
    migrate-IsOutcome log version_key version_key_lem 2 (healthy 7) [] fresh (omega arith) refl

migrate_later_example :
    migrate log version_key 2 (healthy 7) [] later ≡ some (err (migration_version_invalid 2), later)
unfolding parse_config select_config
migrate_later_example =
    migrate_later log version_key 1 0 (healthy 7) ((1, 2 ∷ []) ∷ []) [] later refl refl refl
