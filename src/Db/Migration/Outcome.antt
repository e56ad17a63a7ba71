-- ===== src/Db/Migration/Outcome.antt =====
-- What a migration leaves: the statements that were due are done, once, or nothing is.
use castella.Prelude.{
  ℕ, zero, suc, ◌≤◌, ◌≡◌, refl, sym, ap, ◌∙◌, [], ◌∷◌, List, Option, none, some, Result, ok, err,
  map_err, ◌>>=◌, >>=-eq-ok, arith,
}
use castella.Text.{Text, split}
use castella.Db.{Error, config_table_create, config_get, config_set, config_serde, migration}
use castella.Db.Rows.{SqlError}
use castella.Db.Migration.{
  Database, DbExecutor, DbConfigKey, Sql, migration1, select_config, upsert_config, parse_config,
  issue, create_config, ensure_config_table, read_config, write_config, get_config, set_config,
  execute_line, run_lines, migrate_loop, unwrap_or_zero,
}

-- The rows of the config table, which is empty where it is not there yet.
abbrev pub rows_of : Option (List (ℕ × Text)) → List (ℕ × Text)
rows_of none = []
rows_of (some rows) = rows

select_config-upsert_config :
    (key : ℕ) (value : Text) (rows : List (ℕ × Text))
    → select_config key (upsert_config key value rows) ≡ some value
unfolding select_config upsert_config
select_config-upsert_config key value [] = ground arith
select_config-upsert_config key value ((k, v) ∷ rows) =
    ground (arith, select_config-upsert_config key value rows)

module _ {S : Type 0} where
  issue_ok :
      {A : Type 0} (wrap : SqlError → Error) (f : Database S → Result SqlError (A × Database S))
      (x : DbExecutor S) {a : A} {y : DbExecutor S}
      → issue wrap f x ≡ ok (a, y)
      → f x.seen ≡ ok (a, y.seen)
  unfolding issue
  issue_ok wrap f x h = ground arith

  -- The version of a database, which is 0 where none is stored.
  abbrev pub version_of : DbConfigKey ℕ → Database S → Result Error ℕ
  version_of key d = parse_config key (select_config key.value (rows_of d.config)) >>= λ stored.
      ok (unwrap_or_zero stored)

  pub ensure_ok :
      (x : DbExecutor S) {u : Unit {0}} {y : DbExecutor S}
      → ensure_config_table x ≡ ok (u, y)
      → (y.seen.objects ≡ x.seen.objects) × (y.seen.config ≡ some (rows_of x.seen.config))
  unfolding ensure_config_table
  ensure_ok x h = let made = issue_ok config_table_create create_config x h in ground arith

  get_tail :
      (key : DbConfigKey ℕ) (value : Option Text) (x : DbExecutor S) {stored : Option ℕ}
      {y : DbExecutor S}
      → ◌>>=◌ {B = Option ℕ × DbExecutor S} (parse_config key value) (λ t. ok (t, x))
        ≡ ok (stored, y)
      → (parse_config key value ≡ ok stored) × (x ≡ y)
  get_tail key value x h = ground arith

  read_lem :
      (n : ℕ) (d : Database S) (rows : List (ℕ × Text)) {value : Option Text} {d' : Database S}
      → d.config ≡ some rows
      → read_config n d ≡ ok (value, d')
      → (value ≡ select_config n rows) × (d' ≡ d)
  read_lem n d rows there h = ground arith

  pub get_ok :
      (key : DbConfigKey ℕ) (x : DbExecutor S) (rows : List (ℕ × Text)) {stored : Option ℕ}
      {y : DbExecutor S}
      → x.seen.config ≡ some rows
      → get_config key x ≡ ok (stored, y)
      → (parse_config key (select_config key.value rows) ≡ ok stored) × (y.seen ≡ x.seen)
  unfolding get_config
  get_ok key x rows there h =
      let ((value, x'), read, rest) = >>=-eq-ok (issue config_get (read_config key.value) x) _ h in
      let (parsed, same) = get_tail key value x' rest in
      let (found, kept) =
        read_lem key.value x.seen rows there (issue_ok config_get (read_config key.value) x read) in
      (
        ap (parse_config key) (sym found) ∙ parsed,
        ap (λ (z : DbExecutor S). z.seen) (sym same) ∙ kept,
      )

  write_lem :
      (n : ℕ) (value : Text) (d d' : Database S) (rows : List (ℕ × Text)) {u : Unit {0}}
      → d.config ≡ some rows
      → write_config n value d ≡ ok (u, d')
      → (d'.config ≡ some (upsert_config n value rows)) × (d'.objects ≡ d.objects)
  write_lem n value d d' rows there h = ground arith

  -- The stored value is read back.
  pub set_ok :
      (key : DbConfigKey ℕ) (version : ℕ) (x : DbExecutor S) (rows : List (ℕ × Text)) {u : Unit {0}}
      {y : DbExecutor S}
      → ((n : ℕ) (text : Text) → key.to_string n ≡ ok text → key.from_str text ≡ ok (some n))
      → x.seen.config ≡ some rows
      → set_config key version x ≡ ok (u, y)
      → (version_of key y.seen ≡ ok version) × (y.seen.objects ≡ x.seen.objects)
  unfolding set_config
  set_ok key version x rows law there h =
      let (value, printed, wrote) = >>=-eq-ok (map_err config_serde (key.to_string version)) _ h in
      let (config, objects) =
        write_lem key.value value x.seen _ rows there
          (issue_ok config_set (write_config key.value value) x wrote) in
      (
        rw config (
            rw select_config-upsert_config
              (unfold parse_config in rw (law version value (plain printed)) refl)),
        objects,
      )
    where
      plain :
          {value : Text}
          → map_err config_serde (key.to_string version) ≡ ok value
          → key.to_string version ≡ ok value
      plain p = ground arith

module _ {S : Type 0} (sql : Sql S) where
  -- The lines one after the other, by themselves.
  unfoldable pub apply_lines : List Text → S → Result SqlError S
  apply_lines [] objects = ok objects
  apply_lines (line ∷ lines) objects = sql.execute line objects >>= apply_lines lines

  -- The lines that are due at a version.
  unfoldable pub due : ℕ → S → Result SqlError S
  unfolding apply_lines
  due zero objects = apply_lines (split b';' migration1) objects
  due (suc n) objects = ok objects

  line_ok :
      (line : Text) (d d' : Database S) {u : Unit {0}}
      → execute_line sql line d ≡ ok (u, d')
      → (sql.execute line d.objects ≡ ok d'.objects) × (d'.config ≡ d.config)
  line_ok line d d' h = ground arith

  run_lines_ok :
      (lines : List Text) (x : DbExecutor S) {y : DbExecutor S}
      → run_lines sql lines x ≡ ok y
      → (apply_lines lines x.seen.objects ≡ ok y.seen.objects) × (y.seen.config ≡ x.seen.config)
  unfolding run_lines apply_lines
  run_lines_ok [] x h = ground arith
  run_lines_ok (line ∷ lines) x h =
      let ((u, x'), ran, rest) = >>=-eq-ok (issue migration (execute_line sql line) x) _ h in
      let (this, config) =
        line_ok line x.seen x'.seen (issue_ok migration (execute_line sql line) x ran) in
      let (others, kept) = run_lines_ok lines x' rest in (rw this others, kept ∙ config)

  loop_stop :
      (rounds : ℕ) (x : DbExecutor S) {version : ℕ} {y : DbExecutor S}
      → migrate_loop sql rounds 1 x ≡ some (ok (version, y))
      → (version ≡ 1) × (y ≡ x)
  unfolding migrate_loop
  loop_stop zero x h = cc
  loop_stop (suc rounds) x h = ground arith

  loop_apply :
      (rounds : ℕ) (x : DbExecutor S) (ran : Result Error (DbExecutor S)) {version : ℕ}
      {y : DbExecutor S}
      → run_lines sql (split b';' migration1) x ≡ ran
      → migrate_loop sql (suc rounds) 0 x ≡ some (ok (version, y))
      → (version ≡ 1) × (due 0 x.seen.objects ≡ ok y.seen.objects) × (y.seen.config ≡ x.seen.config)
  unfolding migrate_loop due
  loop_apply rounds x (err e) ran = rw (ran, migrate_loop) (λ h. absurd (some_err_ne h))
    where
      some_err_ne : {A : Type 0} {e : Error} {a : A} → some (err e) ≡ some (ok a) → ⊥
      some_err_ne h = cc
  loop_apply rounds x (ok x') ran =
      rw (ran, migrate_loop)
        (λ h.
          let (one, same) = loop_stop rounds x' h in
          let (applied, config) = run_lines_ok (split b';' migration1) x ran in
          (one, rw same applied, rw same config))

  pub loop_ok :
      (rounds stored : ℕ) (x : DbExecutor S) {version : ℕ} {y : DbExecutor S}
      → migrate_loop sql rounds stored x ≡ some (ok (version, y))
      → (stored ≤ 1)
        × (version ≡ 1)
        × (due stored x.seen.objects ≡ ok y.seen.objects)
        × (y.seen.config ≡ x.seen.config)
  unfolding migrate_loop due
  loop_ok zero stored x h = cc
  loop_ok (suc rounds) zero x h =
      let (one, applied, config) = loop_apply rounds x _ refl h in
      (omega arith, one, applied, config)
  loop_ok (suc rounds) (suc zero) x h =
      let (one, same) = loop_stop (suc rounds) x h in (omega arith, one, rw same refl, rw same refl)
  loop_ok (suc rounds) (suc (suc stored)) x h = cc
