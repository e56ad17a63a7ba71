-- ===== src/Db/Migration/Migrated.antt =====
-- `Db::migrate` as a whole: it ends, it is all or nothing, and it does exactly what was due.
use castella.Prelude.{
  false, if◌then◌else◌, ℕ, zero, suc, ◌≤◌, ◌≡◌, ◌≢◌, refl, sym, ap, ◌∙◌, [], List, Option, none,
  some, Result, ok, err, ◌>>=◌, >>=-eq-ok, arith,
}
use castella.Text.{Text}
use castella.Db.{
  Error, Server, transaction_begin, transaction_commit, succeed, migration_version_invalid,
}
use castella.Db.Rows.{SqlError}
use castella.Db.Migration.{
  Database, DbExecutor, DbConfigKey, Sql, parse_config, select_config, ensure_config_table,
  get_config, set_config, migrate_loop, unwrap_or_zero, next_queries, issue, next_fault,
  later_faults, store_version, migrate_executor, commit_migration, migrate,
}
use castella.Db.Migration.Outcome.{rows_of, version_of, due, ensure_ok, get_ok, set_ok, loop_ok}

module _ {S : Type 0} (sql : Sql S) (key : DbConfigKey ℕ) where
  -- What a run from `x` to `y` has done.
  pub record IsMigrated (d d' : Database S) : Type 0 where
    pub stored : ℕ
    pub version : version_of key d ≡ ok stored
    pub known : stored ≤ 1
    pub applied : due sql stored d.objects ≡ ok d'.objects
    pub recorded : version_of key d' ≡ ok 1

  store_ok :
      (looped : Option (Result Error (ℕ × DbExecutor S))) {y : DbExecutor S}
      → store_version sql key looped ≡ some (ok y)
      → (version : ℕ) × (z : DbExecutor S) × (looped ≡ some (ok (version, z)))
        × ((set_config key version z >>= λ (r : Unit {0} × DbExecutor S). ok r.1) ≡ ok y)
  unfolding store_version
  store_ok none h = cc
  store_ok (some (err e)) h = cc
  store_ok (some (ok (version, z))) h = (version, z, refl, cc)

  failed : {A : Type 0} {e : Error} {a : A} → some (err e) ≡ some (ok a) → ⊥
  failed h = cc

  module _
      (law : (n : ℕ) (text : Text) → key.to_string n ≡ ok text → key.from_str text ≡ ok (some n))
      (rounds : ℕ) (x : DbExecutor S) where
    stored_ok :
        (x' x'' y : DbExecutor S) (stored : Option ℕ) {u : Unit {0}}
        → ensure_config_table x ≡ ok (u, x')
        → get_config key x' ≡ ok (stored, x'')
        → store_version sql key (migrate_loop sql rounds (unwrap_or_zero stored) x'') ≡ some (ok y)
        → IsMigrated x.seen y.seen
    stored_ok x' x'' y stored m e h =
        let (objects, config) = ensure_ok x m in
        let (parsed, same) = get_ok key x' (rows_of x.seen.config) config e in
        let (version, z, looped, wrote) = store_ok _ h in
        let (known, one, applied, kept) = loop_ok sql rounds (unwrap_or_zero stored) x'' looped in
        let ((u, y'), set, last) = >>=-eq-ok (set_config key version z) _ wrote in
        let (recorded, left) =
          set_ok key version z (rows_of x.seen.config) law
            (kept ∙ ap (λ (d : Database S). d.config) same ∙ config) set in
        let end : y' ≡ y = cc in
        record {
          stored = unwrap_or_zero stored;
          version = rw parsed refl;
          known = known;
          applied =
              ap (due sql (unwrap_or_zero stored))
                (sym (ap (λ (d : Database S). d.objects) same ∙ objects))
              ∙ applied
              ∙ ap ok (sym left ∙ ap (λ (v : DbExecutor S). v.seen.objects) end);
          recorded =
              sym (ap (λ (v : DbExecutor S). version_of key v.seen) end) ∙ recorded ∙ ap ok one;
        }

    read_at :
        (x' : DbExecutor S) (read : Result Error (Option ℕ × DbExecutor S)) {u : Unit {0}}
        {y : DbExecutor S}
        → ensure_config_table x ≡ ok (u, x')
        → get_config key x' ≡ read
        → migrate_executor sql key rounds x ≡ some (ok y)
        → IsMigrated x.seen y.seen
    unfolding migrate_executor
    read_at x' (err e) m g = rw (m, g, migrate_executor) (λ h. absurd (failed h))
    read_at x' (ok (stored, x'')) {y = y} m g =
        rw (m, g, migrate_executor) (λ h. stored_ok x' x'' y stored m g h)

    made_at :
        (made : Result Error (Unit {0} × DbExecutor S)) {y : DbExecutor S}
        → ensure_config_table x ≡ made
        → migrate_executor sql key rounds x ≡ some (ok y)
        → IsMigrated x.seen y.seen
    unfolding migrate_executor
    made_at (err e) m = rw (m, migrate_executor) (λ h. absurd (failed h))
    made_at (ok (u, x')) m = read_at x' _ m refl

    executor_ok :
        {y : DbExecutor S}
        → migrate_executor sql key rounds x ≡ some (ok y)
        → IsMigrated x.seen y.seen
    executor_ok h = made_at _ refl h

  loop-ne-none :
      (rounds stored : ℕ) (x : DbExecutor S) → 2 ≤ rounds → migrate_loop sql rounds stored x ≢ none
  unfolding migrate_loop next_queries
  loop-ne-none zero stored x h = absurd (omega arith)
  loop-ne-none (suc zero) stored x h = absurd (omega arith)
  loop-ne-none (suc (suc rounds)) zero x h = ground arith
  loop-ne-none (suc (suc rounds)) (suc zero) x h = ground arith
  loop-ne-none (suc (suc rounds)) (suc (suc stored)) x h = ground arith

  store-ne-none :
      (looped : Option (Result Error (ℕ × DbExecutor S)))
      → looped ≢ none
      → store_version sql key looped ≢ none
  unfolding store_version
  store-ne-none none h = absurd (h refl)
  store-ne-none (some (err e)) h = ground arith
  store-ne-none (some (ok (version, x))) h = ground arith

  executor-ne-none :
      (rounds : ℕ) (x : DbExecutor S) → 2 ≤ rounds → migrate_executor sql key rounds x ≢ none
  unfolding migrate_executor
  executor-ne-none rounds x h = grind (arith, store-ne-none, loop-ne-none)

  -- The ways in which a migration may end.
  abbrev pub IsOutcome : Database S → Option (Result Error (Unit {0}) × Database S) → Type 0
  IsOutcome d none = ⊥
  IsOutcome d (some (err e, d')) = d' ≡ d
  IsOutcome d (some (ok u, d')) = IsMigrated d d'

  commit-IsOutcome :
      (server : Server) (d : Database S) (ran : Option (Result Error (DbExecutor S)))
      → ran ≢ none
      → ((y : DbExecutor S) → ran ≡ some (ok y) → IsMigrated d y.seen)
      → server.lost ≡ false
      → IsOutcome d (commit_migration sql key server d ran)
  unfolding commit_migration
  commit-IsOutcome server d none h done kept = absurd (h refl)
  commit-IsOutcome server d (some (err e)) h done kept = refl
  commit-IsOutcome server d (some (ok y)) h done kept = committed server.commit
    where
      committed :
          (c : Option SqlError)
          → IsOutcome d (elim (succeed c transaction_commit) [
            | err e ↦ some (err e, if server.lost then y.seen else d)
            | ok u ↦ some (ok tt, y.seen)
          ])
      committed none = done y refl
      committed (some e) = rw kept refl

  -- Where a printed version is read back, and a commit that fails is rolled back, its answer not being
  -- lost with the connection, two rounds of the loop are enough: the migration ends. If it fails, the database is as it was. If it succeeds, the stored version was 0, 1 or absent, exactly the
  -- lines that were due at it have been run, in order (all of them at 0, none at 1), and the version that
  -- is stored is 1.
  pub migrate-IsOutcome :
      (law : (n : ℕ) (text : Text) → key.to_string n ≡ ok text → key.from_str text ≡ ok (some n))
      (rounds : ℕ) (server : Server) (faults : List (Option SqlError)) (d : Database S)
      → 2 ≤ rounds
      → server.lost ≡ false
      → IsOutcome d (migrate sql key rounds server faults d)
  unfolding migrate
  migrate-IsOutcome law rounds server faults d enough kept =
      let x : DbExecutor S = record { seen = d; faults = faults } in
      begun server.begin _ (
        commit-IsOutcome server d (migrate_executor sql key rounds x)
          (executor-ne-none rounds x enough) (λ y h. executor_ok law rounds x h) kept)
    where
      begun :
          (b : Option SqlError) (r : Option (Result Error (Unit {0}) × Database S))
          → IsOutcome d r
          → IsOutcome d (elim (succeed b transaction_begin) [ err e ↦ some (err e, d) | ok u ↦ r ])
      begun none r h = h
      begun (some e) r h = refl

  zero_or_suc : (m : ℕ) → ◌≡◌ {A = Result Error ℕ} (ok 0) (ok (suc m)) → ⊥
  zero_or_suc m p = ground arith

  parse_some :
      (read : Result Error (Option ℕ)) (n : ℕ)
      → (read >>= λ stored. ok (unwrap_or_zero stored)) ≡ ok (suc n)
      → read ≡ ok (some (suc n))
  parse_some (err e) n h = cc
  parse_some (ok none) n h = absurd (zero_or_suc n h)
  parse_some (ok (some m)) n h = ground arith

  get_later :
      (n : ℕ) (rows : List (ℕ × Text)) (objects : S)
      → parse_config key (select_config key.value rows) ≡ ok (some n)
      → (x : DbExecutor S)
      → x ≡ record { seen = record { config = some rows; objects = objects }; faults = [] }
      → get_config key x ≡ ok (some n, x)
  unfolding get_config issue next_fault later_faults
  get_later n rows objects parsed x same = rw (same, parsed) refl

  executor_at :
      (rounds : ℕ) (x x' x'' : DbExecutor S) (stored : Option ℕ) {u : Unit {0}}
      → ensure_config_table x ≡ ok (u, x')
      → get_config key x' ≡ ok (stored, x'')
      → migrate_executor sql key rounds x
        ≡ store_version sql key (migrate_loop sql rounds (unwrap_or_zero stored) x'')
  unfolding migrate_executor
  executor_at rounds x x' x'' stored m g = rw (m, g, migrate_executor) refl

  executor_later :
      (rounds n : ℕ) (rows : List (ℕ × Text)) (objects : S) (d : Database S)
      → d ≡ record { config = some rows; objects = objects }
      → version_of key d ≡ ok (suc (suc n))
      → migrate_executor sql key (suc rounds) (record { seen = d; faults = [] })
        ≡ some (err (migration_version_invalid (suc (suc n))))
  unfolding ensure_config_table issue next_fault later_faults migrate_loop next_queries
      store_version
  executor_later rounds n rows objects d same version =
      let parsed =
        parse_some (parse_config key (select_config key.value rows)) (suc n)
          (ap (version_of key) (sym same) ∙ version) in
      let x : DbExecutor S = record {
        seen = record { config = some rows; objects = objects };
        faults = [];
      } in
      let got = get_later (suc (suc n)) rows objects parsed x refl in
      rw same (executor_at (suc rounds) x x x (some (suc (suc n))) {u = tt} refl got)

  -- Where no statement and no begin fails, a database whose stored version is 2 or later is refused: the
  -- migration is an error that names that version, and the database is as it was.
  pub migrate_later :
      (rounds n : ℕ) (server : Server) (rows : List (ℕ × Text)) (objects : S) (d : Database S)
      → d ≡ record { config = some rows; objects = objects }
      → server.begin ≡ none
      → version_of key d ≡ ok (suc (suc n))
      → migrate sql key (suc rounds) server [] d
        ≡ some (err (migration_version_invalid (suc (suc n))), d)
  unfolding migrate commit_migration
  migrate_later rounds n server rows objects d same begin version =
      rw (begin, executor_later rounds n rows objects d same version) refl
