-- ===== src/Main/Started.antt =====
-- How the program's start ends.
use castella.Prelude.{
  ℕ, ◌*◌, ◌%◌, ◌≤◌, ◌≡◌, refl, sym, ap, ◌∙◌, List, Option, none, some, Result, ok, err, map_err,
  >>=-eq-ok, Bool, true, false, not, arith,
}
use castella.Prelude.Words.{u64_mod}
use castella.Text.{Text}
use castella.Http.{Reqwest, HttpConfig, ClientSettings, create_client}
use castella.Http.Settings.{agent_of, proxies_of, expected_settings, create_client_lem}
use castella.RateLimit.{Governor, RateLimit}
use castella.Stream.Bandwidth
use castella.Auth
use castella.Drive
use castella.Db
use castella.Db.{Server}
use castella.Db.Rows.{SqlError}
use castella.Db.Migration.{Database, DbConfigKey, Sql, migrate}
use castella.Db.Migration.Migrated.{IsMigrated, IsOutcome, migrate-IsOutcome}
use castella.Main.{
  ConnectLazy, new_db, AppOptions, AuthClient, new_auth, DriveClient, new_drive_client,
  ServerConfig, Panic, ClientPanic, before_migration, database_migration, server_bind, oauth_client,
  drive_client, database_client, client_config, server_config, make_clients, run,
}

wrapped_ok : {E F B : Type 0} (f : E → F) (r : Result E B) {b : B} → map_err f r ≡ ok b → r ≡ ok b
wrapped_ok f r h = ground arith

module _ (reqwest : Reqwest) (governor : Governor) where
  auth_ok :
      (http : HttpConfig) (id secret token : Text) (auth : AuthClient reqwest governor)
      → new_auth reqwest governor http id secret token ≡ ok auth
      → (reqwest.settings_of auth.http ≡ expected_settings http) × (auth.auth.cached ≡ none)
  unfolding new_auth Auth.new
  auth_ok http id secret token auth h =
      let (client, made, rest) =
        >>=-eq-ok (map_err Auth.client_init (create_client reqwest http)) _ h in
      let settings = create_client_lem reqwest http client (wrapped_ok Auth.client_init _ made) in
      let same : record { http = client; auth = Auth.new id secret token } ≡ auth = cc in
      (
        ap (λ (a : AuthClient reqwest governor). reqwest.settings_of a.http) (sym same) ∙ settings,
        ap (λ (a : AuthClient reqwest governor). a.auth.cached) (sym same),
      )

  drive_ok :
      {J A : Type 0} (http : HttpConfig) (auth : AuthClient reqwest governor)
      (request_limit upload_limit : RateLimit governor) (drive : DriveClient reqwest governor)
      → new_drive_client reqwest governor {J = J} {A = A} http auth request_limit upload_limit
        ≡ ok drive
      → (client : reqwest.Client) × (reqwest.settings_of client ≡ expected_settings http)
        × (drive ≡ record {
          http = client;
          auth = auth;
          request_limiter = request_limit.quota;
          upload_quota = upload_limit.quota;
          upload_limiter = Bandwidth.new 1048576;
        })
  unfolding new_drive_client
  drive_ok http auth request_limit upload_limit drive h =
      let (client, made, rest) =
        >>=-eq-ok (map_err Drive.client_init (create_client reqwest http)) _ h in
      (client, create_client_lem reqwest http client (wrapped_ok Drive.client_init _ made), cc)

module _ (reqwest : Reqwest) (governor : Governor) {Addr : Type 0}
    (options : AppOptions reqwest governor Addr) where
  -- The settings that the options ask for, with compression or without.
  abbrev pub option_settings : Bool → ClientSettings
  option_settings compression = record {
    user_agent = some (agent_of options.client_user_agent);
    proxies = proxies_of options.client_proxy;
    gzip = compression;
    deflate = compression;
    brotli = compression;
    https_only = not options.client_allow_insecure;
    referer = false;
  }

  -- Both clients have the settings of the options: only that of the authenticator asks for compression.
  pub record HasSettings (drive : DriveClient reqwest governor) : Type 0 where
    pub of_drive : reqwest.settings_of drive.http ≡ option_settings false
    pub of_auth : reqwest.settings_of drive.auth.http ≡ option_settings true

  -- What is served: the clients have their settings, no access token is kept, and the limiters and the
  -- largest upload are those of the options, in MiB.
  pub record IsServed {P : Type 0} (config : ServerConfig reqwest governor P) (endpoint : Addr)
      : Type 0 where
    pub settings : HasSettings config.drive
    pub no_token : config.drive.auth.auth.cached ≡ none
    pub requests : config.drive.request_limiter ≡ options.drive_request_limit.quota
    pub uploads : config.drive.upload_quota ≡ options.drive_upload_limit.quota
    pub unit : config.drive.upload_limiter.unit ≡ 1048576
    pub size : config.max_upload_size ≡ options.server_max_upload_size * 1048576 % u64_mod
    pub address : endpoint ≡ options.server_endpoint

  module _ {P S : Type 0} (J A V : Type 0) (connect_lazy : ConnectLazy P) (bind : Addr → Option V)
      (sql : Sql S) (key : DbConfigKey ℕ) where
    -- What a panic leaves: the database as it was, or, where only the address could not be bound, the
    -- migrated database.
    abbrev pub IsPanic : Panic reqwest governor J A V → Database S → Database S → Type 0
    IsPanic (before_migration e) d d' = d' ≡ d
    IsPanic (database_migration e) d d' = d' ≡ d
    IsPanic (server_bind e) d d' = (bind options.server_endpoint ≡ some e) × IsMigrated sql key d d'

    -- The ways in which a start may end.
    abbrev pub IsStart :
        Database S
        → Option (
            Result (Panic reqwest governor J A V) (ServerConfig reqwest governor P × Addr)
            × Database S)
        → Type 0
    IsStart d none = ⊥
    IsStart d (some (err e, d')) = IsPanic e d d'
    IsStart d (some (ok (config, endpoint), d')) =
        IsServed config endpoint × (bind endpoint ≡ none) × IsMigrated sql key d d'

    clients_ok :
        (clients : P × DriveClient reqwest governor)
        → make_clients reqwest governor options {J = J} {A = A} connect_lazy ≡ ok clients
        → IsServed
            (server_config reqwest governor options clients).0
            (server_config reqwest governor options clients).1
    unfolding make_clients client_config server_config Bandwidth.new
    clients_ok clients h =
        let (auth, a, h1) =
          >>=-eq-ok
            (map_err oauth_client (
              new_auth reqwest governor (client_config reqwest governor options true)
                options.oauth_client_id options.oauth_client_secret options.oauth_refresh_token))
            _ h in
        let (drive, b, h2) =
          >>=-eq-ok
            (map_err drive_client (
              new_drive_client reqwest governor {J = J} {A = A}
                (client_config reqwest governor options false) auth options.drive_request_limit
                options.drive_upload_limit))
            _ h1 in
        let (db, c, h3) =
          >>=-eq-ok (map_err database_client (new_db connect_lazy options.db_connection)) _ h2 in
        let (token_settings, no_token) =
          auth_ok reqwest governor _ _ _ _ auth (wrapped_ok oauth_client _ a) in
        let (client, settings, made) =
          drive_ok reqwest governor _ auth _ _ drive (wrapped_ok drive_client _ b) in
        let same : clients ≡ (db, drive) = cc in
        rw (same, made)
          (record {
            settings = record { of_drive = settings; of_auth = token_settings };
            no_token = no_token;
            requests = refl;
            uploads = refl;
            unit = refl;
            size = omega arith;
            address = refl;
          })

    started :
        (made : Result (ClientPanic reqwest governor J A) (P × DriveClient reqwest governor))
        (migrated : Option (Result Db.Error (Unit {0}) × Database S)) (d : Database S) (rounds : ℕ)
        (server : Server) (faults : List (Option SqlError))
        → make_clients reqwest governor options connect_lazy ≡ made
        → migrate sql key rounds server faults d ≡ migrated
        → IsOutcome sql key d migrated
        → IsStart d (
            run reqwest governor {J = J} {A = A} connect_lazy bind sql key options rounds server
              faults d)
    unfolding run server_config
    started (err e) migrated d rounds server faults h m done = rw (h, run) refl
    started (ok clients) none d rounds server faults h m done = absurd done
    started (ok clients) (some (err e, d')) d rounds server faults h m done = rw (h, m, run) done
    started (ok clients) (some (ok u, d')) d rounds server faults h m done =
        bound_at (bind options.server_endpoint) refl
      where
        bound_at :
            (b : Option V)
            → bind options.server_endpoint ≡ b
            → IsStart d (
                run reqwest governor {J = J} {A = A} connect_lazy bind sql key options rounds server
                  faults d)
        bound_at none e = rw (h, m, e, run) (clients_ok clients h, e, done)
        bound_at (some x) e = rw (h, m, e, run) (e, done)

    -- Where a printed version is read back, a commit that fails is rolled back, its answer not being lost
    -- with the connection, and with two rounds of the migration's loop at least: the start ends. If it panics because a client or the pool cannot be made, or the migration fails, the
    -- database is as it was; if it panics because the address cannot be bound, the database is migrated.
    -- If it serves, the address could be bound, the database is migrated, both clients have the settings
    -- of the options, with compression for the authenticator only, no access token is kept, the limits
    -- are those of the options, the address is theirs, and the largest upload is theirs in MiB, modulo
    -- 2^64.
    pub run-IsStart :
        (law : (n : ℕ) (text : Text) → key.to_string n ≡ ok text → key.from_str text ≡ ok (some n))
        (rounds : ℕ) (server : Server) (faults : List (Option SqlError)) (d : Database S)
        → 2 ≤ rounds
        → server.lost ≡ false
        → IsStart d (
            run reqwest governor {J = J} {A = A} connect_lazy bind sql key options rounds server
              faults d)
    run-IsStart law rounds server faults d enough kept =
        started _ _ d rounds server faults refl refl
          (migrate-IsOutcome sql key law rounds server faults d enough kept)
