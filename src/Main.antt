-- ===== src/Main.antt =====
-- src/main.rs: the options of the command line, and how the program starts. The constructors that only
-- the start uses stand here too: `Authenticator::new`, `Drive::new`, `Db::new` and `Store::new`.
pub mod Started
use castella.Prelude.{
  ℕ, ◌*◌, List, Option, none, some, Result, ok, err, map_err, ◌>>=◌, Bool, true, false,
}
use castella.Prelude.Words.{mul_u64}
use castella.Text.{Text}
use castella.Http.{HttpConfig, Reqwest, create_client}
use castella.RateLimit.{Governor, RateLimit}
use castella.Auth
use castella.Auth.{Authenticator}
use castella.Drive
use castella.Stream.Bandwidth
use castella.Stream.Bandwidth.{BandwidthLimiter}
use castella.Db
use castella.Db.{Server, pool_init}
use castella.Db.Rows.{SqlError}
use castella.Db.Migration.{Database, DbConfigKey, Sql, migrate}

-- sqlx: a pool that connects at its first use, with so many connections at most.
abbrev pub ConnectLazy : Type 0 → Type 0
ConnectLazy P = ℕ → Text → Result SqlError P

-- `Db::new`
unfoldable pub new_db : {P : Type 0} → ConnectLazy P → Text → Result Db.Error P
new_db connect_lazy connection = map_err pool_init (connect_lazy 10 connection)

module _ (reqwest : Reqwest) (governor : Governor) where
  -- `AppOptions`, with a local socket address of any type.
  pub record AppOptions (Addr : Type 0) : Type 0 where
    pub log_level : Text
    pub db_connection : Text
    pub client_user_agent : Option Text
    pub client_proxy : Option Text
    pub client_allow_insecure : Bool
    pub oauth_client_id : Text
    pub oauth_client_secret : Text
    pub oauth_refresh_token : Text
    pub drive_request_limit : RateLimit governor
    pub drive_upload_limit : RateLimit governor
    pub server_endpoint : Addr
    pub server_max_upload_size : ℕ

  -- An `Authenticator` with its client.
  pub record AuthClient : Type 0 where
    pub http : reqwest.Client
    pub auth : Authenticator

  -- `Authenticator::new`
  unfoldable pub new_auth :
      HttpConfig → Text → Text → Text → Result (Auth.Error reqwest.Error) AuthClient
  new_auth http client_id client_secret refresh_token =
      map_err Auth.client_init (create_client reqwest http) >>= λ http.
      ok (record { http = http; auth = Auth.new client_id client_secret refresh_token })

  -- `Drive`. A limiter of governor is given by its quota, and the bandwidth limiter by its unit and state
  -- besides.
  pub record DriveClient : Type 0 where
    pub http : reqwest.Client
    pub auth : AuthClient
    pub request_limiter : governor.Quota
    pub upload_quota : governor.Quota
    pub upload_limiter : BandwidthLimiter

  -- `Drive::new`
  unfoldable pub new_drive_client :
      {J A : Type 0}
      → HttpConfig
      → AuthClient
      → RateLimit governor
      → RateLimit governor
      → Result (Drive.Error reqwest.Error J A) DriveClient
  new_drive_client http auth request_limit upload_limit =
      map_err Drive.client_init (create_client reqwest http) >>= λ http. ok (record {
        http = http;
        auth = auth;
        request_limiter = request_limit.quota;
        upload_quota = upload_limit.quota;
        upload_limiter = Bandwidth.new (1024 * 1024);
      })

  -- `ServerConfig` with the `Store` in it.
  pub record ServerConfig (P : Type 0) : Type 0 where
    pub db : P
    pub drive : DriveClient
    pub max_upload_size : ℕ

  -- The calls of `expect` in `run` before the migration.
  pub data ClientPanic (J A : Type 0) : Type 0 where
    oauth_client : Auth.Error reqwest.Error → ClientPanic J A
    drive_client : Drive.Error reqwest.Error J A → ClientPanic J A
    database_client : Db.Error → ClientPanic J A

  -- The panics of `run`: its calls of `expect`, and that of warp where the address cannot be bound.
  pub data Panic (J A V : Type 0) : Type 0 where
    before_migration : ClientPanic J A → Panic J A V
    database_migration : Db.Error → Panic J A V
    server_bind : V → Panic J A V

  module _ {Addr : Type 0} (options : AppOptions Addr) where
    -- The configuration of both clients but for the compression.
    unfoldable pub client_config : Bool → HttpConfig
    client_config compression = record {
      user_agent = options.client_user_agent;
      proxy = options.client_proxy;
      compression = compression;
      allow_insecure = options.client_allow_insecure;
    }

    -- What the server is started with. The size is in MiB, and wraps around.
    unfoldable pub server_config : {P : Type 0} → P × DriveClient → ServerConfig P × Addr
    server_config (db, drive) = (
      record {
        db = db;
        drive = drive;
        max_upload_size = mul_u64 (mul_u64 options.server_max_upload_size 1024) 1024;
      },
      options.server_endpoint,
    )

    -- What `run` makes before it uses the database.
    unfoldable pub make_clients :
        {P J A : Type 0} → ConnectLazy P → Result (ClientPanic J A) (P × DriveClient)
    unfolding new_auth new_drive_client new_db client_config
    make_clients connect_lazy =
        map_err oauth_client (
          new_auth (client_config true) options.oauth_client_id options.oauth_client_secret
            options.oauth_refresh_token)
        >>= λ auth.
            map_err drive_client (
              new_drive_client (client_config false) auth options.drive_request_limit
                options.drive_upload_limit)
            >>= λ drive.
                map_err database_client (new_db connect_lazy options.db_connection) >>= λ db.
                ok (db, drive)

  module _ {Addr P S J A V : Type 0} (connect_lazy : ConnectLazy P) (bind : Addr → Option V)
      (sql : Sql S) (key : DbConfigKey ℕ) (options : AppOptions Addr) where
    -- `AppOptions::run`: what is served at which address, or the panic, and the database behind it.
    -- `rounds` and `faults` are those of `migrate`; `bind` is the failure of warp to bind an address.
    unfoldable pub run :
        ℕ
        → Server
        → List (Option SqlError)
        → Database S
        → Option (Result (Panic J A V) (ServerConfig P × Addr) × Database S)
    unfolding make_clients migrate server_config
    run rounds server faults d = elim (make_clients options connect_lazy) [
      | err e ↦ some (err (before_migration e), d)
      | ok clients ↦ elim (migrate sql key rounds server faults d) [
        | none ↦ none
        | some (err e, d') ↦ some (err (database_migration e), d')
        | some (ok u, d') ↦ elim (bind options.server_endpoint) [
          | some e ↦ some (err (server_bind e), d')
          | none ↦ some (ok (server_config options clients), d')
        ]
      ]
    ]
