-- ===== src/Tests/MainTests.antt =====
-- A start of the program with builders that are their settings.
use castella.Prelude.{
  ℕ, ◌≡◌, refl, ap, ◌++◌, [], ◌∷◌, Option, none, some, Result, ok, err, true, false, arith, ◌==◌,
  if◌then◌else◌,
}
use castella.Text.{Text, codes, split}
use castella.Http.{HttpConfig, Reqwest, ClientSettings, create_client}
use castella.Db.{migration_version_invalid}
use castella.Db.Migration.{Database, migrate, migration1, parse_config, select_config}
use castella.Main.{AppOptions, ConnectLazy, run, Panic, database_migration, server_bind}
use castella.Main.Started.{IsStart, run-IsStart}
use castella.Store.Operations.Deletion.{healthy}
use castella.Tests.RateLimitTests.{governor, limit}
use castella.Tests.MigrationTests.{log, version_key, version_key_lem, fresh, later}

-- The builder that nothing was set of.
abbrev unset : ClientSettings
unset = record {
  user_agent = none;
  proxies = [];
  gzip = true;
  deflate = true;
  brotli = true;
  https_only = false;
  referer = true;
}

-- A text is an address of a proxy unless it is empty.
abbrev proxy_at : Text → Result ℕ Text
proxy_at [] = err 1
proxy_at (c ∷ url) = ok (c ∷ url)

proxy_at_lem : (url p : Text) → proxy_at url ≡ ok p → p ≡ url
proxy_at_lem [] p h = cc
proxy_at_lem (c ∷ url) p h = cc

build_same : (b c : ClientSettings) → ◌≡◌ {A = Result ℕ ClientSettings} (ok b) (ok c) → c ≡ b
build_same b c h = cc

abbrev reqwest : Reqwest
reqwest = record {
  Builder = ClientSettings;
  Client = ClientSettings;
  Proxy = Text;
  Error = ℕ;
  builder = unset;
  all = proxy_at;
  user_agent = λ b agent. record b { user_agent = some agent };
  proxy = λ b p. record b { proxies = b.proxies ++ p ∷ [] };
  gzip = λ b on. record b { gzip = on };
  deflate = λ b on. record b { deflate = on };
  brotli = λ b on. record b { brotli = on };
  https_only = λ b on. record b { https_only = on };
  referer = λ b on. record b { referer = on };
  build = λ b. ok b;
  settings = λ b. b;
  settings_of = λ c. c;
  builder_lem = refl;
  user_agent_lem = λ b agent. refl;
  proxy_lem = λ b url p h.
      ap (λ (u : Text). record b { proxies = b.proxies ++ u ∷ [] }) (proxy_at_lem url p h);
  gzip_lem = λ b on. refl;
  deflate_lem = λ b on. refl;
  brotli_lem = λ b on. refl;
  https_only_lem = λ b on. refl;
  referer_lem = λ b on. refl;
  build_lem = build_same;
}

abbrev proxied : HttpConfig
proxied = record {
  user_agent = none;
  proxy = some (codes "socks5://proxy");
  compression = false;
  allow_insecure = false;
}

abbrev proxied_client : ClientSettings
proxied_client = record {
  user_agent = some (codes "castella/0.1");
  proxies = codes "socks5://proxy" ∷ [];
  gzip = false;
  deflate = false;
  brotli = false;
  https_only = true;
  referer = false;
}

create_client-proxied : create_client reqwest proxied ≡ ok proxied_client
unfolding create_client
create_client-proxied = refl

abbrev options : AppOptions reqwest governor ℕ
options = record {
  log_level = codes "warn";
  db_connection = codes "postgres";
  client_user_agent = none;
  client_proxy = none;
  client_allow_insecure = false;
  oauth_client_id = codes "id";
  oauth_client_secret = codes "secret";
  oauth_refresh_token = codes "token";
  drive_request_limit = limit;
  drive_upload_limit = limit;
  server_endpoint = 1707;
  server_max_upload_size = 102400;
}

abbrev connect : ConnectLazy Text
connect connections url = ok url

-- Every address but one can be bound.
abbrev free : ℕ → Option ℕ
free n = if n == 80 then some 13 else none

-- The database of a later version is not served.
run-later :
    run reqwest governor {J = ℕ} {A = ℕ} {V = ℕ} connect free log version_key options 2
      (healthy 7)
      []
      later
    ≡ some (err (database_migration (migration_version_invalid 2)), later)
unfolding run create_client migrate parse_config select_config
run-later = refl

abbrev bind_failure :
    {C S : Type 0} → Option (Result (Panic reqwest governor ℕ ℕ ℕ) C × Database S) → Option ℕ
bind_failure (some (err (server_bind e), d)) = some e
bind_failure _ = none

-- The address cannot be bound: the database is migrated all the same.
run-busy :
    bind_failure (
      run reqwest governor {J = ℕ} {A = ℕ} {V = ℕ} connect free log version_key
        (record options { server_endpoint = 80 })
        2
        (healthy 7)
        []
        fresh)
    ≡ some 13
unfolding run create_client migrate split migration1
run-busy = refl

run-IsStart_example :
    IsStart reqwest governor options ℕ ℕ ℕ connect free log version_key fresh
      (run reqwest governor connect free log version_key options 2 (healthy 7) [] fresh)
run-IsStart_example =
    run-IsStart reqwest governor options ℕ ℕ ℕ connect free log version_key version_key_lem 2
      (healthy 7) [] fresh (omega arith) refl
