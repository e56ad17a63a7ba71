-- ===== src/Http.antt =====
-- src/http.rs: the configuration of the program's HTTP clients.
pub mod Settings
use castella.Prelude.{
  ◌≡◌, [], ◌∷◌, ◌++◌, List, Option, none, some, Result, ok, err, ◌>>=◌, Bool, true, false, not,
}
use castella.Text.{Text, codes}

-- `HttpConfig`
pub record HttpConfig : Type 0 where
  pub user_agent : Option Text
  pub proxy : Option Text
  pub compression : Bool
  pub allow_insecure : Bool

-- `HttpConfig::default`
abbrev pub default_config : HttpConfig
default_config = record {
  user_agent = none;
  proxy = none;
  compression = true;
  allow_insecure = false;
}

-- What a client of reqwest was built with.
pub record ClientSettings : Type 0 where
  pub user_agent : Option Text
  pub proxies : List Text
  pub gzip : Bool
  pub deflate : Bool
  pub brotli : Bool
  pub https_only : Bool
  pub referer : Bool

-- reqwest: `ClientBuilder`, `Client` and `Proxy`. Each method of the builder sets one of the settings.
pub record Reqwest : Type 1 where
  pub Builder : Type 0
  pub Client : Type 0
  pub Proxy : Type 0
  pub Error : Type 0
  pub builder : Builder
  pub all : Text → Result Error Proxy
  pub user_agent : Builder → Text → Builder
  pub proxy : Builder → Proxy → Builder
  pub gzip : Builder → Bool → Builder
  pub deflate : Builder → Bool → Builder
  pub brotli : Builder → Bool → Builder
  pub https_only : Builder → Bool → Builder
  pub referer : Builder → Bool → Builder
  pub build : Builder → Result Error Client
  pub settings : Builder → ClientSettings
  pub settings_of : Client → ClientSettings
  pub builder_lem : (settings builder).proxies ≡ []
  pub user_agent_lem :
      (b : Builder) (agent : Text)
      → settings (user_agent b agent) ≡ record (settings b) { user_agent = some agent }
  pub proxy_lem :
      (b : Builder) (url : Text) (p : Proxy)
      → all url ≡ ok p
      → settings (proxy b p) ≡ record (settings b) { proxies = (settings b).proxies ++ url ∷ [] }
  pub gzip_lem :
      (b : Builder) (on : Bool) → settings (gzip b on) ≡ record (settings b) { gzip = on }
  pub deflate_lem :
      (b : Builder) (on : Bool) → settings (deflate b on) ≡ record (settings b) { deflate = on }
  pub brotli_lem :
      (b : Builder) (on : Bool) → settings (brotli b on) ≡ record (settings b) { brotli = on }
  pub https_only_lem :
      (b : Builder) (on : Bool)
      → settings (https_only b on) ≡ record (settings b) { https_only = on }
  pub referer_lem :
      (b : Builder) (on : Bool) → settings (referer b on) ≡ record (settings b) { referer = on }
  pub build_lem : (b : Builder) (c : Client) → build b ≡ ok c → settings_of c ≡ settings b

-- The package's name and version, of Cargo.toml.
abbrev pub package_agent : Text
package_agent = codes "castella/0.1"

module _ (reqwest : Reqwest) where
  unfoldable pub with_agent : Option Text → reqwest.Builder → reqwest.Builder
  with_agent none http = reqwest.user_agent http package_agent
  with_agent (some agent) http = reqwest.user_agent http agent

  unfoldable pub with_proxy : Option Text → reqwest.Builder → Result reqwest.Error reqwest.Builder
  with_proxy none http = ok http
  with_proxy (some url) http = reqwest.all url >>= λ p. ok (reqwest.proxy http p)

  unfoldable pub with_flags : HttpConfig → reqwest.Builder → reqwest.Builder
  with_flags config http =
      reqwest.referer
        (reqwest.https_only
          (reqwest.brotli
            (reqwest.deflate (reqwest.gzip http config.compression) config.compression)
            config.compression)
          (not config.allow_insecure))
        false

  -- `HttpConfig::create_client`
  unfoldable pub create_client : HttpConfig → Result reqwest.Error reqwest.Client
  unfolding with_agent with_proxy with_flags
  create_client config =
      with_proxy config.proxy (with_agent config.user_agent reqwest.builder) >>= λ http.
      reqwest.build (with_flags config http)
