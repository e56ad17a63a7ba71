-- ===== src/Http/Settings.antt =====
-- The settings of a client that was made of a configuration.
use castella.Prelude.{
  ◌≡◌, refl, sym, ap, ◌∙◌, [], ◌∷◌, ◌++◌, List, Option, none, some, ok, >>=-eq-ok, false, not,
}
use castella.Text.{Text}
use castella.Http.{
  HttpConfig, ClientSettings, Reqwest, package_agent, with_agent, with_proxy, with_flags,
  create_client,
}

-- The settings that a configuration asks for.
abbrev pub agent_of : Option Text → Text
agent_of none = package_agent
agent_of (some agent) = agent

abbrev pub proxies_of : Option Text → List Text
proxies_of none = []
proxies_of (some url) = url ∷ []

abbrev pub expected_settings : HttpConfig → ClientSettings
expected_settings config = record {
  user_agent = some (agent_of config.user_agent);
  proxies = proxies_of config.proxy;
  gzip = config.compression;
  deflate = config.compression;
  brotli = config.compression;
  https_only = not config.allow_insecure;
  referer = false;
}

module _ (reqwest : Reqwest) where
  with_agent_lem :
      (agent : Option Text) (http : reqwest.Builder)
      → reqwest.settings (with_agent reqwest agent http)
        ≡ record (reqwest.settings http) { user_agent = some (agent_of agent) }
  unfolding with_agent
  with_agent_lem none http = reqwest.user_agent_lem http package_agent
  with_agent_lem (some agent) http = reqwest.user_agent_lem http agent

  with_proxy_lem :
      (url : Option Text) (http http' : reqwest.Builder)
      → (reqwest.settings http).proxies ≡ []
      → with_proxy reqwest url http ≡ ok http'
      → reqwest.settings http' ≡ record (reqwest.settings http) { proxies = proxies_of url }
  unfolding with_proxy
  with_proxy_lem none http http' e h =
      let same : http ≡ http' = cc in
      ap reqwest.settings (sym same)
      ∙ ap (λ (urls : List Text). record (reqwest.settings http) { proxies = urls }) e
  with_proxy_lem (some url) http http' e h =
      let (p, found, made) = >>=-eq-ok (reqwest.all url) _ h in
      let same : reqwest.proxy http p ≡ http' = cc in
      ap reqwest.settings (sym same)
      ∙ reqwest.proxy_lem http url p found
      ∙ ap (λ (urls : List Text). record (reqwest.settings http) { proxies = urls ++ url ∷ [] }) e

  with_flags_lem :
      (config : HttpConfig) (http : reqwest.Builder)
      → reqwest.settings (with_flags reqwest config http) ≡ record (reqwest.settings http) {
        gzip = config.compression;
        deflate = config.compression;
        brotli = config.compression;
        https_only = not config.allow_insecure;
        referer = false;
      }
  unfolding with_flags
  with_flags_lem config http =
      rw
        (
          reqwest.referer_lem _ false,
          reqwest.https_only_lem _ (not config.allow_insecure),
          reqwest.brotli_lem _ config.compression,
          reqwest.deflate_lem _ config.compression,
          reqwest.gzip_lem http config.compression,
        )
        refl

  -- A client that was made has the user agent of the configuration, or the program's name and version
  -- if that has none; the proxy of the configuration, if it has one, and no other; compression as it is
  -- configured, of every kind; HTTPS only unless insecure connections are allowed; and it sends no
  -- referer.
  pub create_client_lem :
      (config : HttpConfig) (client : reqwest.Client)
      → create_client reqwest config ≡ ok client
      → reqwest.settings_of client ≡ expected_settings config
  unfolding create_client
  create_client_lem config client h =
      let agent = with_agent_lem config.user_agent reqwest.builder in
      let (http, made, built) =
        >>=-eq-ok
          (with_proxy reqwest config.proxy (with_agent reqwest config.user_agent reqwest.builder)) _
          h in
      let proxied =
        with_proxy_lem config.proxy (with_agent reqwest config.user_agent reqwest.builder) http
          (ap (λ (s : ClientSettings). s.proxies) agent ∙ reqwest.builder_lem) made in
      rw (reqwest.build_lem _ client built, with_flags_lem config http, proxied, agent) refl
