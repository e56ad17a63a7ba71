-- ===== src/Auth.antt =====
-- src/auth.rs: the access token of the Drive API, which is kept until shortly before it expires. The
-- mutex is held through the whole of `access_token`, so a call is one step here.
pub mod Freshness
use castella.Prelude.{
  ℕ, ◌+◌, ◌-◌, ◌*◌, ◌^◌, ◌++◌, Option, none, some, Result, ok, err, map_err, ◌>>=◌, Bool, true,
  false, leb, if◌then◌else◌,
}
use castella.Text.{Text, codes}

-- `Error`. `X` is reqwest's error; the constructor `client_init` belongs to `Authenticator::new`.
pub data Error (X : Type 0) : Type 0 where
  client_init : X → Error X
  access_token_request : X → Error X

-- `Authenticator`, with the token and the instant at which it counts as expired, in nanoseconds.
pub record Authenticator : Type 0 where
  pub client_id : Text
  pub client_secret : Text
  pub refresh_token : Text
  pub cached : Option (Text × ℕ)

-- `Authenticator::new`, where the client could be made.
unfoldable pub new : Text → Text → Text → Authenticator
new client_id client_secret refresh_token = record {
  client_id = client_id;
  client_secret = client_secret;
  refresh_token = refresh_token;
  cached = none;
}

-- `Response` of `request`
pub record Response : Type 0 where
  pub access_token : Text
  pub expires_in : ℕ

-- What one call of `access_token` meets: the clock at the test, the clock at the request, and what the
-- token service answers to the form with the three fields.
pub record Call (X : Type 0) : Type 0 where
  pub now : ℕ
  pub request_now : ℕ
  pub answer : Text → Text → Text → Result X Response

-- One second, in nanoseconds.
abbrev pub second : ℕ
second = 1000000000

-- `a.max(b)`
abbrev pub max : ℕ → ℕ → ℕ
max a b = if leb a b then b else a

-- For how many seconds a token is kept: 10 less than it is valid, but 10 at least.
unfoldable pub lifetime : ℕ → ℕ
lifetime expires_in = max (expires_in - 10) 10

module _ {X : Type 0} where
  -- `request`
  unfoldable pub request : Call X → Authenticator → Result (Error X) (Text × ℕ)
  unfolding lifetime
  request c a =
      map_err access_token_request (c.answer a.client_id a.client_secret a.refresh_token)
      >>= λ (r : Response). ok (r.access_token, c.request_now + second * lifetime r.expires_in)

  -- A new token replaces the one that is kept; an error leaves it there.
  unfoldable pub renew : Call X → Authenticator → Result (Error X) Text × Authenticator
  unfolding request
  renew c a = elim (request c a) [
    | err e ↦ (err e, a)
    | ok (token, expires) ↦ (ok token, record a { cached = some (token, expires) })
  ]

  -- `access_token`
  unfoldable pub access_token : Call X → Authenticator → Result (Error X) Text × Authenticator
  unfolding renew
  access_token c a = elim a.cached [
    | none ↦ renew c a
    | some (token, expires) ↦ if leb expires c.now then renew c a else (ok token, a)
  ]

  -- `header`
  unfoldable pub header : Call X → Authenticator → Result (Error X) Text × Authenticator
  unfolding access_token
  header c a = let (token, a') = access_token c a in (token >>= λ t. ok (codes "Bearer " ++ t), a')
