-- ===== src/Tests/AuthTests.antt =====
-- Two calls of an authenticator.
use castella.Prelude.{ℕ, ◌*◌, ◌≡◌, refl, [], ◌∷◌, ok, arith}
use castella.Auth.{Authenticator, Call, new, request, renew, access_token, lifetime, second}
use castella.Auth.Freshness.{run, IsFresh, access_token-IsFresh}

-- A call at a second, which would be answered with a token of that number.
abbrev at : ℕ → Call ℕ
at n = record {
  now = n * second;
  request_now = n * second;
  answer = λ id secret refresh. ok (record { access_token = n ∷ []; expires_in = 100 });
}

abbrev before : Authenticator
before = run (at 50 ∷ at 7 ∷ []) (new [] [] (5 ∷ []))

-- The first token is kept, and renewed 90 seconds after it was issued.
renewed : (access_token (at 97) before).0 ≡ ok (97 ∷ [])
unfolding access_token run new renew request lifetime
renewed = refl

access_token-IsFresh_example :
    IsFresh [] []
      (5 ∷ [])
      (at 96 ∷ at 50 ∷ at 7 ∷ [])
      (96 * second)
      (7 ∷ [])
      (access_token (at 96) before).1
unfolding access_token run new renew request lifetime
access_token-IsFresh_example =
    access_token-IsFresh [] [] (5 ∷ []) (at 50 ∷ at 7 ∷ []) (at 96)
      (omega arith, (omega arith, (omega arith, tt))) refl
