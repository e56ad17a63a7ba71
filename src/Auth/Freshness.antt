-- ===== src/Auth/Freshness.antt =====
-- Where the tokens come from that are handed out, and until when.
use castella.Prelude.{
  ℕ, ◌+◌, ◌*◌, ◌<◌, ◌≤◌, ◌≡◌, refl, sym, [], ◌∷◌, List, Option, none, some, Result, ok, err, ◌⊎◌,
  inl, inr, leb, Bool-cases, leb→lt, arith,
}
use mathlib.Core.Path.{subst}
use castella.Text.{Text}
use castella.Auth.{
  Error, Authenticator, Call, Response, new, request, renew, access_token, lifetime, second,
}

module _ {X : Type 0} where
  -- The authenticator behind calls, the last of which stands in front.
  unfoldable pub run : List (Call X) → Authenticator → Authenticator
  run [] a = a
  run (c ∷ earlier) a = (access_token c (run earlier a)).1

  abbrev pub OneOf : Call X → List (Call X) → Type 0
  OneOf c [] = ⊥
  OneOf c (d ∷ ds) = (c ≡ d) ⊎ OneOf c ds

lifetime_ge : (n : ℕ) → 10 ≤ lifetime n
unfolding lifetime
lifetime_ge n = ground arith

abbrev holding : Text → Text → Text → Option (Text × ℕ) → Authenticator
holding client_id client_secret refresh_token cached = record {
  client_id = client_id;
  client_secret = client_secret;
  refresh_token = refresh_token;
  cached = cached;
}

module _ {X : Type 0} (client_id client_secret refresh_token : Text) where
  -- The token service issued `token` in one of the calls, and it is kept until `expires`.
  pub record IsIssued (calls : List (Call X)) (token : Text) (expires : ℕ) : Type 0 where
    pub call : Call X
    pub expires_in : ℕ
    pub made : OneOf call calls
    pub answered :
        call.answer client_id client_secret refresh_token
        ≡ ok (record { access_token = token; expires_in = expires_in })
    pub until : expires ≡ call.request_now + second * lifetime expires_in

  -- A token that is handed out now: it was issued, it is the one that is kept, and it has not expired.
  pub record IsFresh (calls : List (Call X)) (now : ℕ) (token : Text) (a : Authenticator)
      : Type 0 where
    pub expires : ℕ
    pub issued : IsIssued calls token expires
    pub kept : a.cached ≡ some (token, expires)
    pub unexpired : now < expires

  abbrev Backed : List (Call X) → Option (Text × ℕ) → Type 0
  Backed calls none = Unit
  Backed calls (some (token, expires)) = IsIssued calls token expires

  -- The credentials are the same, and what is kept was issued.
  record IsBacked (calls : List (Call X)) (a : Authenticator) : Type 0 where
    same : a ≡ holding client_id client_secret refresh_token a.cached
    backing : Backed calls a.cached

  later :
      (calls : List (Call X)) (c : Call X) (cached : Option (Text × ℕ))
      → Backed calls cached
      → Backed (c ∷ calls) cached
  later calls c none i = tt
  later calls c (some (token, expires)) i = record {
    call = i.call;
    expires_in = i.expires_in;
    made = inr i.made;
    answered = i.answered;
    until = i.until;
  }

  -- What a call has to establish of its result and of the authenticator behind it.
  record IsAfter (calls : List (Call X)) (now : ℕ) (r : Result (Error X) Text × Authenticator)
      : Type 0 where
    backed : IsBacked calls r.1
    fresh : (token : Text) → r.0 ≡ ok token → IsFresh calls now token r.1

  renew-IsAfter :
      (c : Call X) (calls : List (Call X)) (cached : Option (Text × ℕ)) (answer : Result X Response)
      → c.answer client_id client_secret refresh_token ≡ answer
      → c.now ≤ c.request_now
      → Backed calls cached
      → IsAfter (c ∷ calls) c.now (renew c (holding client_id client_secret refresh_token cached))
  unfolding renew request
  renew-IsAfter c calls cached (err x) e h b =
      rw (e, renew)
        (record {
          backed = record { same = refl; backing = later calls c cached b };
          fresh = λ token d. cc;
        })
  renew-IsAfter c calls cached (ok response) e h b =
      let expires = c.request_now + second * lifetime response.expires_in in
      let issued : IsIssued (c ∷ calls) response.access_token expires = record {
        call = c;
        expires_in = response.expires_in;
        made = inl refl;
        answered = e;
        until = refl;
      } in
      rw (e, renew)
        (record {
          backed = record { same = refl; backing = issued };
          fresh = λ token d.
              let same : response.access_token ≡ token = cc in
              subst
                (λ t. IsFresh (c ∷ calls) c.now t (
                  holding client_id client_secret refresh_token
                    (some (response.access_token, expires))))
                same
                (record {
                  expires = expires;
                  issued = issued;
                  kept = refl;
                  unexpired = omega (arith, lifetime_ge response.expires_in);
                });
        })

  access_token-IsAfter :
      (c : Call X) (calls : List (Call X)) (cached : Option (Text × ℕ))
      → c.now ≤ c.request_now
      → Backed calls cached
      → IsAfter
          (c ∷ calls)
          c.now
          (access_token c (holding client_id client_secret refresh_token cached))
  unfolding access_token
  access_token-IsAfter c calls none h b =
      renew-IsAfter c calls none (c.answer client_id client_secret refresh_token) refl h b
  access_token-IsAfter c calls (some (kept, expires)) h b = elim (Bool-cases (leb expires c.now)) [
    | inl late ↦ rw late (
        renew-IsAfter c calls (some (kept, expires))
          (c.answer client_id client_secret refresh_token) refl h b)
    | inr early ↦
        let issued = later calls c (some (kept, expires)) b in
        rw early (record {
          backed = record { same = refl; backing = issued };
          fresh = λ token d.
              let same : kept ≡ token = cc in
              subst
                (λ t.
                  IsFresh (c ∷ calls) c.now t
                    (holding client_id client_secret refresh_token (some (kept, expires))))
                same
                (record {
                  expires = expires;
                  issued = issued;
                  kept = refl;
                  unexpired = leb→lt expires c.now early;
                });
        })
  ]

  -- The clock does not go back in any of the calls.
  abbrev pub InOrder : List (Call X) → Type 0
  InOrder [] = Unit
  InOrder (c ∷ calls) = (c.now ≤ c.request_now) × InOrder calls

  IsAfter-call :
      (c : Call X) (calls : List (Call X)) (a : Authenticator)
      → c.now ≤ c.request_now
      → IsBacked calls a
      → IsAfter (c ∷ calls) c.now (access_token c a)
  IsAfter-call c calls a h b =
      subst (λ a'. IsAfter (c ∷ calls) c.now (access_token c a')) (sym b.same)
        (access_token-IsAfter c calls a.cached h b.backing)

  run-IsBacked :
      (calls : List (Call X))
      → InOrder calls
      → IsBacked calls (run calls (new client_id client_secret refresh_token))
  unfolding run new
  run-IsBacked [] h = record { same = refl; backing = tt }
  run-IsBacked (c ∷ calls) h =
      (IsAfter-call c calls (run calls (new client_id client_secret refresh_token)) h.0
        (run-IsBacked calls h.1)).backed

  -- Behind any calls of a new authenticator, in each of which the clock did not go back between the test
  -- and the request, a call that returns a token returns one that the token service issued for the
  -- authenticator's credentials in one of these calls or in this one, and the clock at the test is before
  -- the instant until which the token is kept: `lifetime` seconds behind the request that it came with.
  -- It is also the token that the authenticator holds from then on.
  pub access_token-IsFresh :
      (calls : List (Call X)) (c : Call X) {token : Text}
      → InOrder (c ∷ calls)
      → let a = run calls (new client_id client_secret refresh_token) in
        (access_token c a).0 ≡ ok token → IsFresh (c ∷ calls) c.now token (access_token c a).1
  access_token-IsFresh calls c {token} h d =
      (IsAfter-call c calls (run calls (new client_id client_secret refresh_token)) h.0
          (run-IsBacked calls h.1)).fresh
        token d
