-- ===== src/Drive/Sending.antt =====
-- How a request is sent: what happened where a response came back.
use castella.Prelude.{
  ◌≡◌, refl, sym, ap, ◌∙◌, ◌⊎◌, Result, ok, err, map_err, ◌>>=◌, false, arith, inl, inr,
}
use castella.Text.{Text}
use castella.Drive.{Error, Request, Response, Remote, authorized_send, error_for_status, auth}
use castella.Drive.Service.{is_error}

module _ {W B X J A : Type 0} (remote : Remote W B X J A) where
  -- The world in which the request is sent.
  abbrev pub authorized : W → W
  authorized w = (remote.header (remote.until_ready w)).1

  module _ (wrap : X → Error X J A) (request : Text → Request B) (w : W) where
    authorized_send_refused :
        {e : A}
        → (remote.header (remote.until_ready w)).0 ≡ err e
        → authorized_send remote wrap request w ≡ (err (auth e), authorized w)
    unfolding authorized_send
    authorized_send_refused h = rw (h, authorized_send) refl

    authorized_send_sent :
        {h : Text}
        → (remote.header (remote.until_ready w)).0 ≡ ok h
        → authorized_send remote wrap request w ≡ (
          map_err wrap ((remote.send (request h) (authorized w)).0 >>= error_for_status remote),
          (remote.send (request h) (authorized w)).1,
        )
    unfolding authorized_send
    authorized_send_sent h = rw (h, authorized_send) refl

  status_ok :
      (wrap : X → Error X J A) (answer : Result X (Response X)) {r : Response X}
      → map_err wrap (answer >>= error_for_status remote) ≡ ok r
      → (answer ≡ ok r) × (is_error r.status ≡ false)
  unfolding error_for_status
  status_ok wrap answer h = ground arith

  module _ (wrap : X → Error X J A) (request : Text → Request B) (w : W) where
    sent_world_at :
        (token : Result A Text)
        → (remote.header (remote.until_ready w)).0 ≡ token
        → ((authorized_send remote wrap request w).1 ≡ authorized w)
          ⊎ ((h : Text) × ((authorized_send remote wrap request w).1
                ≡ (remote.send (request h) (authorized w)).1))
    sent_world_at (err e) same = inl (ap (λ r. r.1) (authorized_send_refused wrap request w same))
    sent_world_at (ok h) same = inr (h, ap (λ r. r.1) (authorized_send_sent wrap request w same))

    -- Either the token could not be had, or one request was sent.
    pub sent_world :
        ((authorized_send remote wrap request w).1 ≡ authorized w)
        ⊎ ((h : Text) × ((authorized_send remote wrap request w).1
              ≡ (remote.send (request h) (authorized w)).1))
    sent_world = sent_world_at _ refl

    sent_ok_at :
        (token : Result A Text) {r : Response X}
        → (remote.header (remote.until_ready w)).0 ≡ token
        → (authorized_send remote wrap request w).0 ≡ ok r
        → (h : Text) × ((remote.send (request h) (authorized w)).0 ≡ ok r)
          × (is_error r.status ≡ false)
          × ((authorized_send remote wrap request w).1 ≡ (remote.send (request h) (authorized w)).1)
    sent_ok_at (err e) same d =
        let refused = authorized_send_refused wrap request w same in
        absurd (refused_ok (ap (λ r. r.0) refused) d)
      where
        refused_ok :
            {e : Error X J A} {r : Response X} {m : Result (Error X J A) (Response X)}
            → m ≡ err e
            → m ≡ ok r
            → ⊥
        refused_ok p q = cc
    sent_ok_at (ok h) same d =
        let sent = authorized_send_sent wrap request w same in
        let answer =
          status_ok wrap (remote.send (request h) (authorized w)).0
            (sym (ap (λ r. r.0) sent) ∙ d) in
        (h, answer.0, answer.1, ap (λ r. r.1) sent)

    -- A response comes from one request that was sent, and is no error.
    pub sent_ok :
        {r : Response X}
        → (authorized_send remote wrap request w).0 ≡ ok r
        → (h : Text) × ((remote.send (request h) (authorized w)).0 ≡ ok r)
          × (is_error r.status ≡ false)
          × ((authorized_send remote wrap request w).1 ≡ (remote.send (request h) (authorized w)).1)
    sent_ok d = sent_ok_at _ refl d
