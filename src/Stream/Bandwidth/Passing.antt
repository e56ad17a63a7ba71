-- ===== src/Stream/Bandwidth/Passing.antt =====
-- Throttled streams give what they are given.
use castella.Prelude.{
  ℕ, zero, suc, ◌<◌, ◌≡◌, refl, ap, ◌∙◌, [], ◌∷◌, ◌++◌, ok, err, Bytes, length, arith,
}
use castella.Stream.Flow.{Stream, bytes_of, failure}
use castella.Stream.Library.{Futures}
use castella.Stream.Bandwidth.{
  BandwidthLimiter, throttle, throttle_step, throttle_stream, debug_step, debug_stream,
}

-- The items up to the first error, which is the last item of a `try_unfold`.
pub until_error : {E : Type 0} → Stream E Bytes → Stream E Bytes
until_error [] = []
until_error (ok b ∷ s) = ok b ∷ until_error s
until_error (err e ∷ s) = err e ∷ []

module _ (futures : Futures) {E : Type 0} where
  run-throttle :
      (n : ℕ) (s : Stream E Bytes) (l : BandwidthLimiter)
      → length s < n
      → futures.try_unfold n throttle_step (record { stream = s; limiter = l }) ≡ until_error s
  unfolding throttle_step until_error
  run-throttle zero s l h = absurd (omega arith)
  run-throttle (suc n) [] l h = rw futures.try_unfold_suc refl
  run-throttle (suc n) (err e ∷ s) l h = rw futures.try_unfold_suc refl
  run-throttle (suc n) (ok b ∷ s) l h =
      rw futures.try_unfold_suc (ap (λ r. ok b ∷ r) (run-throttle n s (throttle l b) (omega arith)))

  run-debug :
      (n : ℕ) (s : Stream E Bytes)
      → length s < n
      → futures.try_unfold n debug_step s ≡ until_error s
  unfolding debug_step until_error
  run-debug zero s h = absurd (omega arith)
  run-debug (suc n) [] h = rw futures.try_unfold_suc refl
  run-debug (suc n) (err e ∷ s) h = rw futures.try_unfold_suc refl
  run-debug (suc n) (ok b ∷ s) h =
      rw futures.try_unfold_suc (ap (λ r. ok b ∷ r) (run-debug n s (omega arith)))

  bytes_of-until_error : (s : Stream E Bytes) → bytes_of (until_error s) ≡ bytes_of s
  unfolding until_error
  bytes_of-until_error [] = refl
  bytes_of-until_error (ok b ∷ s) = ap (λ r. b ++ r) (bytes_of-until_error s)
  bytes_of-until_error (err e ∷ s) = refl

  failure-until_error : (s : Stream E Bytes) → failure (until_error s) ≡ failure s
  unfolding until_error
  failure-until_error [] = refl
  failure-until_error (ok b ∷ s) = failure-until_error s
  failure-until_error (err e ∷ s) = refl

  -- Whatever the limiter's state, `throttle_stream` passes every buffer on, unchanged and in order, up to
  -- the first error, which it passes on and ends with; so bytes and error are those of the stream.
  -- `debug_stream` gives the same items.
  pub throttle_stream_transparent :
      (s : Stream E Bytes) (l : BandwidthLimiter)
      → (throttle_stream futures s l ≡ until_error s)
        × (debug_stream futures s ≡ until_error s)
        × (bytes_of (throttle_stream futures s l) ≡ bytes_of s)
        × (failure (throttle_stream futures s l) ≡ failure s)
  unfolding throttle_stream debug_stream
  throttle_stream_transparent s l =
      let e = run-throttle (suc (length s)) s l (omega arith) in
      (
        e,
        run-debug (suc (length s)) s (omega arith),
        ap bytes_of e ∙ bytes_of-until_error s,
        ap failure e ∙ failure-until_error s,
      )
