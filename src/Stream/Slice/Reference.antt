-- ===== src/Stream/Slice/Reference.antt =====
-- `slice_stream` equals a recursion on the stream, for any number of polls past its length.
use castella.Prelude.{
  ℕ, zero, suc, ◌-◌, ◌<◌, min, ◌≡◌, refl, ap, inl, inr, [], ◌∷◌, ok, err, Bytes, length, take, drop,
  leb, leb→lt, suc-==-zero, ◌≤◌, if◌then◌else◌, Bool-cases, arith,
}
use castella.Prelude.Words.{sub_u64}
use castella.Stream.Flow.{Stream}
use castella.Stream.Library.{Futures, BytesLibrary, poll}
use castella.Stream.Slice.{SliceState, skip, slice_step, slice_stream}

-- The items up to so many bytes.
unfoldable pub taken : {E : Type 0} → Stream E Bytes → ℕ → Stream E Bytes
taken stream zero = []
taken [] (suc limit) = []
taken (err e ∷ stream) (suc limit) = err e ∷ []
taken (ok chunk ∷ stream) (suc limit) =
    ok (take (min (suc limit) (length chunk)) chunk)
    ∷ taken stream (suc limit - min (suc limit) (length chunk))

-- The items behind so many bytes. The rest of the chunk in which the offset falls is whole.
unfoldable pub sliced : {E : Type 0} → Stream E Bytes → ℕ → ℕ → Stream E Bytes
sliced stream zero limit = taken stream limit
sliced [] (suc offset) limit = []
sliced (err e ∷ stream) (suc offset) limit = err e ∷ []
sliced (ok chunk ∷ stream) (suc offset) limit =
    let further = sliced stream (suc offset - length chunk) limit in
    if leb (length chunk) (suc offset)
    then further
    else ok (drop (suc offset) chunk) ∷ taken stream limit

module _ (futures : Futures) (bytes : BytesLibrary) {E : Type 0} where
  abbrev run : ℕ → SliceState E → Stream E Bytes
  run n = futures.try_unfold n (slice_step bytes)

  run-taken :
      (n : ℕ) (s : Stream E Bytes) (limit : ℕ)
      → length s < n
      → run n (record { stream = s; offset = 0; limit = limit }) ≡ taken s limit
  unfolding slice_step taken
  run-taken zero s limit h = absurd (omega arith)
  run-taken (suc n) s zero h = rw futures.try_unfold_suc refl
  run-taken (suc n) [] (suc limit) h = rw (futures.try_unfold_suc, suc-==-zero limit) refl
  run-taken (suc n) (err e ∷ s) (suc limit) h = rw (futures.try_unfold_suc, suc-==-zero limit) refl
  run-taken (suc n) (ok c ∷ s) (suc limit) h =
      rw
        (
          futures.try_unfold_suc,
          suc-==-zero limit,
          bytes.split_to_lem c (min (suc limit) (length c)) (omega arith),
        )
        (ap (λ r. ok (take (min (suc limit) (length c)) c) ∷ r)
          (run-taken n s (suc limit - min (suc limit) (length c)) (omega arith)))

  -- A chunk that is skipped costs no poll.
  poll-skip :
      (n : ℕ) (s : Stream E Bytes) (offset limit : ℕ)
      → length s ≤ n
      → poll (run n) (skip bytes s offset limit) ≡ sliced s offset limit
  unfolding sliced slice_step
  poll-skip n s zero limit h =
      rw
        (← futures.try_unfold_suc n (slice_step bytes)
          (record { stream = s; offset = 0; limit = limit }))
        (run-taken (suc n) s limit (omega arith))
  poll-skip n [] (suc offset) limit h = refl
  poll-skip n (err e ∷ s) (suc offset) limit h = refl
  poll-skip n (ok c ∷ s) (suc offset) limit h = elim (Bool-cases (leb (length c) (suc offset))) [
    | inl past ↦ rw past (poll-skip n s (suc offset - length c) limit (omega arith))
    | inr inside ↦
        rw (inside, bytes.split_off_lem c (suc offset) (omega (arith, leb→lt)))
          (ap (λ r. ok (drop (suc offset) c) ∷ r) (run-taken n s limit (omega arith)))
  ]

  pub slice_stream-eq-sliced :
      (s : Stream E Bytes) (start end : ℕ)
      → slice_stream futures bytes s start end ≡ sliced s start (sub_u64 end start)
  unfolding slice_stream
  slice_stream-eq-sliced s start end =
      rw futures.try_unfold_suc (poll-skip (length s) s start (sub_u64 end start) (omega arith))
