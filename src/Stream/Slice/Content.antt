-- ===== src/Stream/Slice/Content.antt =====
-- The bytes and the error of a sliced stream, against the bytes of the stream.
use castella.Prelude.{
  ℕ, zero, suc, ◌+◌, ◌-◌, ◌≤◌, ◌<◌, min, ◌≡◌, refl, ap, sym, ◌∙◌, inl, inr, [], ◌∷◌, ◌++◌, List,
  none, ok, err, Bytes, length, take, drop, concat, leb, leb→le, leb→lt, le→leb, Bool-cases,
  take-append, take-append_take, take-take, take_all, drop-append_ge, drop-append_le, length-append,
  arith,
}
use castella.Stream.Flow.{Stream, bytes_of, failure, items}
use castella.Stream.Slice.Reference.{taken, sliced}

module _ {E : Type 0} where
  pub bytes_of-taken :
      (s : Stream E Bytes) (limit : ℕ) → bytes_of (taken s limit) ≡ take limit (bytes_of s)
  unfolding taken
  bytes_of-taken s zero = refl
  bytes_of-taken [] (suc l) = refl
  bytes_of-taken (err e ∷ s) (suc l) = refl
  bytes_of-taken (ok c ∷ s) (suc l) =
      rw (take-append (suc l) c (bytes_of s), bytes_of-taken s (suc l - min (suc l) (length c)))
        refl

  pub sliced_prefix :
      (s : Stream E Bytes) (offset limit : ℕ)
      → take limit (bytes_of (sliced s offset limit)) ≡ take limit (drop offset (bytes_of s))
  unfolding sliced
  sliced_prefix s zero limit = rw bytes_of-taken (take-take limit limit (bytes_of s) (omega arith))
  sliced_prefix [] (suc o) limit = refl
  sliced_prefix (err e ∷ s) (suc o) limit = refl
  sliced_prefix (ok c ∷ s) (suc o) limit = elim (Bool-cases (leb (length c) (suc o))) [
    | inl past ↦
        rw (past, drop-append_ge (suc o) c (bytes_of s) (leb→le _ _ past))
          (sliced_prefix s (suc o - length c) limit)
    | inr inside ↦
        rw
          (
            inside,
            drop-append_le (suc o) c (bytes_of s) (omega (arith, leb→lt _ _ inside)),
            bytes_of-taken,
          )
          (take-append_take limit (drop (suc o) c) (bytes_of s))
  ]

  -- Where the limit reaches the end of the stream, all the bytes behind the offset come.
  pub sliced_rest :
      (s : Stream E Bytes) (offset limit : ℕ)
      → length (bytes_of s) ≤ offset + limit
      → bytes_of (sliced s offset limit) ≡ drop offset (bytes_of s)
  unfolding sliced
  sliced_rest s zero limit h = bytes_of-taken s limit ∙ take_all limit (bytes_of s) (omega arith)
  sliced_rest [] (suc o) limit h = refl
  sliced_rest (err e ∷ s) (suc o) limit h = refl
  sliced_rest (ok c ∷ s) (suc o) limit h =
      let total : length c + length (bytes_of s) ≤ suc o + limit =
        omega (arith, length-append c (bytes_of s)) in
      elim (Bool-cases (leb (length c) (suc o))) [
        | inl past ↦
            rw (past, drop-append_ge (suc o) c (bytes_of s) (leb→le _ _ past))
              (sliced_rest s (suc o - length c) limit (omega (arith, leb→le _ _ past)))
        | inr inside ↦
            rw
              (
                inside,
                drop-append_le (suc o) c (bytes_of s) (omega (arith, leb→lt _ _ inside)),
                bytes_of-taken,
                take_all limit (bytes_of s) (omega (arith, leb→lt _ _ inside)),
              )
              refl
      ]

  -- A whole chunk in front of the offset is skipped.
  skip_chunk :
      (c : Bytes) (s : Stream E Bytes) (offset limit : ℕ)
      → length c ≤ offset
      → bytes_of (sliced (ok c ∷ s) offset limit) ≡ bytes_of (sliced s (offset - length c) limit)
  unfolding sliced
  skip_chunk [] s zero limit h = bytes_of-taken (ok [] ∷ s) limit ∙ sym (bytes_of-taken s limit)
  skip_chunk (x ∷ c) s zero limit h = absurd (omega arith)
  skip_chunk c s (suc o) limit h = rw (le→leb (length c) (suc o) h) refl

  pub skip_chunks :
      (pre : List Bytes) (s : Stream E Bytes) (k limit : ℕ)
      → bytes_of (sliced (items pre ++ s) (length (concat pre) + k) limit)
        ≡ bytes_of (sliced s k limit)
  skip_chunks [] s k limit = ap (λ o. bytes_of (sliced s o limit)) (omega arith)
  skip_chunks (c ∷ pre) s k limit =
      skip_chunk c (items pre ++ s) (length (c ++ concat pre) + k) limit
        (omega (arith, length-append c (concat pre)))
      ∙ ap (λ o. bytes_of (sliced (items pre ++ s) o limit))
          (omega (arith, length-append c (concat pre)))
      ∙ skip_chunks pre s k limit

  -- Reading on until the bytes run out meets the error behind them.
  failure-taken_short :
      (s : Stream E Bytes) (limit : ℕ)
      → length (bytes_of s) < limit
      → failure (taken s limit) ≡ failure s
  unfolding taken
  failure-taken_short s zero h = absurd (omega arith)
  failure-taken_short [] (suc l) h = refl
  failure-taken_short (err e ∷ s) (suc l) h = refl
  failure-taken_short (ok c ∷ s) (suc l) h =
      failure-taken_short s (suc l - min (suc l) (length c))
        (omega (arith, length-append c (bytes_of s)))

  failure-taken-none :
      (s : Stream E Bytes) (limit : ℕ) → failure s ≡ none → failure (taken s limit) ≡ none
  unfolding taken
  failure-taken-none s zero h = refl
  failure-taken-none [] (suc l) h = refl
  failure-taken-none (err e ∷ s) (suc l) h = h
  failure-taken-none (ok c ∷ s) (suc l) h = failure-taken-none s (suc l - min (suc l) (length c)) h

  pub failure-sliced_short :
      (s : Stream E Bytes) (offset limit : ℕ)
      → length (bytes_of s) < offset + limit
      → failure (sliced s offset limit) ≡ failure s
  unfolding sliced
  failure-sliced_short s zero limit h = failure-taken_short s limit (omega arith)
  failure-sliced_short [] (suc o) limit h = refl
  failure-sliced_short (err e ∷ s) (suc o) limit h = refl
  failure-sliced_short (ok c ∷ s) (suc o) limit h =
      let total : length c + length (bytes_of s) < suc o + limit =
        omega (arith, length-append c (bytes_of s)) in
      elim (Bool-cases (leb (length c) (suc o))) [
        | inl past ↦
            rw past
              (failure-sliced_short s (suc o - length c) limit (omega (arith, leb→le _ _ past)))
        | inr inside ↦ rw inside (failure-taken_short s limit (omega (arith, leb→lt _ _ inside)))
      ]

  pub failure-sliced-none :
      (s : Stream E Bytes) (offset limit : ℕ)
      → failure s ≡ none
      → failure (sliced s offset limit) ≡ none
  unfolding sliced
  failure-sliced-none s zero limit h = failure-taken-none s limit h
  failure-sliced-none [] (suc o) limit h = refl
  failure-sliced-none (err e ∷ s) (suc o) limit h = h
  failure-sliced-none (ok c ∷ s) (suc o) limit h = elim (Bool-cases (leb (length c) (suc o))) [
    | inl past ↦ rw past (failure-sliced-none s (suc o - length c) limit h)
    | inr inside ↦ rw inside (failure-taken-none s limit h)
  ]
