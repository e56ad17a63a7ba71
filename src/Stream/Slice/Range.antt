-- ===== src/Stream/Slice/Range.antt =====
-- What `slice_stream` gives of a requested range.
use castella.Prelude.{
  ℕ, zero, suc, ◌+◌, ◌-◌, ◌≤◌, ◌<◌, ◌≡◌, refl, ◌∙◌, ap, ◌∷◌, ◌++◌, List, none, ok, Bytes, length,
  take, drop, concat, lt→leb, length-append, length-take, length-drop, arith,
}
use castella.Prelude.Words.{u64_mod, sub_u64, sub_u64-eq-sub}
use castella.Stream.Flow.{Stream, bytes_of, failure, items}
use castella.Stream.Library.{Futures, BytesLibrary}
use castella.Stream.Slice.{slice_stream}
use castella.Stream.Slice.Reference.{sliced, slice_stream-eq-sliced}
use castella.Stream.Slice.Content.{
  bytes_of-taken, sliced_prefix, sliced_rest, skip_chunks, failure-sliced_short,
  failure-sliced-none,
}

module _ (futures : Futures) (bytes : BytesLibrary) {E : Type 0} where
  -- For a range whose ends are u64s in order, the first `end - start` bytes that `slice_stream` gives
  -- are the bytes of the stream from `start` up to `end` (fewer where the stream has fewer), however
  -- the stream is cut into chunks.
  pub slice_prefix :
      (s : Stream E Bytes) (start end : ℕ)
      → start ≤ end
      → end < u64_mod
      → take (end - start) (bytes_of (slice_stream futures bytes s start end))
        ≡ take (end - start) (drop start (bytes_of s))
  slice_prefix s start end h k =
      rw (slice_stream-eq-sliced futures bytes s start end, sub_u64-eq-sub end start h k)
        (sliced_prefix s start (end - start))

  -- Where `start` is the end of a chunk, `slice_stream` gives exactly the bytes of the range: those of
  -- the rest of the stream, up to `end - start`.
  pub slice_at_boundary :
      (pre : List Bytes) (s : Stream E Bytes) (end : ℕ)
      → length (concat pre) ≤ end
      → end < u64_mod
      → bytes_of (slice_stream futures bytes (items pre ++ s) (length (concat pre)) end)
        ≡ take (end - length (concat pre)) (bytes_of s)
  slice_at_boundary pre s end h k =
      rw
        (
          slice_stream-eq-sliced futures bytes (items pre ++ s) (length (concat pre)) end,
          sub_u64-eq-sub end (length (concat pre)) h k,
        )
        (ap (λ o. bytes_of (sliced (items pre ++ s) o (end - length (concat pre)))) (omega arith)
          ∙ skip_chunks pre s 0 (end - length (concat pre))
          ∙ unfold sliced in bytes_of-taken s (end - length (concat pre)))

  -- Where the range reaches the end of the stream's bytes, `slice_stream` gives exactly the bytes
  -- behind `start`.
  pub slice_to_end :
      (s : Stream E Bytes) (start end : ℕ)
      → start ≤ end
      → end < u64_mod
      → length (bytes_of s) ≤ end
      → bytes_of (slice_stream futures bytes s start end) ≡ drop start (bytes_of s)
  slice_to_end s start end h k total =
      rw (slice_stream-eq-sliced futures bytes s start end, sub_u64-eq-sub end start h k)
        (sliced_rest s start (end - start) (omega arith))

  -- Where `start` falls inside a chunk `c`, behind its first `k` bytes, `slice_stream` gives the whole
  -- rest of that chunk, and then up to `end - start` bytes more: the rest of the chunk is neither cut at
  -- `end` nor counted.
  pub slice_inside_chunk :
      (pre : List Bytes) (c : Bytes) (s : Stream E Bytes) (k end : ℕ)
      → 0 < k
      → k < length c
      → length (concat pre) + k ≤ end
      → end < u64_mod
      → bytes_of (slice_stream futures bytes (items pre ++ ok c ∷ s) (length (concat pre) + k) end)
        ≡ drop k c ++ take (end - (length (concat pre) + k)) (bytes_of s)
  slice_inside_chunk pre c s zero end pos inside h b = absurd (omega arith)
  slice_inside_chunk pre c s (suc k) end pos inside h b =
      rw
        (
          slice_stream-eq-sliced futures bytes (items pre ++ ok c ∷ s) (length (concat pre) + suc k)
              end,
          sub_u64-eq-sub end (length (concat pre) + suc k) h b,
          skip_chunks pre (ok c ∷ s) (suc k) (end - (length (concat pre) + suc k)),
        )
        (unfold sliced in rw (lt→leb (length c) (suc k) inside, bytes_of-taken) refl)

  -- A stream with no error is sliced into one with no error.
  pub slice_no_failure :
      (s : Stream E Bytes) (start end : ℕ)
      → failure s ≡ none
      → failure (slice_stream futures bytes s start end) ≡ none
  slice_no_failure s start end h =
      rw slice_stream-eq-sliced (failure-sliced-none s start (sub_u64 end start) h)

  -- Where the bytes of the stream run out before the end of the range, the sliced stream ends with the
  -- error with which the stream ends, or with none if the stream has none.
  pub slice_failure :
      (s : Stream E Bytes) (start end : ℕ)
      → start ≤ end
      → end < u64_mod
      → length (bytes_of s) < end
      → failure (slice_stream futures bytes s start end) ≡ failure s
  slice_failure s start end h k short =
      rw (slice_stream-eq-sliced futures bytes s start end, sub_u64-eq-sub end start h k)
        (failure-sliced_short s start (end - start) (omega arith))

  -- Where `start` falls inside a chunk `c`, behind its first `k` bytes, and the stream goes on past
  -- `end`, `slice_stream` gives more bytes than the range has.
  pub slice_overruns :
      (pre : List Bytes) (c : Bytes) (s : Stream E Bytes) (k end : ℕ)
      → 0 < k
      → k < length c
      → length (concat pre) + k ≤ end
      → end < u64_mod
      → end < length (concat pre) + length c + length (bytes_of s)
      → end - (length (concat pre) + k)
        < length (
            bytes_of
              (slice_stream futures bytes (items pre ++ ok c ∷ s) (length (concat pre) + k) end))
  slice_overruns pre c s k end pos inside h b goes_on =
      let n = end - (length (concat pre) + k) in
      rw (slice_inside_chunk pre c s k end pos inside h b) (
        omega (
          arith,
          length-append (drop k c) (take n (bytes_of s)),
          length-drop k c,
          length-take n (bytes_of s),
        ))
