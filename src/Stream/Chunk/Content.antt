-- ===== src/Stream/Chunk/Content.antt =====
-- What `chunk_stream` gives of a stream that has the bytes, and of one that has not.
use castella.Prelude.{
  ℕ, zero, suc, ◌-◌, ◌≤◌, ◌<◌, min, ◌≡◌, refl, ap, ◌∙◌, [], ◌∷◌, some, ok, err, Bytes, length, take,
  drop, lt→==-zero, arith, length-take, length-drop, take-take-min, drop-take-min, List, inl, inr,
  leb, Bool-cases, leb→le, leb→lt,
}
use mathlib.Core.Path.{ap₂}
use castella.Stream.Flow.{
  Stream, bytes_of, failure, items, map_option, bytes_of-map_err_stream, failure-map_err_stream,
  map_err_stream,
}
use castella.Stream.Library.{Futures, IoError, other, shortage, StreamReader}
use castella.Stream.Chunk.{ChunkState, chunk_step, chunk_stream}
use castella.Stream.Chunk.Pieces.{pieces, pieces_enough}

module _ {X : Type 0} (library : StreamReader X) (futures : Futures) (c : ℕ) where
  abbrev state : library.Reader → ℕ → ChunkState library
  state r n = record { reader = r; chunk_size = c; remaining = n }

  abbrev run : ℕ → library.Reader → ℕ → Stream (IoError X) Bytes
  run n r remaining = futures.try_unfold n (chunk_step library) (state r remaining)

  run_end : (n : ℕ) (r : library.Reader) → run (suc n) r 0 ≡ []
  unfolding chunk_step
  run_end n r = let e : min 0 c ≡ 0 = omega arith in rw (futures.try_unfold_suc, e) refl

  -- One poll while bytes remain.
  run_full :
      (n : ℕ) (r : library.Reader) (m : ℕ)
      → 0 < min m c
      → min m c ≤ length (library.left r)
      → run (suc n) r m
        ≡ ok (take (min m c) (library.left r)) ∷ run n (library.advance r (min m c)) (m - min m c)
  unfolding chunk_step
  run_full n r m pos h =
      rw (futures.try_unfold_suc, lt→==-zero (min m c) pos, library.read_exact_full r (min m c) h)
        refl

  run_short :
      (n : ℕ) (r : library.Reader) (m : ℕ)
      → 0 < min m c
      → length (library.left r) < min m c
      → run (suc n) r m ≡ err (shortage (library.stop r)) ∷ []
  unfolding chunk_step
  run_short n r m pos h =
      rw (futures.try_unfold_suc, lt→==-zero (min m c) pos, library.read_exact_short r (min m c) h)
        refl

  -- One piece of a byte string that is cut to the bytes that remain.
  pieces_step :
      (m : ℕ) (b : Bytes)
      → 0 < c
      → suc m ≤ length b
      → pieces c (suc m) (take (suc m) b)
        ≡ take (min (suc m) c) b
          ∷ pieces c (suc m - min (suc m) c) (take (suc m - min (suc m) c) (drop (min (suc m) c) b))
  unfolding pieces
  pieces_step m [] pos h = absurd (omega arith)
  pieces_step m (x ∷ b) pos h =
      let read = min (suc m) c in
      let rest = take (suc m - read) (drop read (x ∷ b)) in
      ap₂ {A = Bytes} {B = List Bytes} {C = List Bytes} (λ p r. p ∷ r)
        (take-take-min c (suc m) (x ∷ b))
        (ap (pieces c m) (drop-take-min c (suc m) (x ∷ b))
          ∙ pieces_enough c m (suc m - read) rest pos
              (omega (arith, length-take (suc m - read) (drop read (x ∷ b))))
              (omega (arith, length-take (suc m - read) (drop read (x ∷ b)))))

  run-pieces :
      (n : ℕ) (r : library.Reader) (m : ℕ)
      → 0 < c
      → m < n
      → m ≤ length (library.left r)
      → run n r m ≡ items (pieces c m (take m (library.left r)))
  run-pieces zero r m pos h k = absurd (omega arith)
  run-pieces (suc n) r zero pos h k = run_end n r ∙ unfold pieces in refl
  run-pieces (suc n) r (suc m) pos h k =
      let read = min (suc m) c in
      rw
        (
          run_full n r (suc m) (omega arith) (omega arith),
          pieces_step m (library.left r) pos k,
          run-pieces n (library.advance r read) (suc m - read) pos (omega arith) (
              omega (
                arith,
                ap length (library.left_advance r read (omega arith)),
                length-drop read (library.left r),
              )),
          library.left_advance r read (omega arith),
        )
        refl

  -- Where the bytes run out early, the last item is an error.
  run_fails :
      (n : ℕ) (r : library.Reader) (m : ℕ)
      → 0 < c
      → m < n
      → length (library.left r) < m
      → failure (run n r m) ≡ some (shortage (library.stop r))
  run_fails zero r m pos h k = absurd (omega arith)
  run_fails (suc n) r m pos h k = elim (Bool-cases (leb (min m c) (length (library.left r)))) [
    | inl there ↦
        let fits = leb→le (min m c) (length (library.left r)) there in
        rw (run_full n r m (omega arith) fits) (
          run_fails n (library.advance r (min m c)) (m - min m c) pos (omega arith) (
            omega (
              arith,
              ap length (library.left_advance r (min m c) fits),
              length-drop (min m c) (library.left r),
            ))
          ∙ ap (λ o. some (shortage o)) (library.stop_advance r (min m c) fits))
    | inr missing ↦
        rw (run_short n r m (omega arith) (leb→lt (min m c) (length (library.left r)) missing)) refl
  ]

module _ {X : Type 0} (library : StreamReader X) (futures : Futures) where
  -- Where the stream has `size` bytes in front of any error and the chunk size is not 0,
  -- `chunk_stream` gives the first `size` bytes in pieces of the chunk size, however the stream was cut.
  pub chunk_stream-pieces :
      (size : ℕ) (s : Stream X Bytes) (c : ℕ)
      → 0 < c
      → size ≤ length (bytes_of s)
      → chunk_stream library futures size s c ≡ items (pieces c size (take size (bytes_of s)))
  unfolding chunk_stream
  chunk_stream-pieces size s c pos h =
      let r = library.open_reader (map_err_stream other s) in
      let e : library.left r ≡ bytes_of s =
        library.left_open (map_err_stream other s) ∙ bytes_of-map_err_stream other s in
      run-pieces library futures c (suc size) r size pos (omega arith) (omega (arith, ap length e))
      ∙ ap (λ b. items (pieces c size (take size b))) e

  -- Where the stream has fewer than `size` bytes in front of its error or end and the chunk size is
  -- not 0, what `chunk_stream` gives ends with an error: the stream's, boxed, or `UnexpectedEof` if the
  -- stream just ends.
  pub chunk_stream_short :
      (size : ℕ) (s : Stream X Bytes) (c : ℕ)
      → 0 < c
      → length (bytes_of s) < size
      → failure (chunk_stream library futures size s c)
        ≡ some (shortage (map_option other (failure s)))
  unfolding chunk_stream
  chunk_stream_short size s c pos h =
      let r = library.open_reader (map_err_stream other s) in
      let e : library.left r ≡ bytes_of s =
        library.left_open (map_err_stream other s) ∙ bytes_of-map_err_stream other s in
      run_fails library futures c (suc size) r size pos (omega arith) (omega (arith, ap length e))
      ∙ ap (λ o. some (shortage o))
          (library.stop_open (map_err_stream other s) ∙ failure-map_err_stream other s)
