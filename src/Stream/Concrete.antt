-- ===== src/Stream/Concrete.antt =====
-- Values of the interfaces of `Stream.Library`, which show that their laws can hold together. The
-- witnesses run the program on them.
use castella.Prelude.{
  ℕ, zero, suc, ◌≤◌, ◌<◌, ◌≡◌, refl, [], ◌∷◌, ◌++◌, Option, Result, ok, err, Bytes, length, take,
  drop, leb, le→leb, lt→leb, if◌then◌else◌,
}
use castella.Stream.Flow.{Stream, bytes_of, failure}
use castella.Stream.Library.{Closure, poll, Futures, BytesLibrary, IoError, shortage, StreamReader}

unfold_run : {S E A : Type 0} → ℕ → Closure S E A → S → Stream E A
unfold_run zero f s = []
unfold_run (suc n) f s = poll (unfold_run n f) (f s)

unfoldable pub futures : Futures
unfolding unfold_run
futures = record {
  try_unfold = unfold_run;
  try_unfold_zero = λ f s. refl;
  try_unfold_suc = λ n f s. refl;
  once = λ r. r ∷ [];
  chain = λ s t. s ++ t;
  once_lem = λ r. refl;
  chain_lem = λ s t. refl;
}

unfoldable pub bytes_library : BytesLibrary
bytes_library = record {
  split_off = λ b at. drop at b;
  split_to = λ b at. take at b;
  split_off_lem = λ b at h. refl;
  split_to_lem = λ b at h. refl;
}

module _ {X : Type 0} where
  -- A reader as the bytes that are left and the error behind them.
  read_left :
      Bytes × Option (IoError X) → ℕ → Result (IoError X) (Bytes × (Bytes × Option (IoError X)))
  read_left (b, stop) n =
      if leb n (length b) then ok (take n b, (drop n b, stop)) else err (shortage stop)

  read_left_full :
      (r : Bytes × Option (IoError X)) (n : ℕ)
      → n ≤ length r.0
      → read_left r n ≡ ok (take n r.0, (drop n r.0, r.1))
  unfolding read_left
  read_left_full r n h = rw (le→leb n (length r.0) h) refl

  read_left_short :
      (r : Bytes × Option (IoError X)) (n : ℕ) → length r.0 < n → read_left r n ≡ err (shortage r.1)
  unfolding read_left
  read_left_short r n h = rw (lt→leb n (length r.0) h) refl

unfoldable pub stream_reader : (X : Type 0) → StreamReader X
unfolding read_left read_left_full read_left_short
stream_reader X = record {
  Reader = Bytes × Option (IoError X);
  open_reader = λ s. (bytes_of s, failure s);
  read_exact = read_left;
  left = λ r. r.0;
  stop = λ r. r.1;
  advance = λ r n. (drop n r.0, r.1);
  left_open = λ s. refl;
  stop_open = λ s. refl;
  read_exact_full = read_left_full;
  left_advance = λ r n h. refl;
  stop_advance = λ r n h. refl;
  read_exact_short = read_left_short;
}
