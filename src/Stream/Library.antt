-- ===== src/Stream/Library.antt =====
-- What the program takes from the crates futures, bytes and tokio-util. The records are parameters
-- of the model; their laws are the documented behaviour of the crates.
use castella.Prelude.{
  ℕ, zero, suc, ◌≤◌, ◌<◌, ◌≡◌, [], ◌∷◌, ◌++◌, Option, none, some, Result, ok, err, Bytes, length,
  take, drop,
}
use castella.Stream.Flow.{Stream, bytes_of, failure}

-- The closure given to `try_unfold`: an error, the end, or an item and the next state.
abbrev pub Closure : Type 0 → Type 0 → Type 0 → Type 0
Closure S E A = S → Result E (Option (A × S))

-- One poll of `try_unfold`: behind an item stands what `rest` gives at the next state, and after an
-- error or the end nothing comes.
abbrev pub poll : {S E A : Type 0} → (S → Stream E A) → Result E (Option (A × S)) → Stream E A
poll rest (ok none) = []
poll rest (ok (some (a, s))) = ok a ∷ rest s
poll rest (err e) = err e ∷ []

-- futures: `try_unfold(state, closure)`, polled at most so many times, and two more functions.
pub record Futures : Type 1 where
  pub try_unfold : {S E A : Type 0} → ℕ → Closure S E A → S → Stream E A
  pub try_unfold_zero : {S E A : Type 0} (f : Closure S E A) (s : S) → try_unfold zero f s ≡ []
  pub try_unfold_suc :
      {S E A : Type 0} (n : ℕ) (f : Closure S E A) (s : S)
      → try_unfold (suc n) f s ≡ poll (try_unfold n f) (f s)
  -- `once(async { item })` and `a.chain(b)`.
  pub once : {E A : Type 0} → Result E A → Stream E A
  pub chain : {E A : Type 0} → Stream E A → Stream E A → Stream E A
  pub once_lem : {E A : Type 0} (r : Result E A) → once r ≡ r ∷ []
  pub chain_lem : {E A : Type 0} (s t : Stream E A) → chain s t ≡ s ++ t

-- bytes: `Bytes::split_off` and `Bytes::split_to`. Each returns the part that is cut away; both
-- panic where the position is past the end.
pub record BytesLibrary : Type 0 where
  pub split_off : Bytes → ℕ → Bytes
  pub split_to : Bytes → ℕ → Bytes
  pub split_off_lem : (b : Bytes) (at : ℕ) → at ≤ length b → split_off b at ≡ drop at b
  pub split_to_lem : (b : Bytes) (at : ℕ) → at ≤ length b → split_to b at ≡ take at b

-- `std::io::Error`, of the kinds that the program makes: `Other` boxes an error of the stream that
-- is read, `UnexpectedEof` is `read_exact`'s, `InvalidData` boxes the error of the cipher, which
-- carries nothing.
pub data IoError (X : Type 0) : Type 0 where
  other : X → IoError X
  unexpected_eof : IoError X
  invalid_data : IoError X

-- What `read_exact` fails with when the bytes run out: the stream's error, or the end.
abbrev pub shortage : {X : Type 0} → Option (IoError X) → IoError X
shortage none = unexpected_eof
shortage (some e) = e

-- tokio-util: `StreamReader::new(stream)`, and tokio: `read_exact(&mut buffer)` on it, which
-- returns the buffer and the reader behind it. `left` are the bytes that the reader has yet to give
-- and `stop` the error behind them.
pub record StreamReader (X : Type 0) : Type 1 where
  pub Reader : Type 0
  pub open_reader : Stream (IoError X) Bytes → Reader
  pub read_exact : Reader → ℕ → Result (IoError X) (Bytes × Reader)
  pub left : Reader → Bytes
  pub stop : Reader → Option (IoError X)
  pub advance : Reader → ℕ → Reader
  pub left_open : (s : Stream (IoError X) Bytes) → left (open_reader s) ≡ bytes_of s
  pub stop_open : (s : Stream (IoError X) Bytes) → stop (open_reader s) ≡ failure s
  pub read_exact_full :
      (r : Reader) (n : ℕ)
      → n ≤ length (left r)
      → read_exact r n ≡ ok (take n (left r), advance r n)
  pub left_advance :
      (r : Reader) (n : ℕ) → n ≤ length (left r) → left (advance r n) ≡ drop n (left r)
  pub stop_advance : (r : Reader) (n : ℕ) → n ≤ length (left r) → stop (advance r n) ≡ stop r
  pub read_exact_short :
      (r : Reader) (n : ℕ) → length (left r) < n → read_exact r n ≡ err (shortage (stop r))
