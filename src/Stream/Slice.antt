-- ===== src/Stream/Slice.antt =====
-- `slice_stream` of src/stream.rs: the bytes of a stream in a range.
pub mod Reference
pub mod Content
pub mod Range
use castella.Prelude.{
  ℕ, zero, suc, ◌-◌, min, [], ◌∷◌, Option, none, some, Result, ok, err, Bytes, length, leb, ◌==◌,
  if◌then◌else◌,
}
use castella.Prelude.Words.{sub_u64}
use castella.Stream.Flow.{Stream}
use castella.Stream.Library.{Futures, BytesLibrary}

-- `State` of `slice_stream`.
pub record SliceState (E : Type 0) : Type 0 where
  pub stream : Stream E Bytes
  pub offset : ℕ
  pub limit : ℕ

module _ (bytes : BytesLibrary) {E : Type 0} where
  -- The match on `stream.next()` behind the loop. What `split_to` leaves of the chunk is dropped.
  unfoldable pub take_next : Stream E Bytes → ℕ → ℕ → Result E (Option (Bytes × SliceState E))
  take_next [] offset limit = ok none
  take_next (err e ∷ stream) offset limit = err e
  take_next (ok chunk ∷ stream) offset limit =
      let taken = min limit (length chunk) in
      ok (
        some (
          bytes.split_to chunk taken,
          record { stream = stream; offset = offset; limit = limit - taken },
        ))

  -- The loop `while offset != 0`, and what follows it.
  unfoldable pub skip : Stream E Bytes → ℕ → ℕ → Result E (Option (Bytes × SliceState E))
  unfolding take_next
  skip stream zero limit = if limit == 0 then ok none else take_next stream zero limit
  skip [] (suc offset) limit = ok none
  skip (err e ∷ stream) (suc offset) limit = err e
  skip (ok chunk ∷ stream) (suc offset) limit =
      let size = length chunk in
      let further = skip stream (suc offset - size) limit in
      if leb size (suc offset)
      then further
      else ok (
          some (
            bytes.split_off chunk (suc offset),
            record { stream = stream; offset = 0; limit = limit },
          ))

  -- The closure given to `try_unfold`.
  unfoldable pub slice_step : SliceState E → Result E (Option (Bytes × SliceState E))
  unfolding skip
  slice_step s = skip s.stream s.offset s.limit

-- `slice_stream(stream, start..end)`, polled to its end: a poll that gives an item takes an item of
-- the stream, so one poll more than those is enough.
unfoldable pub slice_stream :
    Futures → BytesLibrary → {E : Type 0} → Stream E Bytes → ℕ → ℕ → Stream E Bytes
unfolding slice_step
slice_stream futures bytes stream start end =
    futures.try_unfold (suc (length stream)) (slice_step bytes)
      (record { stream = stream; offset = start; limit = sub_u64 end start })
