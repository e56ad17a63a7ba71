-- ===== src/Stream/Chunk.antt =====
-- `chunk_stream` of src/stream.rs: a stream cut anew, into chunks of one size.
pub mod Pieces
pub mod Uniform
pub mod Content
use castella.Prelude.{
  ℕ, suc, ◌-◌, min, Option, none, some, Result, ok, err, Bytes, ◌==◌, if◌then◌else◌, ◌>>=◌,
}
use castella.Stream.Flow.{Stream, map_err_stream}
use castella.Stream.Library.{Futures, IoError, other, StreamReader}

module _ {X : Type 0} (library : StreamReader X) where
  -- `State` of `chunk_stream`.
  pub record ChunkState : Type 0 where
    pub reader : library.Reader
    pub chunk_size : ℕ
    pub remaining : ℕ

  -- The closure given to `try_unfold`. A usize has the 64 bits of a u64.
  unfoldable pub chunk_step : ChunkState → Result (IoError X) (Option (Bytes × ChunkState))
  chunk_step s =
      let read = min s.remaining s.chunk_size in
      if read == 0
      then ok none
      else (library.read_exact s.reader read >>= λ (buffer, reader). ok (
          some (
            buffer,
            record { reader = reader; chunk_size = s.chunk_size; remaining = s.remaining - read },
          )))

  -- `chunk_stream(size, stream, chunk_size)`, polled to its end: a poll that gives a chunk takes a byte
  -- of `remaining` at least.
  unfoldable pub chunk_stream : Futures → ℕ → Stream X Bytes → ℕ → Stream (IoError X) Bytes
  unfolding chunk_step
  chunk_stream futures size stream chunk_size = futures.try_unfold (suc size) chunk_step (record {
    reader = library.open_reader (map_err_stream other stream);
    chunk_size = chunk_size;
    remaining = size;
  })
