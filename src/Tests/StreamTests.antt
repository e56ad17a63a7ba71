-- ===== src/Tests/StreamTests.antt =====
-- `slice_stream` and `chunk_stream` at concrete streams.
use castella.Prelude.{
  ℕ, ◌<◌, ◌≡◌, refl, [], ◌∷◌, List, some, ok, err, Bytes, take, drop, length, arith,
}
use castella.Stream.Flow.{Stream, bytes_of, failure, items, map_option}
use castella.Stream.Library.{other, shortage}
use castella.Stream.Concrete.{futures, bytes_library, stream_reader}
use castella.Stream.Slice.{slice_stream}
use castella.Stream.Slice.Range.{slice_prefix, slice_overruns}
use castella.Stream.Chunk.{chunk_stream}
use castella.Stream.Chunk.Pieces.{pieces}
use castella.Stream.Chunk.Content.{chunk_stream-pieces, chunk_stream_short}

abbrev five : Stream ℕ Bytes
five = ok (1 ∷ 2 ∷ 3 ∷ []) ∷ ok (4 ∷ 5 ∷ []) ∷ []

abbrev front : List Bytes
front = (1 ∷ 2 ∷ 3 ∷ []) ∷ []

abbrev back : Stream ℕ Bytes
back = ok (4 ∷ 5 ∷ []) ∷ []

abbrev broken : Stream ℕ Bytes
broken = ok (1 ∷ 2 ∷ []) ∷ err 7 ∷ []

slice_run : slice_stream futures bytes_library five 1 2 ≡ ok (2 ∷ 3 ∷ []) ∷ ok (4 ∷ []) ∷ []
unfolding slice_stream futures bytes_library
slice_run = refl

slice_prefix_example :
    take 2 (bytes_of (slice_stream futures bytes_library five 1 3))
    ≡ take 2 (drop 1 (bytes_of five))
slice_prefix_example = slice_prefix futures bytes_library five 1 3 (omega arith) (omega arith)

slice_overruns_example : 1 < length (bytes_of (slice_stream futures bytes_library five 1 2))
slice_overruns_example =
    slice_overruns futures bytes_library [] (1 ∷ 2 ∷ 3 ∷ []) (ok (4 ∷ 5 ∷ []) ∷ []) 1 2
      (omega arith) (omega arith) (omega arith) (omega arith) (omega arith)

chunk_stream-pieces_example :
    chunk_stream (stream_reader ℕ) futures 4 five 2 ≡ items (pieces 2 4 (take 4 (bytes_of five)))
chunk_stream-pieces_example =
    chunk_stream-pieces (stream_reader ℕ) futures 4 five 2 (omega arith) (omega arith)

chunk_run :
    chunk_stream (stream_reader ℕ) futures 5 five 2
    ≡ ok (1 ∷ 2 ∷ []) ∷ ok (3 ∷ 4 ∷ []) ∷ ok (5 ∷ []) ∷ []
unfolding chunk_stream futures stream_reader
chunk_run = refl

chunk_stream_short_example :
    failure (chunk_stream (stream_reader ℕ) futures 4 broken 3)
    ≡ some (shortage (map_option other (failure broken)))
chunk_stream_short_example =
    chunk_stream_short (stream_reader ℕ) futures 4 broken 3 (omega arith) (omega arith)
