-- ===== src/Tests/StoreTests.antt =====
-- The cipher, the ranges and the content of a small file.
use castella.Prelude.{
  ℕ, ◌+◌, ◌-◌, ◌<◌, ◌*◌, List, ◌≤◌, ◌≡◌, ◌≢◌, refl, [], ◌∷◌, none, ok, Bytes, take, drop, concat,
  arith,
}
use castella.Prelude.Ranges.{Range}
use castella.Stream.Flow.{Stream, bytes_of, failure, items}
use castella.Stream.Library.{IoError}
use castella.Stream.Concrete.{futures, bytes_library, stream_reader}
use castella.Store.Concrete.{toy_aead}
use castella.Store.Cipher.{ChunkStreamCipher, new, get_chunk_nonce, chunk_size, decrypt}
use castella.Store.Cipher.Nonce.{get_chunk_nonce-ne}
use castella.Store.Layout.{encrypted_size, chunk_range, encrypted_range, content_range}
use castella.Store.Layout.Bounds.{get_ranges_sound}
use castella.Stream.Slice.{slice_stream}
use castella.Stream.Chunk.{chunk_stream}
use castella.Stream.Chunk.Pieces.{pieces}
use castella.Store.CipherStream.{encrypt_stream, decrypt_stream}
use castella.Store.CipherStream.Content.{seal_all, decrypt_stream-encrypt_stream}
use castella.Store.Content.{upload_stream, content_stream}
use castella.Store.Content.Sealed.{sealed_file, upload_stream-sealed}
use castella.Store.Content.Answer.{get_content_prefix, get_content_aligned}

abbrev secret : Bytes
secret =
    0 ∷ 1 ∷ 2 ∷ 3 ∷ 4 ∷ 5 ∷ 6 ∷ 7 ∷ 0 ∷ 1 ∷ 2 ∷ 3 ∷ 4 ∷ 5 ∷ 6 ∷ 7 ∷ 0 ∷ 1 ∷ 2 ∷ 3 ∷ 4 ∷ 5 ∷ 6 ∷ 7
    ∷ 0 ∷ 1 ∷ 2 ∷ 3 ∷ 4 ∷ 5 ∷ 6 ∷ 7 ∷ 0 ∷ 1 ∷ 2 ∷ 3 ∷ 4 ∷ 5 ∷ 6 ∷ 7 ∷ 0 ∷ 1 ∷ 2 ∷ 3 ∷ 4 ∷ 5 ∷ 6 ∷ 7
    ∷ 0 ∷ 1 ∷ 2 ∷ 3 ∷ 255 ∷ 255 ∷ 255 ∷ 255 ∷ []

abbrev cipher : ChunkStreamCipher
cipher = record { key = take 32 secret; nonce = drop 32 secret }

new-secret : new secret ≡ cipher
unfolding new
new-secret = refl

-- The index is added modulo 2 ^ 32.
nonce_wraps : drop 20 (get_chunk_nonce cipher 2) ≡ 0 ∷ 0 ∷ 0 ∷ 1 ∷ []
unfolding get_chunk_nonce
nonce_wraps = refl

get_chunk_nonce-ne_example : get_chunk_nonce cipher 0 ≢ get_chunk_nonce cipher 1
get_chunk_nonce-ne_example =
    get_chunk_nonce-ne cipher refl 0 1 (omega arith) (omega arith) (omega arith)

abbrev plain : Bytes
plain = 10 ∷ 11 ∷ 12 ∷ 13 ∷ 14 ∷ []

abbrev stored : Bytes
stored = concat (sealed_file toy_aead cipher plain)

-- The drive answers with the whole encrypted file, in two pieces.
abbrev reply : Stream ℕ Bytes
reply = ok (take 3 stored) ∷ ok (drop 3 stored) ∷ []

abbrev whole : Range
whole = record { start = 0; end = 21 }

abbrev middle : Range
middle = record { start = 1; end = 3 }

abbrev answer : Range → Stream (IoError ℕ) Bytes
answer r =
    content_stream futures bytes_library toy_aead (stream_reader ℕ) reply whole
      (encrypted_range (chunk_range r) (encrypted_size 5)) (chunk_range r)
      (content_range r (chunk_range r)) cipher

reply_holds : bytes_of reply ≡ take (21 - 0) (drop 0 stored)
unfolding seal_all pieces toy_aead get_chunk_nonce
reply_holds = refl

-- What the final trimming leaves is more than the range.
overrun : answer middle ≡ ok (11 ∷ 12 ∷ 13 ∷ 14 ∷ []) ∷ []
unfolding content_stream futures bytes_library stream_reader toy_aead encrypted_range chunk_range
    encrypted_size content_range seal_all pieces get_chunk_nonce slice_stream chunk_stream
    decrypt_stream decrypt
overrun = refl

get_content_prefix_example :
    (take 2 (bytes_of (answer middle)) ≡ take 2 (drop 1 plain)) × (failure (answer middle) ≡ none)
unfolding encrypted_range chunk_range encrypted_size
get_content_prefix_example =
    get_content_prefix futures bytes_library toy_aead (stream_reader ℕ) cipher plain (omega arith)
      middle (omega arith) reply whole (omega arith) (omega arith) reply_holds

get_content_aligned_example :
    bytes_of (answer (record { start = 0; end = 2 })) ≡ take 2 (drop 0 plain)
unfolding encrypted_range chunk_range encrypted_size
get_content_aligned_example =
    get_content_aligned futures bytes_library toy_aead (stream_reader ℕ) cipher plain (omega arith)
      (record { start = 0; end = 2 }) (omega arith) reply whole (omega arith) (omega arith)
      reply_holds refl

upload_stream-sealed_example :
    upload_stream futures toy_aead
      (stream_reader ℕ)
      5
      (ok (10 ∷ 11 ∷ 12 ∷ []) ∷ ok (13 ∷ 14 ∷ 15 ∷ []) ∷ [])
      cipher
    ≡ items (sealed_file toy_aead cipher plain)
upload_stream-sealed_example =
    upload_stream-sealed futures toy_aead (stream_reader ℕ) cipher 5
      (ok (10 ∷ 11 ∷ 12 ∷ []) ∷ ok (13 ∷ 14 ∷ 15 ∷ []) ∷ []) (omega arith)

get_ranges_sound_example :
    let chunks = chunk_range middle in
    let encrypted = encrypted_range chunks (encrypted_size 5) in
    let content = content_range middle chunks in
    (chunks.start * chunk_size ≤ middle.start)
    × (middle.start < (chunks.start + 1) * chunk_size)
    × (middle.end ≤ chunks.end * chunk_size)
    × ((chunks.end - 1) * chunk_size < middle.end)
    × (encrypted.start < encrypted.end)
    × (encrypted.end ≤ encrypted_size 5)
    × (content.start < chunk_size)
    × (content.end - content.start ≡ middle.end - middle.start)
get_ranges_sound_example = get_ranges_sound 5 (omega arith) middle (omega arith)

abbrev odd_chunks : List Bytes
odd_chunks = (1 ∷ 2 ∷ []) ∷ [] ∷ (3 ∷ []) ∷ []

-- The index wraps around behind the first chunk.
decrypt_stream-encrypt_stream_example :
    decrypt_stream futures toy_aead {X = ℕ}
      (encrypt_stream futures toy_aead {X = ℕ} (items odd_chunks) cipher 4294967295)
      cipher
      4294967295
    ≡ items odd_chunks
decrypt_stream-encrypt_stream_example =
    decrypt_stream-encrypt_stream toy_aead cipher futures 4294967295 odd_chunks
      (omega arith, (omega arith, (omega arith, tt)))
