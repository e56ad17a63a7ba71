-- ===== src/Store/Content/Answer.antt =====
-- What `get` gives of what `upload` stored.
use castella.Prelude.{
  ℕ, ◌+◌, ◌-◌, ◌*◌, ◌/◌, ◌%◌, ◌≤◌, ◌<◌, ◌≡◌, refl, ap, sym, ◌∙◌, [], none, Bytes, length, take,
  drop, concat, length-take, length-drop, take_all, arith, take-take, drop-drop, drop-take,
}
use castella.Prelude.Words.{u64_mod, sub_u64, add_u64}
use castella.Prelude.Ranges.{Range}
use castella.Stream.Flow.{Stream, bytes_of, failure, items, bytes_of-items, failure-items}
use castella.Stream.Library.{Futures, BytesLibrary, IoError, StreamReader}
use castella.Stream.Slice.{slice_stream}
use castella.Stream.Slice.Range.{slice_prefix, slice_no_failure, slice_at_boundary, slice_to_end}
use castella.Stream.Chunk.{chunk_stream}
use castella.Stream.Chunk.Pieces.{pieces}
use castella.Store.Cipher.{Aead, ChunkStreamCipher, chunk_size, encrypted_chunk_size}
use castella.Store.CipherStream.{decrypt_stream}
use castella.Store.Layout.{encrypted_size, chunk_range, encrypted_range, content_range}
use castella.Store.Layout.Bounds.{
  max_size, IsWithin, chunk_range-exact, encrypted_range-exact, content_range-exact,
  encrypted_size-exact,
}
use castella.Store.Content.{content_stream}
use castella.Store.Content.Sealed.{sealed_file, length-sealed_file}
use castella.Store.Content.Chunks.{
  some_plain, some_sealed, ciphertext_cut, plain_cut, decrypt_cut, read_view,
}

module _ (futures : Futures) (bytes : BytesLibrary) (aead : Aead) {X : Type 0}
    (reader : StreamReader X) where
  -- Where nothing wraps around, the computed positions are those of the ranges.
  content_stream_positions :
      (s : Stream X Bytes) (response encrypted chunks content : Range) (cipher : ChunkStreamCipher)
      → response.start ≤ encrypted.start
      → encrypted.start ≤ encrypted.end
      → encrypted.end < u64_mod
      → let skip = encrypted.start - response.start in
        let count = encrypted.end - encrypted.start in
        content_stream futures bytes aead reader s response encrypted chunks content cipher
        ≡ slice_stream futures bytes
            (decrypt_stream futures aead
              (chunk_stream reader futures count
                (slice_stream futures bytes s skip (skip + count))
                encrypted_chunk_size)
              cipher
              chunks.start)
            content.start
            content.end
  unfolding content_stream
  content_stream_positions s response encrypted chunks content cipher before ordered small =
      let skip = encrypted.start - response.start in
      let count = encrypted.end - encrypted.start in
      let e : sub_u64 encrypted.start response.start ≡ skip = omega arith in
      let d : sub_u64 encrypted.end encrypted.start ≡ count = omega arith in
      let f : add_u64 skip count ≡ skip + count = omega arith in
      let g : sub_u64 (skip + count) skip ≡ count = omega arith in rw (e, d, f, g) refl

  module _ (cipher : ChunkStreamCipher) (plain : Bytes) (small : length plain ≤ max_size)
      (r : Range) (within : IsWithin (length plain) r) (s : Stream X Bytes) (response : Range) where
    abbrev total : ℕ
    total = encrypted_size (length plain)

    abbrev ciphertext : Bytes
    ciphertext = concat (sealed_file aead cipher plain)

    abbrev encrypted : Range
    encrypted = encrypted_range (chunk_range r) total

    abbrev first : ℕ
    first = r.start / chunk_size

    abbrev behind : ℕ
    behind = (r.end - 1) / chunk_size + 1

    abbrev answer : Stream (IoError X) Bytes
    answer =
        content_stream futures bytes aead reader s response encrypted (chunk_range r)
          (content_range r (chunk_range r)) cipher

    abbrev trimmed : Stream (IoError X) Bytes → Stream (IoError X) Bytes
    trimmed v =
        slice_stream futures bytes v (content_range r (chunk_range r)).start
          (content_range r (chunk_range r)).end

    -- The decrypted stream has exactly the chunks of the range.
    answer_chunks :
        response.start ≤ encrypted.start
        → encrypted.end ≤ response.end
        → bytes_of s ≡ take (response.end - response.start) (drop response.start ciphertext)
        → answer
          ≡ slice_stream futures bytes
              (items (some_plain aead cipher plain first (behind - first)))
              (r.start - first * chunk_size)
              (r.start - first * chunk_size + (r.end - r.start))
    answer_chunks before after holds =
        let size = length-sealed_file aead cipher plain (omega arith) small in
        let exact = encrypted_size-exact (length plain) small in
        let at = encrypted_range-exact (length plain) small r within total in
        let chunks = chunk_range-exact (length plain) small r within in
        let content = content_range-exact (length plain) small r within in
        let count = encrypted.end - encrypted.start in
        let cut : take count (drop encrypted.start ciphertext)
            ≡ concat (some_sealed aead cipher plain first (behind - first)) =
          rw (at.0, at.1) (ciphertext_cut aead cipher plain first behind total size) in
        content_stream_positions s response encrypted (chunk_range r)
          (content_range r (chunk_range r)) cipher before (omega (arith, at, exact))
          (omega (arith, at, exact))
        ∙ ap (λ v. trimmed (decrypt_stream futures aead v cipher (chunk_range r).start))
            (read_view futures bytes reader ciphertext s response encrypted encrypted_chunk_size
                (omega arith) before (omega (arith, at, exact)) after (omega (arith, at, size))
                (omega (arith, at, exact)) holds
              ∙ ap (λ b. items (pieces encrypted_chunk_size count b)) cut)
        ∙ ap
            (λ i. trimmed (
              decrypt_stream futures aead
                (items (
                  pieces encrypted_chunk_size count
                    (concat (some_sealed aead cipher plain first (behind - first)))))
                cipher i))
            chunks.0
        ∙ ap trimmed (
            decrypt_cut aead cipher plain futures first (behind - first) count (omega arith) (
              omega
                (arith, ap length (sym cut), length-take count (drop encrypted.start ciphertext))))
        ∙ rw (content.0, content.1) refl

    chunks_bytes :
        bytes_of (items {E = IoError X} (some_plain aead cipher plain first (behind - first)))
        ≡ take ((behind - first) * chunk_size) (drop (first * chunk_size) plain)
    chunks_bytes =
        bytes_of-items (IoError X) (some_plain aead cipher plain first (behind - first))
        ∙ plain_cut aead cipher plain first (behind - first)

    -- The requested bytes, cut out of those of the chunks.
    chunks_cut :
        take (r.end - r.start) (
          drop
            (r.start - first * chunk_size)
            (take ((behind - first) * chunk_size) (drop (first * chunk_size) plain)))
        ≡ take (r.end - r.start) (drop r.start plain)
    chunks_cut =
        let inner = r.start - first * chunk_size in
        let width = (behind - first) * chunk_size in
        let at : first * chunk_size + inner ≡ r.start = omega arith in
        ap (take (r.end - r.start)) (drop-take inner width (drop (first * chunk_size) plain))
        ∙ take-take (r.end - r.start) (width - inner) (drop inner (drop (first * chunk_size) plain))
            (omega arith)
        ∙ ap (take (r.end - r.start))
            (drop-drop inner (first * chunk_size) plain ∙ ap (λ k. drop k plain) at)

    module _ (before : response.start ≤ encrypted.start) (after : encrypted.end ≤ response.end)
        (holds : bytes_of s
          ≡ take (response.end - response.start) (drop response.start ciphertext)) where
      -- For a file of at most `max_size` bytes, a range within it, and a response of the drive that holds
      -- a part of the file's ciphertext around the encrypted range: the content that `get` streams begins
      -- with exactly the requested bytes of the file, and it ends without an error.
      pub get_content_prefix :
          (take (r.end - r.start) (bytes_of answer) ≡ take (r.end - r.start) (drop r.start plain))
          × (failure answer ≡ none)
      get_content_prefix =
          let inner = r.start - first * chunk_size in
          let chunks =
            items {E = IoError X} (some_plain aead cipher plain first (behind - first)) in
          let n : inner + (r.end - r.start) - inner ≡ r.end - r.start = omega arith in
          rw (answer_chunks before after holds) (
            rw n at (
                  slice_prefix futures bytes chunks inner (inner + (r.end - r.start)) (omega arith)
                    (omega arith))
                ∙ ap (λ b. take (r.end - r.start) (drop inner b)) chunks_bytes
                ∙ chunks_cut,
            slice_no_failure futures bytes chunks inner (inner + (r.end - r.start))
                (failure-items (IoError X) (some_plain aead cipher plain first (behind - first))),
          )

      -- Under the same conditions, where the range begins at a multiple of the chunk size, the content is
      -- the requested bytes and no more.
      pub get_content_aligned :
          r.start % chunk_size ≡ 0 → bytes_of answer ≡ take (r.end - r.start) (drop r.start plain)
      get_content_aligned aligned =
          let chunks =
            items {E = IoError X} (some_plain aead cipher plain first (behind - first)) in
          let inner : r.start - first * chunk_size ≡ 0 = omega arith in
          let n : 0 + (r.end - r.start) ≡ r.end - r.start = omega arith in
          let m : r.end - r.start - 0 ≡ r.end - r.start = omega arith in
          rw (answer_chunks before after holds, inner, n)
            (rw m at (
                slice_at_boundary futures bytes [] chunks (r.end - r.start) (omega arith)
                  (omega arith))
              ∙ ap (take (r.end - r.start)) chunks_bytes
              ∙ rw inner at chunks_cut)

      -- Under the same conditions, where the range ends at the end of the file, the content is the requested
      -- bytes and no more.
      pub get_content_to_end : r.end ≡ length plain → bytes_of answer ≡ drop r.start plain
      get_content_to_end last =
          let inner = r.start - first * chunk_size in
          let width = (behind - first) * chunk_size in
          let chunks =
            items {E = IoError X} (some_plain aead cipher plain first (behind - first)) in
          let at : first * chunk_size + inner ≡ r.start = omega arith in
          rw (answer_chunks before after holds) (
            slice_to_end futures bytes chunks inner (inner + (r.end - r.start)) (omega arith)
              (omega arith)
              (omega (
                arith,
                ap length chunks_bytes,
                length-take width (drop (first * chunk_size) plain),
                length-drop (first * chunk_size) plain,
              ))
            ∙ ap (drop inner) chunks_bytes
            ∙ drop-take inner width (drop (first * chunk_size) plain)
            ∙ take_all (width - inner) (drop inner (drop (first * chunk_size) plain)) (
                omega (
                  arith,
                  length-drop inner (drop (first * chunk_size) plain),
                  length-drop (first * chunk_size) plain,
                ))
            ∙ drop-drop inner (first * chunk_size) plain
            ∙ ap (λ k. drop k plain) at)
