-- ===== src/Store/Content/Chunks.antt =====
-- The chunks of a file in its ciphertext: cut out, read and decrypted.
use castella.Prelude.{
  ℕ, ◌+◌, ◌-◌, ◌*◌, ◌≤◌, ◌<◌, ◌≡◌, ap, sym, ◌∙◌, List, Bytes, length, take, drop, concat,
  length-take, length-drop, min, take_all, arith, take-take, take-take-min, drop-drop, drop-take,
}
use castella.Prelude.Words.{u32_mod, u64_mod}
use castella.Prelude.Ranges.{Range}
use castella.Stream.Flow.{Stream, bytes_of, items}
use castella.Stream.Library.{Futures, BytesLibrary, StreamReader}
use castella.Stream.Slice.{slice_stream}
use castella.Stream.Slice.Range.{slice_prefix}
use castella.Stream.Chunk.{chunk_stream}
use castella.Stream.Chunk.Content.{chunk_stream-pieces}
use castella.Stream.Chunk.Pieces.{pieces, concat-pieces}
use castella.Stream.Chunk.Uniform.{
  IsUniform, IsUniform-take, IsUniform-drop, take-concat, drop-concat, pieces-concat,
  pieces-IsUniform,
}
use castella.Store.Cipher.{Aead, ChunkStreamCipher, chunk_size, encrypted_chunk_size}
use castella.Store.CipherStream.{decrypt_stream}
use castella.Store.CipherStream.Content.{
  seal_all, decrypt_stream-seal_all, drop-seal_all, take-seal_all, seal_all-IsUniform,
}
use castella.Store.Content.Sealed.{IsUniform-Small, sealed_file}

-- A cut at the lesser of two positions, where the bytes end at the other.
take_clip : (n m : ℕ) (b : Bytes) → length b ≡ m → take (min n m) b ≡ take n b
take_clip n m b h =
    let e : min n m ≡ min m n = omega arith in
    rw e (sym (take-take-min n m b) ∙ ap (take n) (take_all m b (omega arith)))

module _ (aead : Aead) (cipher : ChunkStreamCipher) (plain : Bytes) where
  abbrev pub plain_chunks : List Bytes
  plain_chunks = pieces chunk_size (length plain) plain

  plain_chunks-IsUniform : IsUniform chunk_size plain_chunks
  plain_chunks-IsUniform =
      pieces-IsUniform chunk_size (length plain) plain (omega arith) (omega arith)

  pub concat-plain_chunks : concat plain_chunks ≡ plain
  concat-plain_chunks = concat-pieces chunk_size (length plain) plain (omega arith) (omega arith)

  -- The sealed chunks from `first`, `count` at most.
  abbrev pub some_sealed : ℕ → ℕ → List Bytes
  some_sealed first count = take count (drop first (sealed_file aead cipher plain))

  abbrev pub some_plain : ℕ → ℕ → List Bytes
  some_plain first count = take count (drop first plain_chunks)

  -- The encrypted range of whole chunks holds exactly those chunks.
  pub ciphertext_cut :
      (first behind total : ℕ)
      → length (concat (sealed_file aead cipher plain)) ≡ total
      → take
          (min (behind * encrypted_chunk_size) total - first * encrypted_chunk_size)
          (drop (first * encrypted_chunk_size) (concat (sealed_file aead cipher plain)))
        ≡ concat (some_sealed first (behind - first))
  ciphertext_cut first behind total h =
      let size = encrypted_chunk_size in
      let whole = sealed_file aead cipher plain in
      let rest = drop first whole in
      let uniform = seal_all-IsUniform aead cipher 0 plain_chunks plain_chunks-IsUniform in
      let at = drop-concat size first whole uniform in
      let e : min (behind * size) total - first * size
          ≡ min ((behind - first) * size) (total - first * size) =
        omega arith in
      rw (at, e)
        (take_clip ((behind - first) * size) (total - first * size) (concat rest)
            (omega (arith, h, sym (ap length at), length-drop (first * size) (concat whole)))
          ∙ take-concat size (behind - first) rest (IsUniform-drop size first whole uniform))

  -- The plain bytes of whole chunks.
  pub plain_cut :
      (first count : ℕ)
      → concat (some_plain first count)
        ≡ take (count * chunk_size) (drop (first * chunk_size) plain)
  plain_cut first count =
      let rest = drop first plain_chunks in
      sym (
        take-concat chunk_size count rest
          (IsUniform-drop chunk_size first plain_chunks plain_chunks-IsUniform))
      ∙ ap (take (count * chunk_size)) (
          sym (drop-concat chunk_size first plain_chunks plain_chunks-IsUniform)
          ∙ ap (drop (first * chunk_size)) concat-plain_chunks)

  -- Cutting those sealed chunks apart and decrypting them gives the plain chunks.
  module _ (futures : Futures) {X : Type 0} where
    pub decrypt_cut :
        (first count n : ℕ)
        → first < u32_mod
        → length (concat (some_sealed first count)) ≤ n
        → decrypt_stream futures aead {X = X}
            (items (pieces encrypted_chunk_size n (concat (some_sealed first count))))
            cipher
            first
          ≡ items (some_plain first count)
    decrypt_cut first count n h k =
        let uniform = seal_all-IsUniform aead cipher 0 plain_chunks plain_chunks-IsUniform in
        let rest =
          IsUniform-drop encrypted_chunk_size first (sealed_file aead cipher plain) uniform in
        rw
          (pieces-concat encrypted_chunk_size n (some_sealed first count) (omega arith)
            (IsUniform-take encrypted_chunk_size count (drop first (sealed_file aead cipher plain))
              (omega arith) rest)
            k)
          (ap (λ l. decrypt_stream futures aead {X = X} (items l) cipher first)
              (ap (take count) (
                  drop-seal_all aead cipher first 0 plain_chunks (omega arith)
                  ∙ ap (λ i. seal_all aead cipher i (drop first plain_chunks)) zero_add)
                ∙ take-seal_all aead cipher count first (drop first plain_chunks))
            ∙ decrypt_stream-seal_all aead cipher futures first (some_plain first count) (
                IsUniform-Small (some_plain first count) (
                  IsUniform-take chunk_size count (drop first plain_chunks) (omega arith)
                    (IsUniform-drop chunk_size first plain_chunks plain_chunks-IsUniform))))
      where
        zero_add : 0 + first ≡ first
        zero_add = omega arith

module _ (futures : Futures) (bytes : BytesLibrary) {X : Type 0} (reader : StreamReader X) where
  -- A range `encrypted` of the bytes `whole`, cut out of a response that holds a wider range and read in
  -- pieces.
  pub read_view :
      (whole : Bytes) (s : Stream X Bytes) (response encrypted : Range) (size : ℕ)
      → 0 < size
      → response.start ≤ encrypted.start
      → encrypted.start ≤ encrypted.end
      → encrypted.end ≤ response.end
      → encrypted.end ≤ length whole
      → encrypted.end < u64_mod
      → bytes_of s ≡ take (response.end - response.start) (drop response.start whole)
      → let skip = encrypted.start - response.start in
        let count = encrypted.end - encrypted.start in
        chunk_stream reader futures count (slice_stream futures bytes s skip (skip + count)) size
        ≡ items (pieces size count (take count (drop encrypted.start whole)))
  read_view whole s response encrypted size pos before ordered behind inside small holds =
      let skip = encrypted.start - response.start in
      let count = encrypted.end - encrypted.start in
      let view = slice_stream futures bytes s skip (skip + count) in
      let n : skip + count - skip ≡ count = omega arith in
      let at : response.start + skip ≡ encrypted.start = omega arith in
      let cut : take count (bytes_of view) ≡ take count (drop encrypted.start whole) =
        (rw n at (slice_prefix futures bytes s skip (skip + count) (omega arith) (omega arith)))
        ∙ ap (λ b. take count (drop skip b)) holds
        ∙ ap (take count)
            (drop-take skip (response.end - response.start) (drop response.start whole))
        ∙ take-take count (response.end - response.start - skip)
            (drop skip (drop response.start whole)) (omega arith)
        ∙ ap (take count) (drop-drop skip response.start whole ∙ ap (λ k. drop k whole) at) in
      let long : count ≤ length (bytes_of view) = omega (
        arith,
        ap length cut,
        length-take count (bytes_of view),
        length-take count (drop encrypted.start whole),
        length-drop encrypted.start whole,
      ) in
      chunk_stream-pieces reader futures count view size pos long
      ∙ ap (λ b. items (pieces size count b)) cut
