-- ===== src/Store/Content/Sealed.antt =====
-- The ciphertext that `upload` makes of a file.
use castella.Prelude.{
  ℕ, zero, suc, ◌+◌, ◌-◌, ◌/◌, ◌≤◌, ◌<◌, ◌≡◌, ap, sym, ◌∙◌, [], ◌∷◌, List, Bytes, length, take,
  concat, length-take, length-drop, arith, Bool-cases, leb, leb→le, leb→lt, inl, inr, drop,
  drop_all,
}
use castella.Stream.Flow.{Stream, bytes_of, items}
use castella.Stream.Library.{Futures, StreamReader}
use castella.Stream.Chunk.Content.{chunk_stream-pieces}
use castella.Stream.Chunk.Pieces.{pieces, pieces-nil, concat-pieces}
use castella.Stream.Chunk.Uniform.{IsUniform, pieces-IsUniform}
use castella.Store.Cipher.{Aead, ChunkStreamCipher, chunk_size}
use castella.Store.CipherStream.{encrypt_stream}
use castella.Store.CipherStream.Content.{
  Small, seal_all, encrypt_stream-seal_all, length-concat-seal_all,
}
use castella.Store.Layout.{encrypted_size}
use castella.Store.Layout.Bounds.{max_size, encrypted_size-exact}
use castella.Store.Content.{upload_stream}

pub IsUniform-Small : (ps : List Bytes) → IsUniform chunk_size ps → Small ps
IsUniform-Small [] h = tt
IsUniform-Small (p ∷ []) h = (h.1, tt)
IsUniform-Small (p ∷ q ∷ ps) h = (omega (arith, h.0), IsUniform-Small (q ∷ ps) h.1)

-- The number of pieces of bytes that are not empty.
pub length-pieces :
    (n : ℕ) (b : Bytes)
    → 0 < length b
    → length b ≤ n
    → length (pieces chunk_size n b) ≡ (length b - 1) / chunk_size + 1
unfolding pieces
length-pieces zero b pos h = absurd (omega arith)
length-pieces (suc n) [] pos h = absurd (omega arith)
length-pieces (suc n) (x ∷ b) pos h = elim (Bool-cases (leb (suc (length b)) chunk_size)) [
  | inl last ↦
      rw (drop_all chunk_size (x ∷ b) (omega (arith, leb→le _ _ last)), pieces-nil chunk_size n)
        (omega (arith, leb→le (suc (length b)) chunk_size last))
  | inr more ↦
      let rest = drop chunk_size (x ∷ b) in
      let e = length-drop chunk_size (x ∷ b) in
      let long = leb→lt (suc (length b)) chunk_size more in
      omega (arith, e, long, length-pieces n rest (omega (arith, e, long)) (omega (arith, e, long)))
]

-- The sealed chunks of a file.
abbrev pub sealed_file : Aead → ChunkStreamCipher → Bytes → List Bytes
sealed_file aead cipher plain = seal_all aead cipher 0 (pieces chunk_size (length plain) plain)

module _ (futures : Futures) (aead : Aead) {X : Type 0} (reader : StreamReader X)
    (cipher : ChunkStreamCipher) where
  -- Where the uploaded stream has `size` bytes in front of any error, the body is the concatenation of
  -- the sealed chunks of those bytes.
  pub upload_stream-sealed :
      (size : ℕ) (content : Stream X Bytes)
      → size ≤ length (bytes_of content)
      → upload_stream futures aead reader size content cipher
        ≡ items (sealed_file aead cipher (take size (bytes_of content)))
  unfolding upload_stream
  upload_stream-sealed size content h =
      let plain = take size (bytes_of content) in
      let e : length plain ≡ size = omega (arith, length-take size (bytes_of content)) in
      let ps = pieces chunk_size size plain in
      ap (λ s. encrypt_stream futures aead s cipher 0)
        (chunk_stream-pieces reader futures size content chunk_size (omega arith) h)
      ∙ encrypt_stream-seal_all aead cipher futures 0 ps (
          IsUniform-Small ps
            (pieces-IsUniform chunk_size size plain (omega arith) (omega (arith, e))))
      ∙ ap (λ n. items (seal_all aead cipher 0 (pieces chunk_size n plain))) (sym e)

-- The ciphertext of a file that is not empty, up to `max_size`, has the length that `upload` announces
-- and `get` computes.
pub length-sealed_file :
    (aead : Aead) (cipher : ChunkStreamCipher) (plain : Bytes)
    → 0 < length plain
    → length plain ≤ max_size
    → length (concat (sealed_file aead cipher plain)) ≡ encrypted_size (length plain)
length-sealed_file aead cipher plain pos small =
    let ps = pieces chunk_size (length plain) plain in
    omega (
      arith,
      length-concat-seal_all aead cipher 0 ps,
      ap length (concat-pieces chunk_size (length plain) plain (omega arith) (omega arith)),
      length-pieces (length plain) plain pos (omega arith),
      encrypted_size-exact (length plain) small,
    )
