-- ===== src/Store/CipherStream/Content.antt =====
-- What the two streams give: sealed chunks, and the chunks again.
use castella.Prelude.{
  ℕ, zero, suc, ◌+◌, ◌≤◌, ◌<◌, ◌*◌, ◌≡◌, refl, ap, ◌∙◌, [], ◌∷◌, List, ok, Bytes, length, arith,
  length-append, concat, take, drop,
}
use castella.Prelude.Words.{add_u32, u32_mod}
use castella.Stream.Chunk.Uniform.{IsUniform}
use castella.Stream.Flow.{Stream, items, length-items}
use castella.Stream.Library.{Futures, IoError}
use castella.Store.Cipher.{
  Aead, ChunkStreamCipher, chunk_size, encrypted_chunk_size, tag_size, get_chunk_nonce, encrypt,
  decrypt,
}
use castella.Store.CipherStream.{
  CipherState, encrypt_step, decrypt_step, encrypt_stream, decrypt_stream,
}

-- No chunk is longer than `CHUNK_SIZE`.
abbrev pub Small : List Bytes → Type 0
Small [] = Unit
Small (p ∷ ps) = (length p ≤ chunk_size) × Small ps

module _ (aead : Aead) (cipher : ChunkStreamCipher) where
  -- Each chunk sealed under the nonce of its index.
  unfoldable pub seal_all : ℕ → List Bytes → List Bytes
  seal_all id [] = []
  seal_all id (p ∷ ps) =
      aead.sealed cipher.key (get_chunk_nonce cipher id) p ∷ seal_all (add_u32 id 1) ps

  pub length-seal_all : (id : ℕ) (ps : List Bytes) → length (seal_all id ps) ≡ length ps
  unfolding seal_all
  length-seal_all id [] = refl
  length-seal_all id (p ∷ ps) = ap suc (length-seal_all (add_u32 id 1) ps)

  -- One tag for each chunk.
  pub length-concat-seal_all :
      (id : ℕ) (ps : List Bytes)
      → length (concat (seal_all id ps)) ≡ length (concat ps) + tag_size * length ps
  unfolding seal_all
  length-concat-seal_all id [] = refl
  length-concat-seal_all id (p ∷ ps) = omega (
    arith,
    length-append (aead.sealed cipher.key (get_chunk_nonce cipher id) p)
        (concat (seal_all (add_u32 id 1) ps)),
    length-append p (concat ps),
    aead.length-sealed cipher.key (get_chunk_nonce cipher id) p,
    length-concat-seal_all (add_u32 id 1) ps,
  )

  -- The chunks behind the first `n` carry on with the indices from `n`.
  pub drop-seal_all :
      (n id : ℕ) (ps : List Bytes)
      → id + n < u32_mod
      → drop n (seal_all id ps) ≡ seal_all (id + n) (drop n ps)
  unfolding seal_all
  drop-seal_all zero id ps h = ap (λ k. seal_all k ps) (omega arith)
  drop-seal_all (suc n) id [] h = refl
  drop-seal_all (suc n) id (p ∷ ps) h =
      drop-seal_all n (add_u32 id 1) ps (omega arith)
      ∙ ap (λ k. seal_all k (drop n ps)) (omega arith)

  pub take-seal_all :
      (n id : ℕ) (ps : List Bytes) → take n (seal_all id ps) ≡ seal_all id (take n ps)
  unfolding seal_all
  take-seal_all zero id ps = refl
  take-seal_all (suc n) id [] = refl
  take-seal_all (suc n) id (p ∷ ps) =
      ap (λ r. aead.sealed cipher.key (get_chunk_nonce cipher id) p ∷ r)
        (take-seal_all n (add_u32 id 1) ps)

  pub seal_all-IsUniform :
      (id : ℕ) (ps : List Bytes)
      → IsUniform chunk_size ps
      → IsUniform encrypted_chunk_size (seal_all id ps)
  unfolding seal_all
  seal_all-IsUniform id [] h = tt
  seal_all-IsUniform id (p ∷ []) h =
      let e = aead.length-sealed cipher.key (get_chunk_nonce cipher id) p in
      (omega (arith, e), omega (arith, e))
  seal_all-IsUniform id (p ∷ q ∷ ps) h =
      let e = aead.length-sealed cipher.key (get_chunk_nonce cipher id) p in
      (omega (arith, e), seal_all-IsUniform (add_u32 id 1) (q ∷ ps) h.1)

  module _ (futures : Futures) {X : Type 0} where
    abbrev state : Stream (IoError X) Bytes → ℕ → CipherState X
    state s id = record { stream = s; cipher = cipher; chunk_id = id }

    run-encrypt :
        (n id : ℕ) (ps : List Bytes)
        → Small ps
        → length ps < n
        → futures.try_unfold n (encrypt_step aead) (state (items ps) id)
          ≡ items {E = IoError X} (seal_all id ps)
    unfolding encrypt_step encrypt seal_all
    run-encrypt zero id ps small h = absurd (omega arith)
    run-encrypt (suc n) id [] small h = rw futures.try_unfold_suc refl
    run-encrypt (suc n) id (p ∷ ps) small h =
        rw (futures.try_unfold_suc, aead.encrypt_lem _ _ p small.0)
          (ap (λ r. ok (aead.sealed cipher.key (get_chunk_nonce cipher id) p) ∷ r)
            (run-encrypt n (add_u32 id 1) ps small.1 (omega arith)))

    run-decrypt :
        (n id : ℕ) (ps : List Bytes)
        → Small ps
        → length ps < n
        → futures.try_unfold n (decrypt_step aead) (state (items (seal_all id ps)) id)
          ≡ items {E = IoError X} ps
    unfolding decrypt_step decrypt seal_all
    run-decrypt zero id ps small h = absurd (omega arith)
    run-decrypt (suc n) id [] small h = rw futures.try_unfold_suc refl
    run-decrypt (suc n) id (p ∷ ps) small h =
        rw (futures.try_unfold_suc, aead.decrypt-sealed _ _ p small.0)
          (ap (λ r. ok p ∷ r) (run-decrypt n (add_u32 id 1) ps small.1 (omega arith)))

    -- `encrypt_stream` over chunks of at most `CHUNK_SIZE` gives each of them sealed under the nonce of its
    -- index, in their order, and ends without an error.
    pub encrypt_stream-seal_all :
        (id : ℕ) (ps : List Bytes)
        → Small ps
        → encrypt_stream futures aead {X = X} (items ps) cipher id ≡ items (seal_all id ps)
    unfolding encrypt_stream
    encrypt_stream-seal_all id ps small =
        run-encrypt (suc (length (items {E = IoError X} ps))) id ps small
          (omega (arith, length-items (IoError X) ps))

    pub decrypt_stream-seal_all :
        (id : ℕ) (ps : List Bytes)
        → Small ps
        → decrypt_stream futures aead {X = X} (items (seal_all id ps)) cipher id ≡ items ps
    unfolding decrypt_stream
    decrypt_stream-seal_all id ps small =
        run-decrypt (suc (length (items {E = IoError X} (seal_all id ps)))) id ps small
          (omega (arith, length-items (IoError X) (seal_all id ps), length-seal_all id ps))

    -- What `encrypt_stream` makes of chunks of at most `chunk_size` bytes, `decrypt_stream` turns back into
    -- the same chunks, from whichever index both begin, also where the index wraps around.
    pub decrypt_stream-encrypt_stream :
        (id : ℕ) (ps : List Bytes)
        → Small ps
        → decrypt_stream futures aead {X = X}
            (encrypt_stream futures aead {X = X} (items ps) cipher id)
            cipher
            id
          ≡ items ps
    decrypt_stream-encrypt_stream id ps small =
        ap (λ s. decrypt_stream futures aead {X = X} s cipher id)
          (encrypt_stream-seal_all id ps small)
        ∙ decrypt_stream-seal_all id ps small
