-- ===== src/Store/Cipher/Nonce.antt =====
-- The nonces of the chunks of a file.
use castella.Prelude.{
  ℕ, ◌+◌, ◌-◌, ◌%◌, ◌<◌, ◌≡◌, ◌≢◌, ap, sym, ◌∙◌, Bytes, length, take, drop, length-append,
  length-take, take-append_le, take_all, drop-append_ge, arith,
}
use castella.Prelude.Words.{u32_mod, add_u32}
use castella.Store.Cipher.{
  ChunkStreamCipher, nonce_size, from_be_bytes, to_be_bytes, get_chunk_nonce,
}

from_be_bytes-to_be_bytes : (x : ℕ) → x < u32_mod → from_be_bytes (to_be_bytes x) ≡ x
from_be_bytes-to_be_bytes x h = omega arith

module _ (c : ChunkStreamCipher) (full : length c.nonce ≡ nonce_size) where
  prefix_length : length (take 20 c.nonce) ≡ 20
  prefix_length = omega (arith, length-take 20 c.nonce)

  nonce_suffix :
      (i : ℕ)
      → drop 20 (get_chunk_nonce c i) ≡ to_be_bytes (add_u32 (from_be_bytes (drop 20 c.nonce)) i)
  unfolding get_chunk_nonce
  nonce_suffix i =
      let suffix = to_be_bytes (add_u32 (from_be_bytes (drop 20 c.nonce)) i) in
      let e : 20 - length (take 20 c.nonce) ≡ 0 = omega (arith, prefix_length) in
      drop-append_ge 20 (take 20 c.nonce) suffix (omega (arith, prefix_length))
      ∙ ap (λ k. drop k suffix) e

  -- For a nonce of 24 bytes, the nonce of every chunk has 24 bytes, begins with the first 20 bytes of the
  -- file's nonce, and ends in the 4 bytes of the sum modulo 2 ^ 32 of the file's last 4 and the index.
  pub get_chunk_nonce-layout :
      (i : ℕ)
      → (length (get_chunk_nonce c i) ≡ nonce_size)
        × (take 20 (get_chunk_nonce c i) ≡ take 20 c.nonce)
        × (from_be_bytes (drop 20 (get_chunk_nonce c i))
            ≡ (from_be_bytes (drop 20 c.nonce) + i) % u32_mod)
  get_chunk_nonce-layout i =
      let suffix = to_be_bytes (add_u32 (from_be_bytes (drop 20 c.nonce)) i) in
      (
        unfold get_chunk_nonce in
            omega (arith, length-append (take 20 c.nonce) suffix, prefix_length),
        unfold get_chunk_nonce in
            take-append_le 20 (take 20 c.nonce) suffix (omega (arith, prefix_length))
            ∙ take_all 20 (take 20 c.nonce) (omega (arith, prefix_length)),
        rw nonce_suffix (from_be_bytes-to_be_bytes _ (omega arith)),
      )

  -- For a nonce of 24 bytes, two chunks of a file with different indices below 2 ^ 32 are encrypted
  -- under different nonces.
  pub get_chunk_nonce-ne :
      (i j : ℕ) → i < u32_mod → j < u32_mod → i ≢ j → get_chunk_nonce c i ≢ get_chunk_nonce c j
  get_chunk_nonce-ne i j hi hj different same =
      let e = ap (λ (b : Bytes). from_be_bytes (drop 20 b)) same in
      let x = from_be_bytes (drop 20 c.nonce) in
      different (omega (arith, sym (get_chunk_nonce-layout i).2 ∙ e ∙ (get_chunk_nonce-layout j).2))
