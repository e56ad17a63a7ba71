-- ===== src/Store/Cipher.antt =====
-- `ChunkStreamCipher` of src/store.rs: a key and a nonce from the secret, and a nonce for each chunk.
pub mod Nonce
use castella.Prelude.{
  ℕ, zero, suc, ◌+◌, ◌*◌, ◌/◌, ◌%◌, ◌^◌, ◌≤◌, ◌≡◌, [], ◌∷◌, ◌++◌, Result, ok, err, map_err, Bytes,
  length, take, drop,
}
use castella.Prelude.Words.{add_u32}

abbrev pub key_size : ℕ
key_size = 32

abbrev pub nonce_size : ℕ
nonce_size = 24

abbrev pub tag_size : ℕ
tag_size = 16

abbrev pub secret_size : ℕ
secret_size = key_size + nonce_size

-- `CHUNK_SIZE`, 1 MiB, and `ENCRYPTED_CHUNK_SIZE`.
abbrev pub chunk_size : ℕ
chunk_size = 1024 * 1024

abbrev pub encrypted_chunk_size : ℕ
encrypted_chunk_size = chunk_size + tag_size

-- `aead::Error`, which is opaque by design, and the wrapper around it.
pub data AeadError : Type 0 where
  opaque : AeadError

pub data CipherError : Type 0 where
  cipher_error : AeadError → CipherError

-- The crate chacha20poly1305: `XChaCha20Poly1305::new(key)` with `encrypt(nonce, message)` and
-- `decrypt(nonce, message)`. A message of a chunk's size is encrypted, the ciphertext is longer by the
-- tag, and decryption under the same key and nonce gives the message back.
pub record Aead : Type 0 where
  pub encrypt : Bytes → Bytes → Bytes → Result AeadError Bytes
  pub decrypt : Bytes → Bytes → Bytes → Result AeadError Bytes
  pub sealed : Bytes → Bytes → Bytes → Bytes
  pub encrypt_lem :
      (key nonce message : Bytes)
      → length message ≤ chunk_size
      → encrypt key nonce message ≡ ok (sealed key nonce message)
  pub length-sealed :
      (key nonce message : Bytes) → length (sealed key nonce message) ≡ length message + tag_size
  pub decrypt-sealed :
      (key nonce message : Bytes)
      → length message ≤ chunk_size
      → decrypt key nonce (sealed key nonce message) ≡ ok message

-- `ChunkStreamCipher`. The field `cipher` is the key that `XChaCha20Poly1305::new` is given.
pub record ChunkStreamCipher : Type 0 where
  pub key : Bytes
  pub nonce : Bytes

-- `ChunkStreamCipher::new`: the secret is split at the key's size.
unfoldable pub new : Bytes → ChunkStreamCipher
new secret = record { key = take key_size secret; nonce = drop key_size secret }

-- `u32::from_be_bytes`, `u32::to_be_bytes`
abbrev pub from_be_bytes : Bytes → ℕ
from_be_bytes (a ∷ b ∷ c ∷ d ∷ []) = ((a * 256 + b) * 256 + c) * 256 + d
from_be_bytes _ = 0

abbrev pub to_be_bytes : ℕ → Bytes
to_be_bytes x = (x / 2 ^ 24 % 256) ∷ (x / 2 ^ 16 % 256) ∷ (x / 2 ^ 8 % 256) ∷ (x % 256) ∷ []

-- `get_chunk_nonce`: the chunk's index is added to the last 4 bytes.
unfoldable pub get_chunk_nonce : ChunkStreamCipher → ℕ → Bytes
get_chunk_nonce c chunk_id =
    let prefix = take 20 c.nonce in
    let suffix = to_be_bytes (add_u32 (from_be_bytes (drop 20 c.nonce)) chunk_id) in
    prefix ++ suffix

module _ (aead : Aead) where
  unfoldable pub encrypt : ChunkStreamCipher → ℕ → Bytes → Result CipherError Bytes
  unfolding get_chunk_nonce
  encrypt c chunk_id chunk =
      map_err cipher_error (aead.encrypt c.key (get_chunk_nonce c chunk_id) chunk)

  unfoldable pub decrypt : ChunkStreamCipher → ℕ → Bytes → Result CipherError Bytes
  unfolding get_chunk_nonce
  decrypt c chunk_id chunk =
      map_err cipher_error (aead.decrypt c.key (get_chunk_nonce c chunk_id) chunk)
