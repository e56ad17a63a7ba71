-- ===== src/Store/CipherStream.antt =====
-- `encrypt_stream` and `decrypt_stream` of src/store.rs: a chunk is one message.
pub mod Content
use castella.Prelude.{
  ℕ, suc, [], ◌∷◌, Option, none, some, Result, ok, err, map_err, Bytes, length, ◌>>=◌,
}
use castella.Prelude.Words.{add_u32}
use castella.Stream.Flow.{Stream}
use castella.Stream.Library.{Futures, IoError, invalid_data}
use castella.Store.Cipher.{Aead, CipherError, ChunkStreamCipher, encrypt, decrypt}

-- `State` of both functions.
pub record CipherState (X : Type 0) : Type 0 where
  pub stream : Stream (IoError X) Bytes
  pub cipher : ChunkStreamCipher
  pub chunk_id : ℕ

module _ {X : Type 0} where
  -- What the two closures share: the next chunk goes through `f`, whose error becomes `InvalidData`.
  unfoldable pub convert_next :
      (ℕ → Bytes → Result CipherError Bytes)
      → Stream (IoError X) Bytes
      → ChunkStreamCipher
      → ℕ
      → Result (IoError X) (Option (Bytes × CipherState X))
  convert_next f [] cipher chunk_id = ok none
  convert_next f (err e ∷ stream) cipher chunk_id = err e
  convert_next f (ok buf ∷ stream) cipher chunk_id = do
    chunk ← map_err (λ _. invalid_data) (f chunk_id buf)
    ok (some (chunk, record { stream = stream; cipher = cipher; chunk_id = add_u32 chunk_id 1 }))

module _ (aead : Aead) {X : Type 0} where
  unfoldable pub encrypt_step : CipherState X → Result (IoError X) (Option (Bytes × CipherState X))
  unfolding convert_next
  encrypt_step s = convert_next (encrypt aead s.cipher) s.stream s.cipher s.chunk_id

  unfoldable pub decrypt_step : CipherState X → Result (IoError X) (Option (Bytes × CipherState X))
  unfolding convert_next
  decrypt_step s = convert_next (decrypt aead s.cipher) s.stream s.cipher s.chunk_id

module _ (futures : Futures) (aead : Aead) {X : Type 0} where
  -- Both are polled to their ends: a poll that gives a chunk takes one.
  unfoldable pub encrypt_stream :
      Stream (IoError X) Bytes → ChunkStreamCipher → ℕ → Stream (IoError X) Bytes
  unfolding encrypt_step
  encrypt_stream stream cipher chunk_id =
      futures.try_unfold (suc (length stream)) (encrypt_step aead)
        (record { stream = stream; cipher = cipher; chunk_id = chunk_id })

  unfoldable pub decrypt_stream :
      Stream (IoError X) Bytes → ChunkStreamCipher → ℕ → Stream (IoError X) Bytes
  unfolding decrypt_step
  decrypt_stream stream cipher chunk_id =
      futures.try_unfold (suc (length stream)) (decrypt_step aead)
        (record { stream = stream; cipher = cipher; chunk_id = chunk_id })
