-- ===== src/Store/Content.antt =====
-- The streams of `Store::upload` and `Store::get` in src/store.rs: the body that goes to the drive, and
-- the content that comes back.
pub mod Sealed
pub mod Chunks
pub mod Answer
use castella.Prelude.{ℕ, Bytes}
use castella.Prelude.Words.{add_u64, sub_u64}
use castella.Prelude.Ranges.{Range}
use castella.Stream.Flow.{Stream}
use castella.Stream.Library.{Futures, BytesLibrary, IoError, StreamReader}
use castella.Stream.Slice.{slice_stream}
use castella.Stream.Chunk.{chunk_stream}
use castella.Store.Cipher.{Aead, ChunkStreamCipher, chunk_size, encrypted_chunk_size}
use castella.Store.CipherStream.{encrypt_stream, decrypt_stream}

module _ (futures : Futures) (aead : Aead) {X : Type 0} (reader : StreamReader X) where
  -- The stream of `upload`: chunks of `CHUNK_SIZE`, encrypted from index 0.
  unfoldable pub upload_stream : ℕ → Stream X Bytes → ChunkStreamCipher → Stream (IoError X) Bytes
  upload_stream size content cipher =
      encrypt_stream futures aead (chunk_stream reader futures size content chunk_size) cipher 0

module _ (futures : Futures) (bytes : BytesLibrary) (aead : Aead) {X : Type 0}
    (reader : StreamReader X) where
  -- The stream of `get`, of the response `stream` that holds the range `response` of the encrypted
  -- file: the encrypted range is cut out, read in encrypted chunks, decrypted, and trimmed.
  unfoldable pub content_stream :
      Stream X Bytes → Range → Range → Range → Range → ChunkStreamCipher → Stream (IoError X) Bytes
  content_stream stream response encrypted chunks content cipher =
      let start = sub_u64 encrypted.start response.start in
      let end = add_u64 start (sub_u64 encrypted.end encrypted.start) in
      let view = slice_stream futures bytes stream start end in
      let chunked = chunk_stream reader futures (sub_u64 end start) view encrypted_chunk_size in
      let decrypted = decrypt_stream futures aead chunked cipher chunks.start in
      slice_stream futures bytes decrypted content.start content.end
