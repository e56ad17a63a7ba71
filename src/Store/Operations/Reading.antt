-- ===== src/Store/Operations/Reading.antt =====
-- `get` reads what was uploaded.
use castella.Prelude.{
  ℕ, ◌-◌, ◌≤◌, ◌<◌, ◌≡◌, refl, sym, Option, none, some, ok, true, Bytes, length, take, drop, concat,
  ◌==◌, ==_iff, arith,
}
use castella.Prelude.Ranges.{RangeBounds}
use mathlib.Core.Path.{subst}
use castella.Stream.Flow.{bytes_of, failure, bytes_of-map_err_stream, failure-map_err_stream}
use castella.Stream.Library.{Futures, BytesLibrary, StreamReader}
use castella.Drive
use castella.Drive.{Remote, FileResponse}
use castella.Drive.Ranges.{get_file_covers}
use castella.Db
use castella.Db.{Server}
use castella.Db.Rows.{File}
use castella.Store.Cipher.{Aead, ChunkStreamCipher, secret_size, new}
use castella.Store.Content.{content_stream}
use castella.Store.Layout.{
  encrypted_size, requested_range, chunk_range, encrypted_range, content_range,
}
use castella.Store.Layout.Bounds.{max_size, IsWithin, requested_range-IsWithin}
use castella.Store.Content.Sealed.{sealed_file}
use castella.Store.Content.Answer.{get_content_prefix}
use castella.Store.Operations.{Store, encrypted_request, file_data, get_found, get}

module _ {W B X J A : Type 0} (futures : Futures) (bytes : BytesLibrary) (aead : Aead)
    (reader : StreamReader (Drive.Error X J A)) (remote : Remote W B X J A) where
  get_found_ok :
      (file : File) (range : Option RangeBounds) (w : W) (r : FileResponse (Drive.Error X J A))
      → length file.secret ≡ secret_size
      → (Drive.get_file remote (record { id = file.id }) (encrypted_request file range) w).0 ≡ ok r
      → (get_found futures bytes aead reader remote file range w).0
        ≡ ok (some (file_data futures bytes aead reader file range r))
  unfolding get_found
  get_found_ok file range w r h e =
      let t : (length file.secret == secret_size) ≡ true = (==_iff _ _).1 h in rw (t, e) refl

  -- The statement about the content, for a size that is that of `plain`.
  abbrev Reads :
      Option RangeBounds → FileResponse (Drive.Error X J A) → Bytes → ChunkStreamCipher → ℕ → Type 0
  Reads range r plain cipher size =
      let requested = requested_range range size in
      let chunks = chunk_range requested in
      let content =
        content_stream futures bytes aead reader r.stream r.range
          (encrypted_range chunks (encrypted_size size)) chunks (content_range requested chunks)
          cipher in
      let n = requested.end - requested.start in
      (take n (bytes_of content) ≡ take n (drop requested.start plain)) × (failure content ≡ none)

  content-Reads :
      (range : Option RangeBounds) (r : FileResponse (Drive.Error X J A)) (plain : Bytes)
      (cipher : ChunkStreamCipher) (size : ℕ)
      → length plain ≡ size
      → 0 < length plain
      → length plain ≤ max_size
      → bytes_of r.stream
        ≡ take
            (r.range.end - r.range.start)
            (drop r.range.start (concat (sealed_file aead cipher plain)))
      → let encrypted =
          encrypted_range (chunk_range (requested_range range size)) (encrypted_size size) in
        (r.range.start ≤ encrypted.start) × (encrypted.end ≤ r.range.end)
        → Reads range r plain cipher size
  content-Reads range r plain cipher size e pos small holds =
      subst
        (λ k.
          let encrypted =
            encrypted_range (chunk_range (requested_range range k)) (encrypted_size k) in
          (r.range.start ≤ encrypted.start) × (encrypted.end ≤ r.range.end)
          → Reads range r plain cipher k)
        e
        (λ covers.
          get_content_prefix futures bytes aead reader cipher plain small
            (requested_range range (length plain))
            (requested_range-IsWithin range (length plain) pos) r.stream r.range covers.0 covers.1
            holds)

  -- Where the database finds the file of the key, whose secret has 56 bytes and whose size is that of a
  -- file `plain` which is not empty and at most `max_size`, and where the drive answers with a part of
  -- the ciphertext of `plain` under the secret: `get` returns the file, the range that is answered lies
  -- within it, the content begins with exactly the bytes of that range, and it ends without an error.
  pub get_reads :
      (server : Server) (key : ℕ) (range : Option RangeBounds) (s : Store W) (file : File)
      (r : FileResponse (Drive.Error X J A)) (plain : Bytes)
      → (Db.get_file_by_key server key true s.tables).0 ≡ ok (some file)
      → length file.secret ≡ secret_size
      → file.size ≡ length plain
      → 0 < length plain
      → length plain ≤ max_size
      → (Drive.get_file remote (record { id = file.id }) (encrypted_request file range) s.remote).0
        ≡ ok r
      → bytes_of r.stream
        ≡ take
            (r.range.end - r.range.start)
            (drop r.range.start (concat (sealed_file aead (new file.secret) plain)))
      → let data' = file_data futures bytes aead reader file range r in
        let n = data'.range.end - data'.range.start in
        ((get futures bytes aead reader remote server key range s).0 ≡ ok (some data'))
        × (data'.info ≡ file)
        × IsWithin (length plain) data'.range
        × (take n (bytes_of data'.content) ≡ take n (drop data'.range.start plain))
        × (failure data'.content ≡ none)
  unfolding file_data
  get_reads server key range s file r plain found secret size pos small answered holds =
      let content =
        content-Reads range r plain (new file.secret) file.size (sym size) pos small holds (
          unfold encrypted_request in
          get_file_covers remote (record { id = file.id }) (encrypted_request file range) s.remote
            answered) in
      (
        unfold get in rw (found, get) (get_found_ok file range s.remote r secret answered),
        refl,
        rw (← size) (requested_range-IsWithin range file.size (omega arith)),
        rw bytes_of-map_err_stream content.0,
        rw (failure-map_err_stream, content.1) refl,
      )
