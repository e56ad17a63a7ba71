-- ===== src/Store/Vault/RoundTrip.antt =====
-- What was uploaded is what is read, and a store without files represents the empty map.
use castella.Prelude.{
  ℕ, ◌^◌, ◌<◌, ◌≤◌, ◌≡◌, refl, [], Option, none, some, Result, ok, Bytes, true, false, length,
  concat, ◌==◌, ==_iff,
}
use mathlib.Core.Path.{subst}
use castella.Prelude.Ranges.{RangeBounds}
use castella.Text.{Text}
use castella.Stream.Flow.{Stream, bytes_of, failure}
use castella.Stream.Library.{Futures, BytesLibrary, IoError, StreamReader}
use castella.Stream.Bandwidth.{BandwidthLimiter}
use castella.Drive
use castella.Drive.{Remote, FileResponse}
use castella.Drive.Service.{Service, IsSized, occurs, delimiter}
use castella.Db
use castella.Db.{Server}
use castella.Db.Rows.{File, select_file}
use castella.Store.Cipher.{Aead, secret_size, new}
use castella.Store.Layout.Bounds.{max_size}
use castella.Store.Content.Sealed.{sealed_file}
use castella.Store.Operations.{Store, Error, Random, FileData, encrypted_request, upload, get}
use castella.Store.Vault.{Document, document, Vault, Represents}
use castella.Store.Vault.Answers.{IsPart, get-IsPart}
use castella.Store.Vault.Writing.{upload-Represents}

module _ {W B X J A : Type 0} {remote : Remote W B X J A} (aead : Aead)
    (service : Service remote) where
  -- A store without files represents the map without documents.
  pub empty-Represents :
      (s : Store W) → s.tables.files ≡ [] → Represents aead service s (λ key. none)
  unfolding select_file
  empty-Represents s h = record { valid = rw h tt; distinct = rw h tt; rows = λ key. rw h tt }

module _ {W X J A Y : Type 0} {remote : Remote W (IoError Y) X J A} (aead : Aead)
    (service : Service remote) (futures : Futures) (bytes : BytesLibrary) (reader : StreamReader Y)
    (download_reader : StreamReader (Drive.Error X J A)) (random : Random)
    (searching adding_drive adding reading : Server) (limiter : BandwidthLimiter) (size : ℕ)
    (content_type : Text) (content : Stream Y Bytes) (s : Store W) where
  abbrev uploaded : Result (Error (Drive.Error X J A)) File × Store W
  uploaded =
      upload futures aead reader remote random searching adding_drive adding limiter size
        content_type content s

  doc_same : {a b : Document} → some a ≡ some b → b ≡ a
  doc_same h = cc

  -- From a store that represents any map, where the content has `size` bytes in front of any error,
  -- `size` is not 0 and at most `max_size`, the secret has its 56 bytes, the boundary has fewer than
  -- 2^32 bytes, the delimiter does not occur in the ciphertext, and the service announces the length of
  -- every response to a download that is not partial. Behind an upload that returns a row, where the
  -- database finds a file of the row's key and the client gets a response for it whose body is not cut
  -- off: `get` of the key returns data, for whatever range. The data has the uploaded content type, and
  -- the range requested of the first `size` bytes of the uploaded content, or the whole of them; its
  -- content begins with exactly the bytes of that range, behind which more may follow, and ends without
  -- an error.
  pub get-upload :
      (announced : IsSized remote) (v : Vault) (range : Option RangeBounds) (file : File)
      (r : FileResponse (Drive.Error X J A)) {f : File}
      → Represents aead service s v
      → length random.secret ≡ secret_size
      → length random.boundary < 2 ^ 32
      → occurs
          (delimiter random.boundary)
          (concat (sealed_file aead (new random.secret) (document size content_type content).plain))
        ≡ false
      → 0 < size
      → size ≤ max_size
      → size ≤ length (bytes_of content)
      → uploaded.0 ≡ ok f
      → (Db.get_file_by_key reading f.key true uploaded.1.tables).0 ≡ ok (some file)
      → (Drive.get_file remote
          (record { id = file.id })
          (encrypted_request file range)
          uploaded.1.remote).0
        ≡ ok r
      → failure r.stream ≡ none
      → (data' : FileData (Drive.Error X J A)) × ((get futures bytes aead download_reader remote
            reading f.key range uploaded.1).0
          ≡ ok (some data'))
        × IsPart range (document size content_type content) data'
  get-upload announced v range file r {f} rep sized short free pos small enough h found answered
        complete =
      let self : (f.key == f.key) ≡ true = (==_iff f.key f.key).1 refl in
      let behind =
        upload-Represents aead service futures reader random adding limiter size content_type
          content searching adding_drive s v rep sized short free pos small enough h in
      let (data', doc, got, held, part) =
        get-IsPart aead service futures bytes download_reader announced reading f.key range
          uploaded.1 _ file r behind.1 found answered complete in
      (data', got, subst (λ (d : Document). IsPart range d data') (doc_same (rw self at held)) part)
