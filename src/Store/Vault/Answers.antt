-- ===== src/Store/Vault/Answers.antt =====
-- What `get` answers, in terms of the map that the store represents.
use castella.Prelude.{
  ℕ, ◌-◌, ◌<◌, ◌≡◌, refl, ap, ◌∙◌, Option, none, some, Result, ok, err, true, length, take, drop,
  concat, ◌==◌, arith, ==_iff,
}
use castella.Prelude.Ranges.{RangeBounds}
use castella.Prelude.Words.{u64_mod}
use castella.Stream.Flow.{bytes_of, failure}
use castella.Stream.Library.{Futures, BytesLibrary, StreamReader}
use castella.Drive
use castella.Drive.{Remote, FileHandle, FileResponse}
use castella.Drive.Service.{Service, IsSized}
use castella.Drive.Stored.{get_file_served}
use castella.Db
use castella.Db.{Server}
use castella.Db.Rows.{File}
use castella.Store.Cipher.{Aead, secret_size, new}
use castella.Store.Layout.{requested_range}
use castella.Store.Layout.Bounds.{IsWithin, encrypted_size-exact}
use castella.Store.Content.Sealed.{sealed_file, length-sealed_file}
use castella.Store.Operations.{
  Store, Error, FileData, drive, encrypted_request, file_data, get_found, get,
}
use castella.Store.Operations.Reading.{get_reads}
use castella.Store.Vault.{Document, Vault, IsStored, Holds, Represents}
use castella.Store.Vault.Reading.{none-Holds, read-Holds}

-- The range of the data is the part of the document that is requested, or the whole of it; the content
-- begins with exactly those bytes, and ends without an error.
pub record IsPart {D : Type 0} (range : Option RangeBounds) (d : Document) (data' : FileData D)
    : Type 0 where
  pub content_type : data'.info.content_type ≡ d.content_type
  pub range_of : data'.range ≡ requested_range range (length d.plain)
  pub within : IsWithin (length d.plain) data'.range
  pub begins :
      let n = data'.range.end - data'.range.start in
      take n (bytes_of data'.content) ≡ take n (drop data'.range.start d.plain)
  pub complete : failure data'.content ≡ none

-- An answer about a key that fits the map.
abbrev pub Answers :
    {D : Type 0}
    → Option RangeBounds
    → Option Document
    → Result (Error D) (Option (FileData D))
    → Type 0
Answers range d (err e) = Unit
Answers range d (ok none) = d ≡ none
Answers range none (ok (some data')) = ⊥
Answers range (some d) (ok (some data')) = IsPart range d data'

module _ {W B X J A : Type 0} {remote : Remote W B X J A} (aead : Aead) (service : Service remote)
    (futures : Futures) (bytes : BytesLibrary) (reader : StreamReader (Drive.Error X J A))
    (sized : IsSized remote) (server : Server) (key : ℕ) (range : Option RangeBounds)
    (s : Store W) where
  abbrev got : Result (Error (Drive.Error X J A)) (Option (FileData (Drive.Error X J A))) × Store W
  got = get futures bytes aead reader remote server key range s

  abbrev found_for :
      File → Result (Error (Drive.Error X J A)) (Option (FileData (Drive.Error X J A))) × W
  found_for file = get_found futures bytes aead reader remote file range s.remote

  abbrev response_for : File → Result (Drive.Error X J A) (FileResponse (Drive.Error X J A)) × W
  response_for file =
      Drive.get_file remote (record { id = file.id }) (encrypted_request file range) s.remote

  requested-IsPart :
      (file : File) (d : Document) (r : FileResponse (Drive.Error X J A))
      → IsStored aead service s.remote file d
      → (Db.get_file_by_key server key true s.tables).0 ≡ ok (some file)
      → (response_for file).0 ≡ ok r
      → failure r.stream ≡ none
      → got.0 ≡ ok (some (file_data futures bytes aead reader file range r))
        × IsPart range d (file_data futures bytes aead reader file range r)
  unfolding file_data
  requested-IsPart file d r stored found answered complete =
      let sealed = concat (sealed_file aead (new file.secret) d.plain) in
      let short : length sealed < u64_mod = omega (
        arith,
        length-sealed_file aead (new file.secret) d.plain stored.nonempty stored.small,
        encrypted_size-exact (length d.plain) stored.small,
      ) in
      let served =
        get_file_served service sized (record { id = file.id }) (encrypted_request file range)
          s.remote stored.held short answered complete in
      let reads =
        get_reads futures bytes aead reader remote server key range s file r d.plain found
          stored.secret stored.size stored.nonempty stored.small answered served in
      (
        reads.0,
        record {
          content_type = stored.content_type;
          range_of = ap (requested_range range) stored.size;
          within = reads.2;
          begins = reads.3;
          complete = reads.4;
        },
      )

  got_found :
      (file : File)
      → (Db.get_file_by_key server key true s.tables).0 ≡ ok (some file)
      → got.0 ≡ (found_for file).0
  unfolding get
  got_found file h = rw (h, get) refl

  got_refused :
      (file : File) {x : Drive.Error X J A}
      → length file.secret ≡ secret_size
      → (response_for file).0 ≡ err x
      → (found_for file).0 ≡ err (drive x)
  unfolding get_found
  got_refused file sized e =
      let test : (length file.secret == secret_size) ≡ true = (==_iff _ _).1 sized in
      rw (test, e) refl

  -- The body of whatever response the client gets for the file that the database finds ends without an error.
  abbrev pub AllComplete : Type 0
  AllComplete =
      (file : File) (r : FileResponse (Drive.Error X J A))
      → (Db.get_file_by_key server key true s.tables).0 ≡ ok (some file)
      → (response_for file).0 ≡ ok r
      → failure r.stream ≡ none

  answer_of :
      (file : File) (d : Document)
      (response : Result (Drive.Error X J A) (FileResponse (Drive.Error X J A)))
      → IsStored aead service s.remote file d
      → (Db.get_file_by_key server key true s.tables).0 ≡ ok (some file)
      → (response_for file).0 ≡ response
      → AllComplete
      → Answers range (some d) got.0
  answer_of file d (ok r) stored found e complete =
      let part = requested-IsPart file d r stored found e (complete file r found e) in
      rw part.0 part.1
  answer_of file d (err x) stored found e complete =
      rw (got_found file found ∙ got_refused file stored.secret e) tt

  answer_for :
      (file : File) (d : Option Document)
      → Holds aead service s.remote (some file) d
      → (Db.get_file_by_key server key true s.tables).0 ≡ ok (some file)
      → AllComplete
      → Answers range d got.0
  answer_for file none h found complete = absurd h
  answer_for file (some d) h found complete = answer_of file d _ h found refl complete

  found-Answers :
      (read : Result Db.Error (Option File)) (v : Vault)
      → Represents aead service s v
      → (Db.get_file_by_key server key true s.tables).0 ≡ read
      → AllComplete
      → Answers range (v key) got.0
  unfolding get
  found-Answers (err e) v rep h complete = rw (h, get) tt
  found-Answers (ok none) v rep h complete =
      rw (h, get)
        (none-Holds aead service s.remote (v key) (read-Holds aead service s v server key rep h))
  found-Answers (ok (some file)) v rep h complete =
      answer_for file (v key) (read-Holds aead service s v server key rep h) h complete

  -- Where the store represents a map, the service announces the length of every response to a download
  -- that is not partial, and the download that is asked for, if it begins, is not cut off: an answer of
  -- `get` that there is no file means that the map has no document under the key; an answer with data
  -- means that it has one, and that the data's range is the one requested of it, within the document,
  -- or the whole of it if none is requested; the content begins with exactly the bytes of that range,
  -- behind which more may follow, and it ends without an error.
  pub get-Answers :
      (v : Vault) → Represents aead service s v → AllComplete → Answers range (v key) got.0
  get-Answers v rep complete = found-Answers _ v rep refl complete

  held-IsPart :
      (file : File) (d : Option Document) (r : FileResponse (Drive.Error X J A))
      → Holds aead service s.remote (some file) d
      → (Db.get_file_by_key server key true s.tables).0 ≡ ok (some file)
      → (response_for file).0 ≡ ok r
      → failure r.stream ≡ none
      → (data' : FileData (Drive.Error X J A)) × (doc : Document) × (got.0 ≡ ok (some data'))
        × (d ≡ some doc)
        × IsPart range doc data'
  held-IsPart file none r h found answered complete = absurd h
  held-IsPart file (some d) r h found answered complete =
      let part = requested-IsPart file d r h found answered complete in (_, d, part.0, refl, part.1)

  -- Where the store represents a map, the service announces the length of every response to a download
  -- that is not partial, the database finds a file of the key, and the drive's client gets a response
  -- for it whose body is not cut off: `get` returns data, and the map has a document under the key. The
  -- range of the data is the one requested of the document, within it, or the whole of it if none is
  -- requested; the content begins with exactly the bytes of that range, behind which more may follow,
  -- and it ends without an error.
  pub get-IsPart :
      (v : Vault) (file : File) (r : FileResponse (Drive.Error X J A))
      → Represents aead service s v
      → (Db.get_file_by_key server key true s.tables).0 ≡ ok (some file)
      → (response_for file).0 ≡ ok r
      → failure r.stream ≡ none
      → (data' : FileData (Drive.Error X J A)) × (doc : Document) × (got.0 ≡ ok (some data'))
        × (v key ≡ some doc)
        × IsPart range doc data'
  get-IsPart v file r rep found answered complete =
      held-IsPart file (v key) r (read-Holds aead service s v server key rep found) found answered
        complete
