-- ===== src/Store/Vault/Writing.antt =====
-- `upload` adds a document to the map that the store represents, or leaves the map as it is.
use castella.Prelude.{
  ℕ, ◌^◌, ◌<◌, ◌≤◌, ◌≡◌, refl, sym, ap, ◌∙◌, inl, inr, [], ◌∷◌, List, none, some, Result, ok, err,
  Bytes, false, length, concat, length-take, ◌==◌, Bool-cases, arith,
}
use mathlib.Core.Path.{subst}
use castella.Text.{Text}
use castella.Stream.Flow.{Stream, bytes_of, failure, bytes_of-items, failure-items}
use castella.Stream.Library.{Futures, IoError, StreamReader}
use castella.Stream.Bandwidth.{BandwidthLimiter}
use castella.Drive
use castella.Drive.{Remote, FileHandle}
use castella.Drive.Service.{Service, occurs, delimiter}
use castella.Drive.Kept.{file-create_file}
use castella.Drive.Stored.{create_file_stored}
use castella.Db
use castella.Db.{Server, add_file, file_add}
use castella.Db.Rows
use castella.Db.Rows.{File, Tables, select_file, insert_file}
use castella.Db.Files.{KeysBelow, row_of, transaction_ok, insert_file_ok, add_file_lem}
use castella.Store.Cipher.{Aead, secret_size, new}
use castella.Store.Layout.{encrypted_size}
use castella.Store.Layout.Bounds.{max_size, encrypted_size-exact}
use castella.Store.Content.{upload_stream}
use castella.Store.Content.Sealed.{sealed_file, upload_stream-sealed, length-sealed_file}
use castella.Store.Operations.{Store, Error, Random, allocate_file, upload}
use castella.Store.Operations.Allocating.{SameFiles, allocate_file-SameFiles, file-allocate_file}
use castella.Store.Operations.Uploaded.{
  creation, remote-upload_to, upload_to_ok, upload_ok, file-upload,
}
use castella.Store.Operations.Uploading.{upload-SameFiles}
use castella.Store.Vault.{Document, document, Vault, update, IsStored, Holds, Represents}
use castella.Store.Vault.Reading.{kept-Holds, none-Holds}
use castella.Store.Vault.Ids.{DistinctIds, append-DistinctIds, add_file_fresh}

select_file-KeysBelow : (n : ℕ) (fs : List File) → KeysBelow n fs → select_file n fs ≡ none
unfolding select_file
select_file-KeysBelow n [] h = refl
select_file-KeysBelow n (f ∷ fs) h = ground (arith, h.0, select_file-KeysBelow n fs h.1)

-- The rows behind an insertion have distinct ids.
add_file-DistinctIds :
    (server : Server) (id : Text) (drive_key size : ℕ) (content_type : Text) (secret : Bytes)
    (t : Tables) {f : File}
    → DistinctIds t.files
    → (Db.add_file server id drive_key size content_type secret t).0 ≡ ok f
    → DistinctIds (Db.add_file server id drive_key size content_type secret t).1.files
unfolding add_file
add_file-DistinctIds server id drive_key size content_type secret t {f} distinct h =
    let (e, d) = insert_file_ok server.now id drive_key size content_type secret t _ f (
      transaction_ok server file_add (insert_file server.now id drive_key size content_type secret)
        t h) in
    rw d (
      append-DistinctIds t.files (row_of server.now id drive_key size content_type secret t)
        distinct (add_file_fresh server id drive_key size content_type secret t h))

module _ {W B X J A : Type 0} {remote : Remote W B X J A} (aead : Aead)
    (service : Service remote) where
  -- Other tables with the same files, and a world that keeps every file, represent the same map.
  moved-Represents :
      (s s' : Store W) (v : Vault)
      → SameFiles s.tables s'.tables
      → ((id : Text) (content : Bytes)
          → service.file s.remote id ≡ some content
          → service.file s'.remote id ≡ some content)
      → Represents aead service s v
      → Represents aead service s' v
  moved-Represents s s' v same kept h = record {
    valid = rw (same.0, same.1) h.valid;
    distinct = rw same.0 h.distinct;
    rows = λ j. rw same.0 (
        kept-Holds aead service s.remote s'.remote (select_file j s.tables.files) (v j) kept
          (h.rows j));
  }

  same-Represents :
      (s s' : Store W) (v : Vault)
      → s'.tables ≡ s.tables
      → s'.remote ≡ s.remote
      → Represents aead service s v
      → Represents aead service s' v
  same-Represents s s' v tables remote' h = record {
    valid = rw tables h.valid;
    distinct = rw tables h.distinct;
    rows = λ j. rw (tables, remote') (h.rows j);
  }

  -- A row is inserted for a file that the service has.
  inserted-Represents :
      (server : Server) (id : Text) (drive_key size : ℕ) (secret : Bytes) (doc : Document)
      (s : Store W) (v : Vault) {f : File}
      → Represents aead service s v
      → length secret ≡ secret_size
      → size ≡ length doc.plain
      → 0 < size
      → size ≤ max_size
      → service.file s.remote id ≡ some (concat (sealed_file aead (new secret) doc.plain))
      → let added = Db.add_file server id drive_key size doc.content_type secret s.tables in
        added.0 ≡ ok f
        → (v f.key ≡ none)
          × Represents aead service (record s { tables = added.1 }) (update v f.key (some doc))
  inserted-Represents server id drive_key size secret doc s v {f} h sized n pos small held e =
      let lem = add_file_lem server id drive_key size doc.content_type secret s.tables h.valid e in
      let stored : IsStored aead service s.remote f doc = rw lem.0 (record {
        secret = sized;
        size = n;
        nonempty = omega (arith, n);
        small = omega (arith, n);
        content_type = refl;
        held = held;
      }) in
      (
        none-Holds aead service s.remote (v f.key) (
            subst (λ o. Holds aead service s.remote o (v f.key))
              (ap (λ (k : ℕ). select_file k s.tables.files) (ap (λ (g : File). g.key) lem.0)
                ∙ select_file-KeysBelow s.tables.next_file s.tables.files h.valid)
              (h.rows f.key)),
        record {
          valid = lem.1;
          distinct =
              add_file-DistinctIds server id drive_key size doc.content_type secret s.tables
                h.distinct e;
          rows = λ j. rw (lem.3 j) (elim (Bool-cases (j == f.key)) [
            | inl same ↦ rw same stored
            | inr other ↦ rw other (h.rows j)
          ]);
        },
      )

module _ {W X J A Y : Type 0} {remote : Remote W (IoError Y) X J A} (aead : Aead)
    (service : Service remote) (futures : Futures) (reader : StreamReader Y) (random : Random)
    (adding : Server) (limiter : BandwidthLimiter) (size : ℕ) (content_type : Text)
    (content : Stream Y Bytes) where
  abbrev made : Rows.Drive → W → Result (Drive.Error X J A) FileHandle × W
  made = creation futures aead reader remote random adding limiter size content_type content

  abbrev doc : Document
  doc = document size content_type content

  length-document : size ≤ length (bytes_of content) → length doc.plain ≡ size
  length-document h = omega (arith, length-take size (bytes_of content))

  -- The created file has the ciphertext of the document.
  made_stored :
      (d : Rows.Drive) (w : W) {h : FileHandle}
      → 0 < size
      → size ≤ max_size
      → size ≤ length (bytes_of content)
      → length random.boundary < 2 ^ 32
      → occurs (delimiter random.boundary) (concat (sealed_file aead (new random.secret) doc.plain))
        ≡ false
      → (made d w).0 ≡ ok h
      → service.file (made d w).1 h.id
        ≡ some (concat (sealed_file aead (new random.secret) doc.plain))
  made_stored d w {h} pos small enough short free e =
      let cipher = new random.secret in
      let sealed = sealed_file aead cipher doc.plain in
      let same = upload_stream-sealed futures aead reader cipher size content enough in
      let bytes : bytes_of (upload_stream futures aead reader size content cipher) ≡ concat sealed =
        ap bytes_of same ∙ bytes_of-items (IoError Y) sealed in
      let n = length-document enough in
      create_file_stored service futures limiter random.boundary random.file_name
        (record { id = d.id }) (encrypted_size size) _
        (upload_stream futures aead reader size content cipher) w
        (ap length bytes
          ∙ length-sealed_file aead cipher doc.plain (omega (arith, n)) (omega (arith, n))
          ∙ ap encrypted_size n)
        (ap failure same ∙ failure-items (IoError Y) sealed)
        (omega (arith, encrypted_size-exact size small)) short
        (ap (occurs (delimiter random.boundary)) bytes ∙ free) e
      ∙ ap some bytes

  module _ (searching adding_drive : Server) (s : Store W) (v : Vault) where
    abbrev uploaded : Result (Error (Drive.Error X J A)) File × Store W
    uploaded =
        upload futures aead reader remote random searching adding_drive adding limiter size
          content_type content s

    abbrev allocated : Store W
    allocated = (allocate_file remote random searching adding_drive s).1

    allocated-Represents : Represents aead service s v → Represents aead service allocated v
    allocated-Represents rep =
        moved-Represents aead service s allocated v
          (allocate_file-SameFiles remote random searching adding_drive s)
          (λ id held kept.
            file-allocate_file remote random searching adding_drive s service id kept)
          rep

    -- Where the store represents a map, the content has `size` bytes in front of any error, `size` is not
    -- 0 and at most `max_size`, the secret has its 56 bytes, the boundary of the multipart body has fewer
    -- than 2^32 bytes, and its delimiter does not occur in the ciphertext: an upload that returns a row
    -- has put the first `size` bytes of the content, with the content type, under a key that had no
    -- document, and the store represents the map with this document.
    pub upload-Represents :
        {f : File}
        → Represents aead service s v
        → length random.secret ≡ secret_size
        → length random.boundary < 2 ^ 32
        → occurs (delimiter random.boundary) (
            concat
              (sealed_file aead (new random.secret) (document size content_type content).plain))
          ≡ false
        → 0 < size
        → size ≤ max_size
        → size ≤ length (bytes_of content)
        → uploaded.0 ≡ ok f
        → (v f.key ≡ none)
          × Represents aead service uploaded.1
              (update v f.key (some (document size content_type content)))
    upload-Represents {f} rep sized short free pos small enough h =
        let (d, same) =
          upload_ok futures aead reader remote random adding limiter size content_type content
            searching adding_drive s h in
        let (handle, created, inserted, tables) =
          upload_to_ok futures aead reader remote random adding limiter size content_type content d
            allocated (ap (λ r. r.0) (sym same) ∙ h) in
        let world = (made d allocated.remote).1 in
        let behind : Store W = record allocated { remote = world } in
        let there =
          moved-Represents aead service allocated behind v (refl, refl)
            (λ id held kept.
              file-create_file service futures limiter random.boundary random.file_name
                (record { id = d.id }) (encrypted_size size) _
                (upload_stream futures aead reader size content (new random.secret))
                allocated.remote id kept)
            (allocated-Represents rep) in
        let result =
          inserted-Represents aead service adding handle.id d.key size random.secret doc behind v
            there sized (sym (length-document enough)) pos small
            (made_stored d allocated.remote pos small enough short free created) inserted in
        (
          result.0,
          same-Represents aead service _ uploaded.1 (update v f.key (some doc))
              (ap (λ r. r.1.tables) same ∙ tables)
              (ap (λ r. r.1.remote) same
                ∙ remote-upload_to futures aead reader remote random adding limiter size
                    content_type content d allocated)
              result.1,
        )

    -- Where the store represents a map, and a commit of the new row that fails is rolled back, its answer
    -- not being lost with the connection, it represents the same map behind an upload that fails, at
    -- whatever step.
    pub upload_failed-Represents :
        {e : Error (Drive.Error X J A)}
        → adding.lost ≡ false
        → Represents aead service s v
        → uploaded.0 ≡ err e
        → Represents aead service uploaded.1 v
    upload_failed-Represents kept rep h =
        moved-Represents aead service s uploaded.1 v
          (upload-SameFiles futures aead reader remote random adding limiter size content_type
            content searching adding_drive s kept h)
          (λ id held kept.
            file-upload futures aead reader remote random adding limiter size content_type content
              searching adding_drive s service id kept)
          rep
