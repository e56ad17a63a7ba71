-- ===== src/Store/Operations/Uploaded.antt =====
-- What a successful upload has done.
use castella.Prelude.{ℕ, ◌≡◌, refl, sym, ap, ◌∙◌, some, Result, ok, err, map_err, Bytes, arith}
use castella.Text.{Text, codes}
use castella.Stream.Flow.{Stream}
use castella.Stream.Library.{Futures, IoError, StreamReader}
use castella.Stream.Bandwidth.{BandwidthLimiter}
use castella.Drive
use castella.Drive.{Remote, FileHandle}
use castella.Drive.Service.{Service}
use castella.Drive.Kept.{file-create_file}
use castella.Db
use castella.Db.{Server}
use castella.Db.Rows
use castella.Db.Rows.{File, Tables}
use castella.Store.Cipher.{Aead, new}
use castella.Store.Layout.{encrypted_size}
use castella.Store.Content.{upload_stream}
use castella.Store.Operations.Allocating.{file-allocate_file}
use castella.Store.Operations.{Store, Error, Random, db, drive, allocate_file, upload_to, upload}

module _ {W X J A Y : Type 0} (futures : Futures) (aead : Aead) (reader : StreamReader Y)
    (remote : Remote W (IoError Y) X J A) (random : Random) (adding : Server)
    (limiter : BandwidthLimiter) (size : ℕ) (content_type : Text) (content : Stream Y Bytes) where
  -- The creation of the file in the drive `d`.
  abbrev pub creation : Rows.Drive → W → Result (Drive.Error X J A) FileHandle × W
  creation d =
      Drive.create_file futures remote limiter random.boundary random.file_name
        (record { id = d.id }) (encrypted_size size) (codes "application/octet-stream")
        (upload_stream futures aead reader size content (new random.secret))

  abbrev pub insertion : Text → Rows.Drive → Tables → Result Db.Error File × Tables
  insertion id d = Db.add_file adding id d.key size content_type random.secret

  abbrev uploaded_to : Rows.Drive → Store W → Result (Error (Drive.Error X J A)) File × Store W
  uploaded_to = upload_to futures aead reader remote random adding limiter size content_type content

  module _ (d : Rows.Drive) (s : Store W) where
    upload_to_created :
        {h : FileHandle}
        → (creation d s.remote).0 ≡ ok h
        → uploaded_to d s ≡ (
          map_err db (insertion h.id d s.tables).0,
          record { tables = (insertion h.id d s.tables).1; remote = (creation d s.remote).1 },
        )
    unfolding upload_to
    upload_to_created e = rw (e, upload_to) refl

    upload_to_failed :
        {e : Drive.Error X J A}
        → (creation d s.remote).0 ≡ err e
        → uploaded_to d s ≡ (err (drive e), record s { remote = (creation d s.remote).1 })
    unfolding upload_to
    upload_to_failed e = rw (e, upload_to) refl

    remote_at :
        (made : Result (Drive.Error X J A) FileHandle)
        → (creation d s.remote).0 ≡ made
        → (uploaded_to d s).1.remote ≡ (creation d s.remote).1
    remote_at (err e) same = ap (λ r. r.1.remote) (upload_to_failed same)
    remote_at (ok h) same = ap (λ r. r.1.remote) (upload_to_created same)

    pub remote-upload_to : (uploaded_to d s).1.remote ≡ (creation d s.remote).1
    remote-upload_to = remote_at _ refl

    map_err_ok :
        (r : Result Db.Error File) {f : File}
        → map_err {F = Error (Drive.Error X J A)} db r ≡ ok f
        → r ≡ ok f
    map_err_ok (err e) h = cc
    map_err_ok (ok f) h = ground arith

    uploaded_at :
        (made : Result (Drive.Error X J A) FileHandle) {f : File}
        → (creation d s.remote).0 ≡ made
        → (uploaded_to d s).0 ≡ ok f
        → (h : FileHandle) × ((creation d s.remote).0 ≡ ok h)
          × ((insertion h.id d s.tables).0 ≡ ok f)
          × ((uploaded_to d s).1.tables ≡ (insertion h.id d s.tables).1)
    uploaded_at (err e) same h = let failed = ap (λ r. r.0) (upload_to_failed same) in absurd (cc)
    uploaded_at (ok handle) same h =
        let made = upload_to_created same in
        (
          handle,
          same,
          map_err_ok (insertion handle.id d s.tables).0 (sym (ap (λ r. r.0) made) ∙ h),
          ap (λ r. r.1.tables) made,
        )

    pub upload_to_ok :
        {f : File}
        → (uploaded_to d s).0 ≡ ok f
        → (h : FileHandle) × ((creation d s.remote).0 ≡ ok h)
          × ((insertion h.id d s.tables).0 ≡ ok f)
          × ((uploaded_to d s).1.tables ≡ (insertion h.id d s.tables).1)
    upload_to_ok h = uploaded_at _ refl h

  module _ (searching adding_drive : Server) (s : Store W) where
    abbrev uploaded : Result (Error (Drive.Error X J A)) File × Store W
    uploaded =
        upload futures aead reader remote random searching adding_drive adding limiter size
          content_type content s

    abbrev allocated : Result (Error (Drive.Error X J A)) Rows.Drive × Store W
    allocated = allocate_file remote random searching adding_drive s

    upload_allocated : {d : Rows.Drive} → allocated.0 ≡ ok d → uploaded ≡ uploaded_to d allocated.1
    unfolding upload
    upload_allocated e = rw (e, upload) refl

    upload_refused :
        {e : Error (Drive.Error X J A)} → allocated.0 ≡ err e → uploaded ≡ (err e, allocated.1)
    unfolding upload
    upload_refused e = rw (e, upload) refl

    upload_ok_at :
        (r : Result (Error (Drive.Error X J A)) Rows.Drive) {f : File}
        → allocated.0 ≡ r
        → uploaded.0 ≡ ok f
        → (d : Rows.Drive) × (uploaded ≡ uploaded_to d allocated.1)
    upload_ok_at (err e) same h = let refused = ap (λ r. r.0) (upload_refused same) in absurd (cc)
    upload_ok_at (ok d) same h = (d, upload_allocated same)

    pub upload_ok :
        {f : File} → uploaded.0 ≡ ok f → (d : Rows.Drive) × (uploaded ≡ uploaded_to d allocated.1)
    upload_ok h = upload_ok_at _ refl h

    file-upload_at :
        (service : Service remote) (id : Text) (r : Result (Error (Drive.Error X J A)) Rows.Drive)
        {held : Bytes}
        → allocated.0 ≡ r
        → service.file s.remote id ≡ some held
        → service.file uploaded.1.remote id ≡ some held
    file-upload_at service id (err e) same kept =
        ap (λ r. service.file r.1.remote id) (upload_refused same)
        ∙ file-allocate_file remote random searching adding_drive s service id kept
    file-upload_at service id (ok d) same kept =
        ap (λ r. service.file r.1.remote id) (upload_allocated same)
        ∙ ap (λ w. service.file w id) (remote-upload_to d allocated.1)
        ∙ file-create_file service futures limiter random.boundary random.file_name
            (record { id = d.id }) (encrypted_size size) (codes "application/octet-stream")
            (upload_stream futures aead reader size content (new random.secret)) allocated.1.remote
            id (file-allocate_file remote random searching adding_drive s service id kept)

    -- An upload leaves the files that the service has.
    pub file-upload :
        (service : Service remote) (id : Text) {held : Bytes}
        → service.file s.remote id ≡ some held
        → service.file uploaded.1.remote id ≡ some held
    file-upload service id kept = file-upload_at service id _ refl kept
