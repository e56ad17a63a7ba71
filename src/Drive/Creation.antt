-- ===== src/Drive/Creation.antt =====
-- How a file is created.
use castella.Prelude.{
  ℕ, ◌≡◌, refl, sym, ap, ◌∙◌, ◌⊎◌, inl, inr, Result, ok, err, map_err, ◌>>=◌, Bytes, arith,
}
use castella.Text.{Text}
use castella.Stream.Flow.{Stream}
use castella.Stream.Library.{Futures}
use castella.Stream.Bandwidth.{BandwidthLimiter, throttle_stream}
use castella.Drive.{
  Error, Request, Response, Remote, FolderHandle, FileHandle, authorized_send, post_file,
  create_file, file_create, file_meta_serde, multipart_body, multipart_length,
}

module _ {W B X J A : Type 0} (futures : Futures) (remote : Remote W B X J A)
    (limiter : BandwidthLimiter) (boundary name : Text) (parent : FolderHandle) (size : ℕ)
    (content_type : Text) (content : Stream B Bytes) (w : W) where
  -- The request with the metadata `meta`.
  abbrev pub upload_request : Bytes → Text → Request B
  upload_request meta h =
      post_file boundary h (multipart_length boundary meta size)
        (throttle_stream futures (multipart_body futures boundary meta content) limiter)

  abbrev pub created : Result (Error X J A) FileHandle × W
  created = create_file futures remote limiter boundary name parent size content_type content w

  abbrev pub posted : Bytes → Result (Error X J A) (Response X) × W
  posted meta = authorized_send remote file_create (upload_request meta) w

  create_file_serialized :
      {meta : Bytes}
      → remote.file_meta name parent.id content_type ≡ ok meta
      → created ≡ (
        (posted meta).0 >>= λ r. map_err file_create (r.id >>= λ id. ok (record { id = id })),
        (posted meta).1,
      )
  unfolding create_file
  create_file_serialized h = rw (h, create_file) refl

  create_file_refused :
      {e : J}
      → remote.file_meta name parent.id content_type ≡ err e
      → created ≡ (err (file_meta_serde e), w)
  unfolding create_file
  create_file_refused h = rw (h, create_file) refl

  created_world_at :
      (serialized : Result J Bytes)
      → remote.file_meta name parent.id content_type ≡ serialized
      → (created.1 ≡ w)
        ⊎ ((meta : Bytes) × (remote.file_meta name parent.id content_type ≡ ok meta)
            × (created.1 ≡ (posted meta).1))
  created_world_at (err e) same = inl (ap (λ r. r.1) (create_file_refused same))
  created_world_at (ok meta) same = inr (meta, same, ap (λ r. r.1) (create_file_serialized same))

  -- Either the metadata could not be serialized, or one request was sent.
  pub created_world :
      (created.1 ≡ w)
      ⊎ ((meta : Bytes) × (remote.file_meta name parent.id content_type ≡ ok meta)
          × (created.1 ≡ (posted meta).1))
  created_world = created_world_at _ refl

  id_ok :
      (answer : Result (Error X J A) (Response X)) {f : FileHandle}
      → (answer >>= λ r. map_err file_create (r.id >>= λ id. ok (record { id = id }))) ≡ ok f
      → (r : Response X) × (answer ≡ ok r) × (r.id ≡ ok f.id)
  id_ok (err e) h = cc
  id_ok (ok r) h = (r, refl, ground arith)

  created_ok_at :
      (serialized : Result J Bytes) {f : FileHandle}
      → remote.file_meta name parent.id content_type ≡ serialized
      → created.0 ≡ ok f
      → (meta : Bytes) × (r : Response X) × (remote.file_meta name parent.id content_type ≡ ok meta)
        × ((posted meta).0 ≡ ok r)
        × (r.id ≡ ok f.id)
        × (created.1 ≡ (posted meta).1)
  created_ok_at (err e) same h =
      let refused = ap (λ r. r.0) (create_file_refused same) in absurd (cc)
  created_ok_at (ok meta) same h =
      let sent = create_file_serialized same in
      let (r, answer, id) = id_ok (posted meta).0 (sym (ap (λ r. r.0) sent) ∙ h) in
      (meta, r, same, answer, id, ap (λ r. r.1) sent)

  -- A handle comes from a response to one request, which has the handle's id.
  pub created_ok :
      {f : FileHandle}
      → created.0 ≡ ok f
      → (meta : Bytes) × (r : Response X) × (remote.file_meta name parent.id content_type ≡ ok meta)
        × ((posted meta).0 ≡ ok r)
        × (r.id ≡ ok f.id)
        × (created.1 ≡ (posted meta).1)
  created_ok h = created_ok_at _ refl h
