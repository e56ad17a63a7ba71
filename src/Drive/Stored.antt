-- ===== src/Drive/Stored.antt =====
-- What an upload stores, and what a download returns.
use castella.Prelude.{
  ℕ, ◌+◌, ◌-◌, ◌^◌, ◌<◌, ◌≤◌, ◌≡◌, ◌≢◌, refl, sym, ap, ◌∙◌, Option, none, some, Result, ok, err,
  Bytes, Bool, true, false, ◌==◌, ==_iff, length, take, drop, length-append, take_all, ◌*◌, arith,
  ◌>>=◌, Bool-cases, inl, inr, if◌then◌else◌,
}
use castella.Prelude.Words.{u64_mod, saturating_add_u64}
use castella.Prelude.Ranges.{Range}
use castella.Text.{Text}
use castella.Stream.Flow.{
  Stream, bytes_of, failure, bytes_of-map_err_stream, failure-map_err_stream, map_option,
}
use castella.Stream.Library.{Futures}
use castella.Stream.Bandwidth.{BandwidthLimiter, throttle_stream}
use castella.Drive.{
  Error, Response, Remote, FileHandle, FolderHandle, FileResponse, authorized_send, get_file,
  check_range, response_range, create_file, get_media, range_header, file_get, multipart_prefix,
  multipart_suffix, multipart_body, multipart_length,
}
use castella.Drive.Service.{Service, IsSized, is_error, occurs, delimiter}
use castella.Drive.Sending.{authorized, sent_ok}
use castella.Drive.Creation.{created_ok, upload_request}
use castella.Drive.Upload.{multipart_length-exact}

length-multipart :
    (boundary : Text) (meta : Bytes)
    → length (multipart_prefix boundary meta) + length (multipart_suffix boundary)
      ≤ 3 * length boundary + length meta + 200
unfolding multipart_prefix multipart_suffix
length-multipart boundary meta = omega (arith, length-append {0})

true_ne_false : {b : Bool} → b ≡ true → b ≡ false → ⊥
true_ne_false h k = cc

failure_none : {E F : Type 0} (f : E → F) (e : Option E) → map_option f e ≡ none → e ≡ none
failure_none f e h = ground arith

module _ {W B X J A : Type 0} {remote : Remote W B X J A} (service : Service remote) where
  -- Where the content has the announced size, ends without an error, and its body is shorter than 2 ^ 63
  -- bytes in all, and where the delimiter of the parts does not occur in it, a handle that `create_file` returns is that of a file with this content.
  pub create_file_stored :
      (futures : Futures) (limiter : BandwidthLimiter) (boundary name : Text)
      (parent : FolderHandle) (size : ℕ) (content_type : Text) (content : Stream B Bytes) (w : W)
      {f : FileHandle}
      → length (bytes_of content) ≡ size
      → failure content ≡ none
      → size < 2 ^ 62
      → length boundary < 2 ^ 32
      → occurs (delimiter boundary) (bytes_of content) ≡ false
      → (create_file futures remote limiter boundary name parent size content_type content w).0
        ≡ ok f
      → service.file
          (create_file futures remote limiter boundary name parent size content_type content w).1
          f.id
        ≡ some (bytes_of content)
  create_file_stored futures limiter boundary name parent size content_type content w {f} e h small
        short free d =
      let (meta, r, serialized, answered, id, world) =
        created_ok futures remote limiter boundary name parent size content_type content w d in
      let (token, answer, fine, sent) =
        sent_ok remote _
          (upload_request futures remote limiter boundary name parent size content_type content w
            meta)
          w answered in
      let exact = multipart_length-exact futures boundary meta content limiter size e h (
        omega (
          arith,
          length-multipart boundary meta,
          service.length-file_meta name parent.id content_type serialized,
        )) in
      let body = throttle_stream futures (multipart_body futures boundary meta content) limiter in
      ap (λ v. service.file v f.id) (world ∙ sent)
      ∙ service.file_posted boundary token name parent.id content_type meta (bytes_of content)
          (multipart_length boundary meta size) body (authorized remote w) answer fine id serialized
          free exact.0 exact.2 exact.1

  saturated :
      (range : Range) (response : Response X) (first last : ℕ)
      → response.status ≡ 206
      → response.content_range ≡ some (first, last)
      → last + 1 < u64_mod
      → response_range range response ≡ record { start = first; end = last + 1 }
  unfolding response_range
  saturated range response first last partial named small =
      let whole : (response.status == 206) ≡ true = (==_iff _ _).1 partial in
      let e : saturating_add_u64 last 1 ≡ last + 1 = omega arith in
      rw (whole, named, e, response_range) refl

  unsaturated :
      (range : Range) (response : Response X) (size : ℕ)
      → response.status ≢ 206
      → response.content_length ≡ some size
      → response_range range response ≡ record { start = 0; end = size }
  unfolding response_range
  unsaturated range response size whole named = elim (Bool-cases (response.status == 206)) [
    | inl partial ↦ absurd (whole ((==_iff _ _).0 partial))
    | inr other ↦ rw (other, named, response_range) refl
  ]

  checked_ok :
      (test : Bool) (e : Error X J A) {f g : FileResponse (Error X J A)}
      → (if test then err e else ok f) ≡ ok g
      → f ≡ g
  checked_ok test e h = ground arith

  check_range_ok :
      (range : Range) (response : Response X) {f : FileResponse (Error X J A)}
      → check_range range response ≡ ok f
      → (bytes_of f.stream ≡ bytes_of response.body)
        × (f.range ≡ response_range range response)
        × (failure f.stream ≡ none → failure response.body ≡ none)
  unfolding check_range
  check_range_ok range response h =
      let same = checked_ok _ _ h in
      (
        ap (λ (f : FileResponse (Error X J A)). bytes_of f.stream) (sym same)
            ∙ bytes_of-map_err_stream file_get response.body,
        ap (λ (f : FileResponse (Error X J A)). f.range) (sym same),
        λ whole. failure_none file_get (failure response.body) (
            sym (failure-map_err_stream file_get response.body)
            ∙ ap (λ (f : FileResponse (Error X J A)). failure f.stream) same
            ∙ whole),
      )

  answered_ok :
      (range : Range) (answer : Result (Error X J A) (Response X)) {f : FileResponse (Error X J A)}
      → (answer >>= check_range range) ≡ ok f
      → (r : Response X) × (answer ≡ ok r) × (check_range range r ≡ ok f)
  answered_ok range (err e) h = cc
  answered_ok range (ok r) h = (r, refl, h)

  served :
      (sized : IsSized remote) (range : Range) (id h : Text) (w : W) (r : Response X)
      {content : Bytes}
      → service.file w id ≡ some content
      → length content < u64_mod
      → (remote.send (get_media id h (range_header range)) w).0 ≡ ok r
      → is_error r.status ≡ false
      → failure r.body ≡ none
      → let found = response_range range r in
        bytes_of r.body ≡ take (found.end - found.start) (drop found.start content)
  served sized range id h w r {content} kept small answer fine complete =
      elim (Bool-cases (r.status == 206)) [
        | inl partial ↦
            let status = (==_iff _ _).0 partial in
            let (first, last, named, inside, body) =
              service.media_partial id h (range_header range) w kept answer status complete in
            rw (saturated range r first last status named (omega (arith, inside))) body
        | inr other ↦
            let status : r.status ≢ 206 = λ e. true_ne_false ((==_iff _ _).1 e) other in
            let (size, announced) = sized id h (range_header range) w r answer fine status in
            let same =
              service.media_length id h (range_header range) w kept answer fine status announced in
            let body =
              service.media_whole id h (range_header range) w kept answer fine status complete in
            rw (unsaturated range r size status announced)
              (body ∙ sym (take_all (size - 0) content (omega (arith, same))))
      ]

  -- Where responses announce their length, and the service has the file, of fewer than 2 ^ 64 bytes, a
  -- response that `get_file` returns and whose body ends without an error holds exactly the part of the
  -- file that its range names.
  pub get_file_served :
      (sized : IsSized remote) (handle : FileHandle) (range : Range) (w : W)
      {f : FileResponse (Error X J A)} {content : Bytes}
      → service.file w handle.id ≡ some content
      → length content < u64_mod
      → (get_file remote handle range w).0 ≡ ok f
      → failure f.stream ≡ none
      → bytes_of f.stream ≡ take (f.range.end - f.range.start) (drop f.range.start content)
  unfolding get_file
  get_file_served sized handle range w {f} {content} kept small d complete =
      let (r, answered, checked) =
        answered_ok range
          (authorized_send remote file_get (λ h. get_media handle.id h (range_header range)) w).0
          d in
      let (token, answer, fine, sent) =
        sent_ok remote file_get (λ h. get_media handle.id h (range_header range)) w answered in
      let (bytes, found, whole) = check_range_ok range r checked in
      let before =
        service.file-header (remote.until_ready w) handle.id
        ∙ service.file-until_ready w handle.id
        ∙ kept in
      rw found (
        bytes
        ∙ served sized range handle.id token (authorized remote w) r before small answer fine
            (whole complete))
