-- ===== src/Drive.antt =====
-- src/drive.rs: the client of the Drive API. The world `W` is what the rest of the process and the
-- service keep; the client's operations are actions on it.
pub mod Ranges
pub mod Upload
pub mod Service
pub mod Concrete
pub mod Sending
pub mod Creation
pub mod Kept
pub mod Stored
use castella.Prelude.{
  ℕ, ◌+◌, ◌-◌, [], ◌∷◌, ◌++◌, List, Option, none, some, Result, ok, err, map_err, ◌>>=◌, Bytes,
  Bool, true, false, length, ◌||◌, ◌&&◌, ltb, leb, ◌==◌, if◌then◌else◌,
}
use castella.Prelude.Words.{add_u64, saturating_add_u64}
use castella.Prelude.Ranges.{Range}
use castella.Text.{Text, codes, decimal}
use castella.Stream.Flow.{Stream, map_err_stream}
use castella.Stream.Library.{Futures}
use castella.Stream.Bandwidth.{BandwidthLimiter, throttle_stream}

-- `Error`. `X` is reqwest's error, `J` that of serde_json, and `A` that of the authenticator. The
-- constructor `ClientInit` belongs to `Drive::new`.
pub data Error (X J A : Type 0) : Type 0 where
  client_init : X → Error X J A
  file_create : X → Error X J A
  file_meta_serde : J → Error X J A
  file_get : X → Error X J A
  file_range_response_invalid : ℕ → ℕ → Error X J A
  file_delete : X → Error X J A
  drive_create : X → Error X J A
  auth : A → Error X J A

-- The four requests, with what the code puts into them: the id in the path, the headers, the body.
pub data Request (B : Type 0) : Type 0 where
  post_file : Text → Text → ℕ → Stream B Bytes → Request B
  get_media : Text → Text → Text → Request B
  delete_media : Text → Text → Request B
  post_drive : Text → Text → Text → Bool → Request B

-- A response: the status, the headers that the code reads by their types (`ContentRange::bytes_range`
-- and `ContentLength`), the body as a stream, and its field `id` as JSON.
pub record Response (X : Type 0) : Type 0 where
  pub status : ℕ
  pub content_range : Option (ℕ × ℕ)
  pub content_length : Option ℕ
  pub body : Stream X Bytes
  pub id : Result X Text

-- What the client stands on: `RateLimiter::until_ready`, `Authenticator::header`, reqwest's
-- `send` and the error that `error_for_status` makes of a status, and serde_json's print of the
-- file's metadata.
pub record Remote (W B X J A : Type 0) : Type 0 where
  pub until_ready : W → W
  pub header : W → Result A Text × W
  pub send : Request B → W → Result X (Response X) × W
  pub status_error : ℕ → X
  pub file_meta : Text → Text → Text → Result J Bytes

pub record FileHandle : Type 0 where
  pub id : Text

pub record FolderHandle : Type 0 where
  pub id : Text

pub record FileResponse (E : Type 0) : Type 0 where
  pub stream : Stream E Bytes
  pub range : Range

module _ {X : Type 0} where
  -- `response_range`: from the header of a partial response, or the whole length, or the request.
  unfoldable pub response_range : Range → Response X → Range
  response_range range response =
      if response.status == 206
      then (elim response.content_range [
        | none ↦ range
        | some (start, end) ↦ record { start = start; end = saturating_add_u64 end 1 }
      ])
      else (elim response.content_length [
        | none ↦ range
        | some len ↦ record { start = 0; end = len }
      ])

module _ {X J A : Type 0} where
  -- The test of the response's range.
  unfoldable pub check_range :
      Range → Response X → Result (Error X J A) (FileResponse (Error X J A))
  unfolding response_range
  check_range range response =
      let found = response_range range response in
      if ltb range.start found.start || ltb found.end range.end
      then err (file_range_response_invalid range.start range.end)
      else ok (record { stream = map_err_stream file_get response.body; range = found })

-- The value of the header `range`, whose end is included.
unfoldable pub range_header : Range → Text
range_header range = codes "bytes=" ++ (decimal range.start ++ b'-' ∷ decimal (range.end - 1))

module _ {W B X J A : Type 0} (remote : Remote W B X J A) where
  -- `error_for_status`: 4xx and 5xx are errors.
  unfoldable pub error_for_status : Response X → Result X (Response X)
  error_for_status r =
      if leb 400 r.status && ltb r.status 600 then err (remote.status_error r.status) else ok r

  -- `until_ready().await`, then the authorization header, then `send` of the request made with it.
  unfoldable pub authorized_send :
      (X → Error X J A) → (Text → Request B) → W → Result (Error X J A) (Response X) × W
  unfolding error_for_status
  authorized_send wrap request w =
      let (authorization, w') = remote.header (remote.until_ready w) in
      elim authorization [
        | err e ↦ (err (auth e), w')
        | ok h ↦
            let (response, w'') = remote.send (request h) w' in
            (map_err wrap (response >>= error_for_status), w'')
      ]

  unfoldable pub get_file :
      FileHandle → Range → W → Result (Error X J A) (FileResponse (Error X J A)) × W
  unfolding authorized_send check_range
  get_file file range w =
      let (response, w') =
        authorized_send file_get (λ h. get_media file.id h (range_header range)) w in
      (response >>= check_range range, w')

  unfoldable pub delete_file : FileHandle → W → Result (Error X J A) (Unit {0}) × W
  unfolding authorized_send
  delete_file file w =
      let (response, w') = authorized_send file_delete (delete_media file.id) w in
      (response >>= λ _. ok tt, w')

  -- `request_id` is the random id that the API wants.
  unfoldable pub create_drive : Text → Text → W → Result (Error X J A) FolderHandle × W
  unfolding authorized_send
  create_drive request_id name w =
      let (response, w') =
        authorized_send drive_create (λ h. post_drive request_id h name true) w in
      (response >>= λ r. map_err drive_create (r.id >>= λ id. ok (record { id = id })), w')

-- The two parts around the media of a `multipart/related` body.
unfoldable pub multipart_prefix : Text → Bytes → Bytes
multipart_prefix boundary meta =
    codes "--"
    ++ (boundary
        ++ (codes "\r\ncontent-type: application/json; charset=utf-8\r\n\r\n"
            ++ (meta
                ++ (codes "\r\n--"
                    ++ (boundary ++ codes "\r\ncontent-type: application/octet-stream\r\n\r\n")))))

unfoldable pub multipart_suffix : Text → Bytes
multipart_suffix boundary = codes "\r\n--" ++ (boundary ++ codes "--")

-- `concat_len` and `concat`
unfoldable pub multipart_length : Text → Bytes → ℕ → ℕ
multipart_length boundary meta size =
    add_u64 (add_u64 (length (multipart_prefix boundary meta)) size)
      (length (multipart_suffix boundary))

unfoldable pub multipart_body :
    Futures → {B : Type 0} → Text → Bytes → Stream B Bytes → Stream B Bytes
multipart_body futures boundary meta content =
    futures.chain (futures.chain (futures.once (ok (multipart_prefix boundary meta))) content)
      (futures.once (ok (multipart_suffix boundary)))

module _ {W B X J A : Type 0} (futures : Futures) (remote : Remote W B X J A) where
  -- `boundary` is the ten dashes and the random text; `limiter` is the state of the upload limiter.
  unfoldable pub create_file :
      BandwidthLimiter
      → Text
      → Text
      → FolderHandle
      → ℕ
      → Text
      → Stream B Bytes
      → W
      → Result (Error X J A) FileHandle × W
  unfolding authorized_send multipart_length multipart_body
  create_file limiter boundary name parent size content_type content w =
      elim (remote.file_meta name parent.id content_type) [
        | err e ↦ (err (file_meta_serde e), w)
        | ok meta ↦
            let body =
              throttle_stream futures (multipart_body futures boundary meta content) limiter in
            let (response, w') =
              authorized_send remote file_create
                (λ h. post_file boundary h (multipart_length boundary meta size) body) w in
            (response >>= λ r. map_err file_create (r.id >>= λ id. ok (record { id = id })), w')
      ]
