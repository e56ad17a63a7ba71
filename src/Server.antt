-- ===== src/Server.antt =====
-- src/server.rs: the routes, the handlers behind them, and the replies for errors and rejections.
pub mod Handlers
pub mod Partial
pub mod Routes
use castella.Prelude.{
  ℕ, ◌-◌, ◌+◌, [], ◌∷◌, ◌++◌, List, Option, none, some, Result, ok, err, map_err, ok_or, ◌>>=◌,
  Bytes, Bool, true, false, ◌==◌, if◌then◌else◌,
}
use castella.Prelude.Words.{sub_u64}
use castella.Prelude.Ranges.{Range, RangeBounds}
use castella.Text.{Text, codes, decimal}
use castella.Header.{RangeCustom, range_bounds, parse_single_range_header}
use castella.Stream.Flow.{Stream}
use castella.Db.Rows.{File}
use castella.Store.Operations
use castella.Store.Operations.{FileData}

-- `Error`
pub data Error (D : Type 0) : Type 0 where
  store : Operations.Error D → Error D
  file_not_exists : Error D

-- The bodies that are sent: nothing, a text, a stream, and the JSON objects of the handlers.
pub data Body (D : Type 0) : Type 0 where
  empty : Body D
  content : Stream (Operations.Error D) Bytes → Body D
  error_json : ℕ → Text → Body D
  deleted_json : Bool → Body D
  upload_json : ℕ → ℕ → Text → ℕ → Body D

pub record Reply (D : Type 0) : Type 0 where
  pub status : ℕ
  pub headers : List (Text × Text)
  pub body : Body D

-- The prints of other crates: the entity tag (base64 of SHA-256 of the id), and RFC 2822 times.
pub record Formats : Type 0 where
  pub etag_of : Text → Text
  pub to_rfc2822 : ℕ → Text

-- `get_file_etag`
unfoldable pub get_file_etag : Formats → File → Text
get_file_etag formats file = formats.etag_of file.id

-- The value of `content-range`.
unfoldable pub content_range_value : Range → ℕ → Text
content_range_value range size =
    codes "bytes "
    ++ (decimal range.start ++ b'-' ∷ (decimal (range.end - 1) ++ b'/' ∷ decimal size))

module _ {D : Type 0} where
  -- `reply::with_header` sets a header, `reply::with_status` the status.
  unfoldable pub with_header : Reply D → Text → Text → Reply D
  with_header r name value = record r { headers = r.headers ++ (name, value) ∷ [] }

  unfoldable pub with_status : Reply D → ℕ → Reply D
  with_status r status = record r { status = status }

  module _ (formats : Formats) where
    unfoldable pub add_file_headers : Reply D → File → ℕ → Reply D
    unfolding with_header get_file_etag
    add_file_headers r file length =
        with_header
          (with_header
            (with_header
              (with_header
                (with_header (with_header r (codes "content-type") file.content_type)
                  (codes "content-length") (decimal length))
                (codes "cache-control") (codes "public,max-age=31536000,immutable"))
              (codes "last-modified") (formats.to_rfc2822 file.created_time))
            (codes "etag") (codes "\"" ++ (get_file_etag formats file ++ codes "\"")))
          (codes "accept-ranges") (codes "bytes")

    -- The reply of `head_file` to what `Store::get_info` returned.
    unfoldable pub head_reply :
        Result (Operations.Error D) (Option File) → Result (Error D) (Reply D)
    unfolding add_file_headers
    head_reply info = map_err store info >>= λ found. ok_or found file_not_exists >>= λ file.
        ok (add_file_headers (record { status = 200; headers = []; body = empty }) file file.size)

    -- The reply of `get_file` to the data of a file.
    unfoldable pub file_reply : FileData D → Reply D
    unfolding add_file_headers with_status content_range_value
    file_reply data' =
        let size = data'.info.size in
        let range_length = sub_u64 data'.range.end data'.range.start in
        let res =
          add_file_headers (record { status = 200; headers = []; body = content data'.content })
            data'.info range_length in
        if range_length == size
        then res
        else with_header (with_status res 206) (codes "content-range")
            (content_range_value data'.range size)

    -- The reply of `get_file` to what `Store::get` returned.
    unfoldable pub get_reply :
        Result (Operations.Error D) (Option (FileData D)) → Result (Error D) (Reply D)
    unfolding file_reply
    get_reply got = map_err store got >>= λ found.
        ok_or found file_not_exists >>= λ data'. ok (file_reply data')

  -- The reply of `upload_file` to what `Store::upload` returned.
  unfoldable pub upload_reply : Result (Operations.Error D) File → Result (Error D) (Reply D)
  upload_reply uploaded = map_err store uploaded >>= λ file. ok (record {
    status = 200;
    headers = [];
    body = upload_json file.key file.size file.content_type file.created_time;
  })

  -- The reply of `delete_file` to what `Store::delete` returned.
  unfoldable pub delete_reply :
      Result (Operations.Error D) (Option File) → Result (Error D) (Reply D)
  delete_reply deleted = map_err store deleted >>= λ found. ok_or found file_not_exists >>= λ file.
      ok (record { status = 200; headers = []; body = deleted_json true })

  unfoldable pub reply_error : ℕ → Text → Reply D
  reply_error status message = record {
    status = status;
    headers = [];
    body = error_json status message;
  }

  -- `handle_result`; `print` is the text of an error of the store.
  unfoldable pub handle_result : (Operations.Error D → Text) → Result (Error D) (Reply D) → Reply D
  unfolding reply_error
  handle_result print (ok r) = r
  handle_result print (err (store e)) = reply_error 500 (print e)
  handle_result print (err file_not_exists) = reply_error 404 (codes "no such file")

-- The argument of the store's `get`: a header that cannot be read is ignored.
unfoldable pub range_argument : Option Text → Option RangeBounds
range_argument none = none
range_argument (some s) = elim (parse_single_range_header s) [
  | none ↦ none
  | some r ↦ some (range_bounds r)
]

-- `Rejection`: what `is_not_found` and the calls of `find` return; a header's rejection has its name.
pub record Rejection : Type 0 where
  pub not_found : Bool
  pub invalid_header : Option Text
  pub missing_header : Option Text
  pub length_required : Bool
  pub invalid_query : Bool
  pub method_not_allowed : Bool
  pub payload_too_large : Bool
  pub unsupported_media_type : Bool
  pub debug_print : Text

-- `recover`: the first of these that the rejection has.
unfoldable pub recover : {D : Type 0} → Rejection → Reply D
unfolding reply_error
recover r = if r.not_found then reply_error 404 (codes "not found") else (elim r.invalid_header [
  | some name ↦ reply_error 400 (codes "invalid " ++ (name ++ codes " header"))
  | none ↦ elim r.missing_header [
    | some name ↦ reply_error 400 (codes "missing " ++ (name ++ codes " header"))
    | none ↦
        if r.length_required
        then reply_error 400 (codes "missing content-length header")
        else if r.invalid_query
        then reply_error 400 (codes "invalid query string")
        else if r.method_not_allowed
        then reply_error 400 (codes "method not allowed")
        else if r.payload_too_large
        then reply_error 413 (codes "request body too large")
        else if r.unsupported_media_type
        then reply_error 415 (codes "unsupported content-type")
        else reply_error 500 (codes "unknown error: " ++ r.debug_print)
  ]
])
