-- ===== src/Drive/Service.antt =====
-- What the Drive API promises of the files that it keeps, and what the client makes of that.
use castella.Prelude.{
  ℕ, ◌+◌, ◌-◌, ◌^◌, ◌<◌, ◌≡◌, ◌≢◌, [], ◌∷◌, ◌++◌, ◌||◌, ◌==◌, Option, none, some, ok, Bytes, Bool,
  true, false, length, take, drop, ◌&&◌, leb, ltb,
}
use castella.Text.{Text, codes}
use castella.Stream.Flow.{Stream, bytes_of, failure}
use castella.Db.Rows.{text_eq}
use castella.Drive.{
  Request, Response, Remote, post_file, get_media, delete_media, multipart_prefix, multipart_suffix,
}

-- Whether a request asks for the deletion of a file.
abbrev pub deletes : {B : Type 0} → Request B → Text → Bool
deletes (delete_media id authorization) other = text_eq id other
deletes _ other = false

abbrev pub starts_with : Text → Text → Bool
starts_with [] s = true
starts_with (c ∷ t) [] = false
starts_with (c ∷ t) (d ∷ s) = (c == d) && starts_with t s

abbrev pub is_error : ℕ → Bool
is_error status = leb 400 status && ltb status 600

-- Whether a text occurs in another.
abbrev pub occurs : Text → Bytes → Bool
occurs s [] = starts_with s []
occurs s (c ∷ t) = starts_with s (c ∷ t) || occurs s t

-- What ends a part of a multipart body.
abbrev pub delimiter : Text → Text
delimiter boundary = codes "\r\n--" ++ boundary

-- The files of the service by their ids, and the documented behaviour of its requests.
pub record Service {W B X J A : Type 0} (remote : Remote W B X J A) : Type 0 where
  -- The content of a file.
  pub file : W → Text → Option Bytes
  -- Waiting for the limiter and renewing the token leave the files alone.
  pub file-until_ready : (w : W) (id : Text) → file (remote.until_ready w) id ≡ file w id
  pub file-header : (w : W) (id : Text) → file (remote.header w).1 id ≡ file w id
  -- Only its deletion removes a file, and none is written over.
  pub file-send :
      (request : Request B) (w : W) (id : Text) {content : Bytes}
      → deletes request id ≡ false
      → file w id ≡ some content
      → file (remote.send request w).1 id ≡ some content
  -- An upload that is answered with an id has stored the media of its body, where the delimiter of
  -- the parts does not occur in the media.
  pub file_posted :
      (boundary h name parent content_type : Text) (meta media : Bytes) (size : ℕ)
      (body : Stream B Bytes) (w : W) {response : Response X} {id : Text}
      → (remote.send (post_file boundary h size body) w).0 ≡ ok response
      → is_error response.status ≡ false
      → response.id ≡ ok id
      → remote.file_meta name parent content_type ≡ ok meta
      → occurs (delimiter boundary) media ≡ false
      → failure body ≡ none
      → length (bytes_of body) ≡ size
      → bytes_of body ≡ multipart_prefix boundary meta ++ (media ++ multipart_suffix boundary)
      → file (remote.send (post_file boundary h size body) w).1 id ≡ some media
  -- A partial response names the positions of the bytes that it holds. A body that ends without an
  -- error is complete; one that is cut off ends with an error.
  pub media_partial :
      (id h range : Text) (w : W) {response : Response X} {content : Bytes}
      → file w id ≡ some content
      → (remote.send (get_media id h range) w).0 ≡ ok response
      → response.status ≡ 206
      → failure response.body ≡ none
      → (first : ℕ) × (last : ℕ) × (response.content_range ≡ some (first, last))
        × (last < length content)
        × (bytes_of response.body ≡ take (last + 1 - first) (drop first content))
  -- Any other response that is no error holds the whole file, if its body is complete, and the length
  -- that it announces, if it does, is that of the file.
  pub media_whole :
      (id h range : Text) (w : W) {response : Response X} {content : Bytes}
      → file w id ≡ some content
      → (remote.send (get_media id h range) w).0 ≡ ok response
      → is_error response.status ≡ false
      → response.status ≢ 206
      → failure response.body ≡ none
      → bytes_of response.body ≡ content
  pub media_length :
      (id h range : Text) (w : W) {response : Response X} {content : Bytes} {size : ℕ}
      → file w id ≡ some content
      → (remote.send (get_media id h range) w).0 ≡ ok response
      → is_error response.status ≡ false
      → response.status ≢ 206
      → response.content_length ≡ some size
      → size ≡ length content
  -- The metadata is a text in memory.
  pub length-file_meta :
      (name parent content_type : Text) {meta : Bytes}
      → remote.file_meta name parent content_type ≡ ok meta
      → length meta < 2 ^ 62

-- Responses to downloads that are neither errors nor partial announce their length. HTTP does not ask
-- for it, and without it `get_file` takes the whole file for the requested part.
abbrev pub IsSized : {W B X J A : Type 0} → Remote W B X J A → Type 0
IsSized {W = W} {X = X} remote =
    (id h range : Text) (w : W) (response : Response X)
    → (remote.send (get_media id h range) w).0 ≡ ok response
    → is_error response.status ≡ false
    → response.status ≢ 206
    → (size : ℕ) × (response.content_length ≡ some size)
