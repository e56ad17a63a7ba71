-- ===== src/Drive/Concrete.antt =====
-- A value of the interfaces `Remote` and `Service`, which shows that the laws can hold together: a
-- service that keeps every upload, and whose ids are numbers.
use castella.Prelude.{
  ℕ, zero, suc, ◌+◌, ◌-◌, ◌<◌, ◌≡◌, ◌≢◌, true, false, ltb, ltb→lt, if◌then◌else◌, Bool-cases, inl,
  inr, refl, sym, ap, ◌∙◌, [], ◌∷◌, ◌++◌, List, Option, none, some, Result, ok, err, Bytes, length,
  take, drop, length-append, take-append_eq, drop-append_eq, append-nil, take-append-drop, arith,
}
use mathlib.Core.Path.{subst}
use castella.Prelude.Ranges.{Bound, included}
use castella.Header.{parse_single_range_header}
use castella.Text.{Text}
use castella.Stream.Flow.{Stream, bytes_of}
use castella.Stream.Library.{IoError}
use castella.Drive.{
  Request, Response, Remote, post_file, get_media, delete_media, post_drive, multipart_prefix,
  multipart_suffix,
}
use castella.Drive.Service.{Service, IsSized, is_error}

abbrev pub Files : Type 0
Files = List Bytes

abbrev nth : Files → ℕ → Option Bytes
nth [] n = none
nth (b ∷ w) zero = some b
nth (b ∷ w) (suc n) = nth w n

abbrev stored_file : Files → Text → Option Bytes
stored_file w (n ∷ []) = nth w n
stored_file w _ = none

abbrev meta : Bytes
meta = 1 ∷ 2 ∷ []

-- The media of a body with these metadata.
media_of : Text → ℕ → Bytes → Bytes
media_of boundary size body =
    take (size - length (multipart_prefix boundary meta) - length (multipart_suffix boundary))
      (drop (length (multipart_prefix boundary meta)) body)

media_of_lem :
    (boundary : Text) (size : ℕ) (body media : Bytes)
    → length body ≡ size
    → body ≡ multipart_prefix boundary meta ++ (media ++ multipart_suffix boundary)
    → media_of boundary size body ≡ media
unfolding media_of
media_of_lem boundary size body media n e =
    let p = multipart_prefix boundary meta in
    let s = multipart_suffix boundary in
    let rest : drop (length p) body ≡ media ++ s =
      ap (drop (length p)) e ∙ drop-append_eq (length p) p (media ++ s) refl in
    let size_of : length media ≡ size - length p - length s =
      omega (arith, n, ap length e, length-append p (media ++ s), length-append media s) in
    ap (take (size - length p - length s)) rest
    ∙ take-append_eq (size - length p - length s) media s size_of

-- The first and the last position that a header asks for.
abbrev between : Bound → Bound → Option (ℕ × ℕ)
between (included a) (included z) = some (a, z)
between _ _ = none

requested : Text → Option (ℕ × ℕ)
requested range = elim (parse_single_range_header range) [
  | none ↦ none
  | some r ↦ between r.start r.end
]

abbrev whole_file : Bytes → Response ℕ
whole_file b = record {
  status = 200;
  content_range = none;
  content_length = some (length b);
  body = ok (take 3 b) ∷ ok (drop 3 b) ∷ [];
  id = err 0;
}

abbrev part_of_file : ℕ → ℕ → Bytes → Response ℕ
part_of_file a z b = record {
  status = 206;
  content_range = some (a, z);
  content_length = none;
  body = ok (take 3 (take (z + 1 - a) (drop a b))) ∷ ok (drop 3 (take (z + 1 - a) (drop a b))) ∷ [];
  id = err 0;
}

-- A range that ends within the file is answered with a part, and all else with the whole.
abbrev media_response : Option (ℕ × ℕ) → Bytes → Response ℕ
media_response none b = whole_file b
media_response (some (a, z)) b = if ltb z (length b) then part_of_file a z b else whole_file b

abbrev found_response : Option (ℕ × ℕ) → Option Bytes → Response ℕ
found_response q none = record {
  status = 404;
  content_range = none;
  content_length = none;
  body = [];
  id = err 0;
}
found_response q (some b) = media_response q b

abbrev created_at : Text → Response ℕ
created_at id = record {
  status = 200;
  content_range = none;
  content_length = none;
  body = [];
  id = ok id;
}

handle_request : Request (IoError ℕ) → Files → Result ℕ (Response ℕ) × Files
unfolding media_of requested
handle_request (post_file boundary h size body) w =
    (ok (created_at (length w ∷ [])), w ++ media_of boundary size (bytes_of body) ∷ [])
handle_request (get_media id h range) w =
    (ok (found_response (requested range) (stored_file w id)), w)
handle_request (delete_media id h) w = (ok (created_at []), w)
handle_request (post_drive id h name hidden) w = (ok (created_at (68 ∷ [])), w)

unfoldable pub concrete_remote : Remote Files (IoError ℕ) ℕ ℕ ℕ
unfolding handle_request
concrete_remote = record {
  until_ready = λ w. w;
  header = λ w. (ok (66 ∷ []), w);
  send = handle_request;
  status_error = λ n. n;
  file_meta = λ name parent content_type. ok meta;
}

nth-append :
    (w : Files) (n : ℕ) (b : Bytes) {c : Bytes} → nth w n ≡ some c → nth (w ++ b ∷ []) n ≡ some c
nth-append [] n b h = cc
nth-append (d ∷ w) zero b h = h
nth-append (d ∷ w) (suc n) b h = nth-append w n b h

nth-length : (w : Files) (b : Bytes) → nth (w ++ b ∷ []) (length w) ≡ some b
nth-length [] b = refl
nth-length (d ∷ w) b = nth-length w b

kept_file :
    (request : Request (IoError ℕ)) (w : Files) (id : Text) {c : Bytes}
    → stored_file w id ≡ some c
    → stored_file (handle_request request w).1 id ≡ some c
unfolding handle_request
kept_file (post_file boundary h size body) w [] e = cc
kept_file (post_file boundary h size body) w (n ∷ []) e = nth-append w n _ e
kept_file (post_file boundary h size body) w (n ∷ m ∷ id) e = cc
kept_file (get_media i h range) w id e = e
kept_file (delete_media i h) w id e = e
kept_file (post_drive i h name hidden) w id e = e

posted_file :
    (boundary h : Text) (media : Bytes) (size : ℕ) (body : Stream (IoError ℕ) Bytes) (w : Files)
    {response : Response ℕ} {id : Text}
    → (handle_request (post_file boundary h size body) w).0 ≡ ok response
    → response.id ≡ ok id
    → length (bytes_of body) ≡ size
    → bytes_of body ≡ multipart_prefix boundary meta ++ (media ++ multipart_suffix boundary)
    → stored_file (handle_request (post_file boundary h size body) w).1 id ≡ some media
unfolding handle_request
posted_file boundary h media size body w {id = id} e named n parts =
    let named' : length w ∷ [] ≡ id = cc in
    subst (λ i. stored_file (w ++ media_of boundary size (bytes_of body) ∷ []) i ≡ some media)
      named' (nth-length w _ ∙ ap some (media_of_lem boundary size (bytes_of body) media n parts))

served_file :
    (id h range : Text) (w : Files) {response : Response ℕ} {content : Bytes}
    → stored_file w id ≡ some content
    → (handle_request (get_media id h range) w).0 ≡ ok response
    → media_response (requested range) content ≡ response
unfolding handle_request
served_file id h range w e d =
    let same : found_response (requested range) (stored_file w id) ≡ _ = cc in
    sym (ap (found_response (requested range)) e) ∙ same

whole_bytes : (b : Bytes) → take 3 b ++ (drop 3 b ++ []) ≡ b
whole_bytes b = ap (λ r. take 3 b ++ r) (append-nil (drop 3 b)) ∙ take-append-drop 3 b

abbrev HoldsPart : Bytes → Response ℕ → Type 0
HoldsPart content r =
    (first : ℕ) × (last : ℕ) × (r.content_range ≡ some (first, last))
    × (last < length content)
    × (bytes_of r.body ≡ take (last + 1 - first) (drop first content))

media_response-HoldsPart :
    (q : Option (ℕ × ℕ)) (content : Bytes)
    → (media_response q content).status ≡ 206
    → HoldsPart content (media_response q content)
media_response-HoldsPart none content = λ h. absurd (omega (arith, h))
media_response-HoldsPart (some (a, z)) content = elim (Bool-cases (ltb z (length content))) [
  | inl inside ↦ rw inside (λ h. (
    a,
    z,
    refl,
    ltb→lt z (length content) inside,
    whole_bytes (take (z + 1 - a) (drop a content)),
  ))
  | inr outside ↦ rw outside (λ h. absurd (omega (arith, h)))
]

abbrev HoldsWhole : Bytes → Response ℕ → Type 0
HoldsWhole content r = (r.content_length ≡ some (length content)) × (bytes_of r.body ≡ content)

media_response-HoldsWhole :
    (q : Option (ℕ × ℕ)) (content : Bytes)
    → (media_response q content).status ≢ 206
    → HoldsWhole content (media_response q content)
media_response-HoldsWhole none content = λ h. (refl, whole_bytes content)
media_response-HoldsWhole (some (a, z)) content = elim (Bool-cases (ltb z (length content))) [
  | inl inside ↦ rw inside (λ h. absurd (h refl))
  | inr outside ↦ rw outside (λ h. (refl, whole_bytes content))
]

partly :
    (id h range : Text) (w : Files) {response : Response ℕ} {content : Bytes}
    → stored_file w id ≡ some content
    → (handle_request (get_media id h range) w).0 ≡ ok response
    → response.status ≡ 206
    → HoldsPart content response
partly id h range w {content = content} e d partial =
    let same = served_file id h range w e d in
    subst (HoldsPart content) same (
      media_response-HoldsPart (requested range) content
        (ap (λ (r : Response ℕ). r.status) same ∙ partial))

wholly :
    (id h range : Text) (w : Files) {response : Response ℕ} {content : Bytes}
    → stored_file w id ≡ some content
    → (handle_request (get_media id h range) w).0 ≡ ok response
    → response.status ≢ 206
    → HoldsWhole content response
wholly id h range w {content = content} e d other =
    let same = served_file id h range w e d in
    subst (HoldsWhole content) same (
      media_response-HoldsWhole (requested range) content
        (λ p. other (sym (ap (λ (r : Response ℕ). r.status) same) ∙ p)))

same_length : {a b : ℕ} → some a ≡ some b → b ≡ a
same_length h = cc

meta_ok : Result ℕ Bytes
meta_ok = ok meta

meta_same : {m : Bytes} → meta_ok ≡ ok m → m ≡ meta
unfolding meta_ok
meta_same h = cc

pub concrete_service : Service concrete_remote
unfolding handle_request concrete_remote meta_ok
concrete_service = record {
  file = stored_file;
  file-until_ready = λ w id. refl;
  file-header = λ w id. refl;
  file-send = λ request w id spared kept. kept_file request w id kept;
  file_posted =
      λ boundary h name parent content_type m media size body w sent fine named serialized free
          whole n parts.
        posted_file boundary h media size body w sent named n (
          parts
          ∙ ap (λ p. multipart_prefix boundary p ++ (media ++ multipart_suffix boundary))
              (meta_same serialized));
  media_partial = λ id h range w held sent partial complete. partly id h range w held sent partial;
  media_whole =
      λ id h range w held sent fine other complete. (wholly id h range w held sent other).1;
  media_length = λ id h range w held sent fine other announced.
      same_length (sym (wholly id h range w held sent other).0 ∙ announced);
  length-file_meta =
      λ name parent content_type serialized. omega (arith, ap length (meta_same serialized));
}

found_response-sized :
    (q : Option (ℕ × ℕ)) (held : Option Bytes)
    → is_error (found_response q held).status ≡ false
    → (found_response q held).status ≢ 206
    → (size : ℕ) × ((found_response q held).content_length ≡ some size)
found_response-sized q none fine other = absurd (true_ne fine)
  where
    true_ne : true ≡ false → ⊥
    true_ne h = cc
found_response-sized q (some b) fine other = (length b, (media_response-HoldsWhole q b other).0)

pub concrete-IsSized : IsSized concrete_remote
unfolding handle_request concrete_remote
concrete-IsSized id h range w response sent fine other =
    let same : found_response (requested range) (stored_file w id) ≡ response = cc in
    subst (λ (r : Response ℕ). (size : ℕ) × (r.content_length ≡ some size)) same
      (found_response-sized (requested range) (stored_file w id)
        (ap (λ (r : Response ℕ). is_error r.status) same ∙ fine)
        (λ p. other (sym (ap (λ (r : Response ℕ). r.status) same) ∙ p)))
