-- ===== src/Server/Routes/Routed.antt =====
-- Which handler answers a request, as a table.
use castella.Prelude.{
  ℕ, zero, suc, ◌≡◌, refl, ◌∙◌, Option, none, some, Result, ok, err, ◌>>=◌, Bytes, leb,
  if◌then◌else◌, Bool-cases, inl, inr,
}
use castella.Text.{Text, codes}
use castella.Stream.Flow.{Stream}
use castella.Store.Operations.{Store}
use castella.Server.{Rejection, Reply, with_header, recover}
use castella.Server.Routes.{
  Method, get, head, post, delete, other, same, RequestPath, root, file, elsewhere, at_root,
  at_file, within, announced, either, Warp, Call, NonZeroU64, suc_of, get_root, get_file, head_file,
  upload_file, delete_file, get_root_filter, get_file_filter, head_file_filter, upload_file_filter,
  delete_file_filter, handler_filter, routes,
}

-- What the headers and the body of a request give.
pub record Parts (Y : Type 0) : Type 0 where
  pub length : Option ℕ
  pub range : Result Rejection (Option Text)
  pub content_type : Result Rejection (Option Text)
  pub stream : Result Rejection (Stream Y Bytes)

-- The call of an upload: its length is announced, and within the limit.
abbrev pub upload_call : {Y : Type 0} → ℕ → Parts Y → Option (Call Y)
upload_call limit parts = elim parts.length [
  | none ↦ none
  | some zero ↦ none
  | some (suc n) ↦ elim parts.content_type [
    | err e ↦ none
    | ok content_type ↦ elim parts.stream [
      | err e ↦ none
      | ok stream ↦
          if leb (suc n) limit then some (upload_file (suc_of n) content_type stream) else none
    ]
  ]
]

-- The call for a method and a path.
abbrev pub call_for : {Y : Type 0} → ℕ → Parts Y → Method → RequestPath → Option (Call Y)
call_for limit parts get root = some get_root
call_for limit parts get (file key) = elim parts.range [
  | err e ↦ none
  | ok range ↦ some (get_file key range)
]
call_for limit parts head (file key) = some (head_file key)
call_for limit parts post root = upload_call limit parts
call_for limit parts delete (file key) = some (delete_file key)
call_for limit parts _ _ = none

-- A result that is the call, or an error where there is none.
abbrev pub IsCall : {Y : Type 0} → Option (Call Y) → Result Rejection (Call Y) → Type 0
IsCall none found = (e : Rejection) × (found ≡ err e)
IsCall (some call) found = found ≡ ok call

module _ {Y : Type 0} (limit : ℕ) (parts : Parts Y) (combine : Rejection → Rejection → Rejection)
    (method_e path_e length_e large_e missing_e invalid_e : Rejection) where
  abbrev by_method : Method → Method → Result Rejection (Unit {0})
  by_method wanted m = if same wanted m then ok tt else err method_e

  abbrev found_root : Method → RequestPath → Result Rejection (Call Y)
  found_root m p =
      (by_method get m >>= λ a. at_root path_e p >>= λ b. ok (a, b))
      >>= λ (_ : Unit {0} × Unit {0}). ok get_root

  abbrev found_get : Method → RequestPath → Result Rejection (Call Y)
  found_get m p =
      ((by_method get m >>= λ a. at_file path_e p >>= λ b. ok (a, b)) >>= λ (a : Unit {0} × ℕ).
      parts.range >>= λ b. ok (a, b))
      >>= λ (x : (Unit {0} × ℕ) × Option Text). ok (get_file x.0.1 x.1)

  abbrev found_head : Method → RequestPath → Result Rejection (Call Y)
  found_head m p =
      (by_method head m >>= λ a. at_file path_e p >>= λ b. ok (a, b)) >>= λ (x : Unit {0} × ℕ).
      ok (head_file x.1)

  abbrev found_delete : Method → RequestPath → Result Rejection (Call Y)
  found_delete m p =
      (by_method delete m >>= λ a. at_file path_e p >>= λ b. ok (a, b)) >>= λ (x : Unit {0} × ℕ).
      ok (delete_file x.1)

  abbrev found_upload : Method → RequestPath → Result Rejection (Call Y)
  found_upload m p =
      (((((by_method post m >>= λ a. at_root path_e p >>= λ b. ok (a, b))
              >>= λ (a : Unit {0} × Unit {0}).
                  within length_e large_e limit parts.length >>= λ b. ok (a, b))
            >>= λ (a : (Unit {0} × Unit {0}) × Unit {0}).
                announced missing_e invalid_e parts.length >>= λ b. ok (a, b))
          >>= λ (a : ((Unit {0} × Unit {0}) × Unit {0}) × NonZeroU64).
              parts.content_type >>= λ b. ok (a, b))
        >>= λ (a : (((Unit {0} × Unit {0}) × Unit {0}) × NonZeroU64) × Option Text).
            parts.stream >>= λ b. ok (a, b))
      >>= λ (x : ((((Unit {0} × Unit {0}) × Unit {0}) × NonZeroU64) × Option Text)
            × Stream Y Bytes).
          ok (upload_file x.0.0.1 x.0.1 x.1)

  abbrev found_call : Method → RequestPath → Result Rejection (Call Y)
  found_call m p =
      either combine
        (either combine
          (either combine (either combine (found_root m p) (found_get m p)) (found_head m p))
          (found_upload m p))
        (found_delete m p)

  get_at :
      (key : ℕ) (range : Result Rejection (Option Text))
      → parts.range ≡ range
      → IsCall (call_for limit parts get (file key)) (found_call get (file key))
  get_at key (err e) h = rw h (_, refl)
  get_at key (ok range) h = rw h refl

  upload_at :
      (length : Option ℕ) (content_type : Result Rejection (Option Text))
      (stream : Result Rejection (Stream Y Bytes))
      → parts.length ≡ length
      → parts.content_type ≡ content_type
      → parts.stream ≡ stream
      → IsCall (upload_call limit parts) (found_call post root)
  upload_at none content_type stream h k l = rw h (_, refl)
  upload_at (some zero) content_type stream h k l = elim (Bool-cases (leb 0 limit)) [
    | inl small ↦ rw (h, small) (_, refl)
    | inr large ↦ rw (h, large) (_, refl)
  ]
  upload_at (some (suc n)) (err e) stream h k l = elim (Bool-cases (leb (suc n) limit)) [
    | inl small ↦ rw (h, k, small) (_, refl)
    | inr large ↦ rw (h, k, large) (_, refl)
  ]
  upload_at (some (suc n)) (ok content_type) (err e) h k l = elim (Bool-cases (leb (suc n) limit)) [
    | inl small ↦ rw (h, k, l, small) (_, refl)
    | inr large ↦ rw (h, k, l, large) (_, refl)
  ]
  upload_at (some (suc n)) (ok content_type) (ok stream) h k l =
      elim (Bool-cases (leb (suc n) limit)) [
        | inl small ↦ rw (h, k, l, small) refl
        | inr large ↦ rw (h, k, l, large) (_, refl)
      ]

  found_call-IsCall :
      (m : Method) (p : RequestPath) → IsCall (call_for limit parts m p) (found_call m p)
  found_call-IsCall get root = refl
  found_call-IsCall get (file key) = get_at key parts.range refl
  found_call-IsCall get elsewhere = (_, refl)
  found_call-IsCall head root = (_, refl)
  found_call-IsCall head (file key) = refl
  found_call-IsCall head elsewhere = (_, refl)
  found_call-IsCall post root =
      upload_at parts.length parts.content_type parts.stream refl refl refl
  found_call-IsCall post (file key) = (_, refl)
  found_call-IsCall post elsewhere = (_, refl)
  found_call-IsCall delete root = (_, refl)
  found_call-IsCall delete (file key) = refl
  found_call-IsCall delete elsewhere = (_, refl)
  found_call-IsCall other root = (_, refl)
  found_call-IsCall other (file key) = (_, refl)
  found_call-IsCall other elsewhere = (_, refl)

module _ {R Y : Type 0} (warp : Warp R Y) where
  -- The headers and the body of a request, as the filters give them.
  abbrev pub parts_of : R → Parts Y
  parts_of r = record {
    length = warp.length_of r;
    range = warp.run (warp.optional (codes "range")) r;
    content_type = warp.run (warp.optional (codes "content-type")) r;
    stream = warp.run warp.stream r;
  }

  module _ (limit : ℕ) (r : R) where
    run-found_root :
        warp.run (get_root_filter warp) r
        ≡ found_root limit
            (parts_of r)
            warp.combine
            (warp.method_rejection r)
            (warp.path_rejection r)
            (warp.length_required r)
            (warp.payload_too_large r)
            (warp.missing_length r)
            (warp.invalid_length r)
            (warp.method_of r)
            (warp.path_of r)
    run-found_root =
        rw (warp.map_lem _ _ r, warp.and_lem _ _ r, warp.method_lem get r, warp.path_root_lem r)
          refl

    run-found_get :
        warp.run (get_file_filter warp) r
        ≡ found_get limit
            (parts_of r)
            warp.combine
            (warp.method_rejection r)
            (warp.path_rejection r)
            (warp.length_required r)
            (warp.payload_too_large r)
            (warp.missing_length r)
            (warp.invalid_length r)
            (warp.method_of r)
            (warp.path_of r)
    run-found_get =
        rw
          (
            warp.map_lem _ _ r,
            warp.and_lem _ _ r,
            warp.and_lem _ _ r,
            warp.method_lem get r,
            warp.path_i32_lem r,
          )
          refl

    run-found_head :
        warp.run (head_file_filter warp) r
        ≡ found_head limit
            (parts_of r)
            warp.combine
            (warp.method_rejection r)
            (warp.path_rejection r)
            (warp.length_required r)
            (warp.payload_too_large r)
            (warp.missing_length r)
            (warp.invalid_length r)
            (warp.method_of r)
            (warp.path_of r)
    run-found_head =
        rw (warp.map_lem _ _ r, warp.and_lem _ _ r, warp.method_lem head r, warp.path_i32_lem r)
          refl

    run-found_upload :
        warp.run (upload_file_filter warp limit) r
        ≡ found_upload limit
            (parts_of r)
            warp.combine
            (warp.method_rejection r)
            (warp.path_rejection r)
            (warp.length_required r)
            (warp.payload_too_large r)
            (warp.missing_length r)
            (warp.invalid_length r)
            (warp.method_of r)
            (warp.path_of r)
    run-found_upload =
        rw
          (
            warp.map_lem _ _ r,
            warp.and_lem _ _ r,
            warp.and_lem _ _ r,
            warp.and_lem _ _ r,
            warp.and_lem _ _ r,
            warp.and_lem _ _ r,
            warp.method_lem post r,
            warp.path_root_lem r,
            warp.content_length_limit_lem limit r,
            warp.content_length_lem r,
          )
          refl

    run-found_delete :
        warp.run (delete_file_filter warp) r
        ≡ found_delete limit
            (parts_of r)
            warp.combine
            (warp.method_rejection r)
            (warp.path_rejection r)
            (warp.length_required r)
            (warp.payload_too_large r)
            (warp.missing_length r)
            (warp.invalid_length r)
            (warp.method_of r)
            (warp.path_of r)
    run-found_delete =
        rw (warp.map_lem _ _ r, warp.and_lem _ _ r, warp.method_lem delete r, warp.path_i32_lem r)
          refl

    handler_filter_lem :
        warp.run (handler_filter warp limit) r
        ≡ found_call limit
            (parts_of r)
            warp.combine
            (warp.method_rejection r)
            (warp.path_rejection r)
            (warp.length_required r)
            (warp.payload_too_large r)
            (warp.missing_length r)
            (warp.invalid_length r)
            (warp.method_of r)
            (warp.path_of r)
    unfolding handler_filter
    handler_filter_lem =
        rw
          (
            warp.or_lem _ _ r,
            warp.or_lem _ _ r,
            warp.or_lem _ _ r,
            warp.or_lem _ _ r,
            run-found_root,
            run-found_get,
            run-found_head,
            run-found_upload,
            run-found_delete,
          )
          refl

  -- The reply to a request: that of the call with the header `server`, or that of `recover`, and then
  -- nothing is done.
  abbrev pub IsAnswered :
      {W D : Type 0}
      → (Call Y → Store W → Reply D × Store W)
      → Store W
      → Option (Call Y)
      → Reply D × Store W
      → Type 0
  IsAnswered handle s none out = (e : Rejection) × (out ≡ (recover e, s))
  IsAnswered handle s (some call) out =
      out ≡ (with_header (handle call s).0 (codes "server") (codes "castella"), (handle call s).1)

  answered :
      {W D : Type 0} (handle : Call Y → Store W → Reply D × Store W) (limit : ℕ) (r : R)
      (s : Store W) (call : Option (Call Y)) (found : Result Rejection (Call Y))
      → warp.run (handler_filter warp limit) r ≡ found
      → IsCall call found
      → IsAnswered handle s call (routes warp handle limit r s)
  unfolding routes
  answered handle limit r s none found h k = rw (h ∙ k.1, routes) (k.0, refl)
  answered handle limit r s (some call) found h k = rw (h ∙ k, routes) refl

  -- A request is answered by the handler that the table names for its method and path: GET of the root,
  -- GET, HEAD and DELETE of a file's key, and POST to the root with an announced length that is not 0 and within the limit,
  -- as long as the headers and the body can be read. The reply of the handler has the header `server`
  -- added. Every other request has a reply of `recover`, and leaves the store as it is.
  pub routes-IsAnswered :
      {W D : Type 0} (handle : Call Y → Store W → Reply D × Store W) (limit : ℕ) (r : R)
      (s : Store W)
      → IsAnswered handle s
          (call_for limit (parts_of r) (warp.method_of r) (warp.path_of r))
          (routes warp handle limit r s)
  routes-IsAnswered handle limit r s = answered handle limit r s _ _ (handler_filter_lem limit r) (
      found_call-IsCall limit (parts_of r) warp.combine (warp.method_rejection r)
        (warp.path_rejection r) (warp.length_required r) (warp.payload_too_large r)
        (warp.missing_length r) (warp.invalid_length r) (warp.method_of r) (warp.path_of r))
