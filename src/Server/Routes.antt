-- ===== src/Server/Routes.antt =====
-- `routes` of src/server.rs: which handler a request is given to, and what is made of its reply.
pub mod Routed
pub mod Handled
use castella.Prelude.{
  ℕ, zero, suc, Option, none, some, Result, ok, err, ◌>>=◌, Bytes, Bool, true, false, ◌≡◌, leb,
  if◌then◌else◌,
}
use castella.Text.{Text, codes}
use castella.Stream.Flow.{Stream}
use castella.Store.Operations.{Store}
use castella.Server.{Rejection, Reply, with_header, recover}

pub data Method : Type 0 where
  get : Method
  head : Method
  post : Method
  delete : Method
  other : Method

abbrev pub same : Method → Method → Bool
same get get = true
same head head = true
same post post = true
same delete delete = true
same _ _ = false

-- The paths that `path!()` and `path!(i32)` match, with the key of the row, and all others.
pub data RequestPath : Type 0 where
  root : RequestPath
  file : ℕ → RequestPath
  elsewhere : RequestPath

-- What is known of a path and of an announced length by these filters.
abbrev pub at_root : {E : Type 0} → E → RequestPath → Result E (Unit {0})
at_root e root = ok tt
at_root e (file key) = err e
at_root e elsewhere = err e

abbrev pub at_file : {E : Type 0} → E → RequestPath → Result E ℕ
at_file e root = err e
at_file e (file key) = ok key
at_file e elsewhere = err e

abbrev pub within : {E : Type 0} → E → E → ℕ → Option ℕ → Result E (Unit {0})
within required large limit none = err required
within required large limit (some n) = if leb n limit then ok tt else err large

-- `NonZeroU64`, by the number before it.
pub data NonZeroU64 : Type 0 where
  suc_of : ℕ → NonZeroU64

abbrev pub get_value : NonZeroU64 → ℕ
get_value (suc_of n) = suc n

-- What `header("content-length")` reads as a NonZeroU64.
abbrev pub announced : {E : Type 0} → E → E → Option ℕ → Result E NonZeroU64
announced missing invalid none = err missing
announced missing invalid (some zero) = err invalid
announced missing invalid (some (suc n)) = ok (suc_of n)

-- One filter, or the other where it rejects.
abbrev pub either : {E A : Type 0} → (E → E → E) → Result E A → Result E A → Result E A
either combine (ok a) second = ok a
either combine (err e) (ok a) = ok a
either combine (err e) (err e') = err (combine e e')

-- warp: the filters, over requests `R` with bodies of errors `Y`.
pub record Warp (R Y : Type 0) : Type 1 where
  pub Filter : Type 0 → Type 0
  pub run : {A : Type 0} → Filter A → R → Result Rejection A
  pub method : Method → Filter (Unit {0})
  pub path_root : Filter (Unit {0})
  pub path_i32 : Filter ℕ
  pub content_length_limit : ℕ → Filter (Unit {0})
  pub content_length : Filter NonZeroU64
  pub optional : Text → Filter (Option Text)
  pub stream : Filter (Stream Y Bytes)
  pub and : {A B : Type 0} → Filter A → Filter B → Filter (A × B)
  pub or : {A : Type 0} → Filter A → Filter A → Filter A
  pub map : {A B : Type 0} → Filter A → (A → B) → Filter B
  pub method_of : R → Method
  pub path_of : R → RequestPath
  pub length_of : R → Option ℕ
  pub method_rejection : R → Rejection
  pub path_rejection : R → Rejection
  pub length_required : R → Rejection
  pub payload_too_large : R → Rejection
  pub missing_length : R → Rejection
  pub invalid_length : R → Rejection
  pub combine : Rejection → Rejection → Rejection
  pub method_lem :
      (m : Method) (r : R)
      → run (method m) r ≡ (if same m (method_of r) then ok tt else err (method_rejection r))
  pub path_root_lem : (r : R) → run path_root r ≡ at_root (path_rejection r) (path_of r)
  pub path_i32_lem : (r : R) → run path_i32 r ≡ at_file (path_rejection r) (path_of r)
  pub content_length_limit_lem :
      (limit : ℕ) (r : R)
      → run (content_length_limit limit) r
        ≡ within (length_required r) (payload_too_large r) limit (length_of r)
  pub content_length_lem :
      (r : R) → run content_length r ≡ announced (missing_length r) (invalid_length r) (length_of r)
  pub and_lem :
      {A B : Type 0} (f : Filter A) (g : Filter B) (r : R)
      → run (and f g) r ≡ (run f r >>= λ a. run g r >>= λ b. ok (a, b))
  pub or_lem :
      {A : Type 0} (f g : Filter A) (r : R) → run (or f g) r ≡ either combine (run f r) (run g r)
  pub map_lem :
      {A B : Type 0} (f : Filter A) (h : A → B) (r : R)
      → run (map f h) r ≡ (run f r >>= λ a. ok (h a))

-- A handler with its arguments.
pub data Call (Y : Type 0) : Type 0 where
  get_root : Call Y
  get_file : ℕ → Option Text → Call Y
  head_file : ℕ → Call Y
  upload_file : NonZeroU64 → Option Text → Stream Y Bytes → Call Y
  delete_file : ℕ → Call Y

module _ {R Y : Type 0} (warp : Warp R Y) where
  abbrev pub get_root_filter : warp.Filter (Call Y)
  get_root_filter = warp.map (warp.and (warp.method get) warp.path_root) (λ _. get_root)

  abbrev pub get_file_filter : warp.Filter (Call Y)
  get_file_filter =
      warp.map (warp.and (warp.and (warp.method get) warp.path_i32) (warp.optional (codes "range")))
        (λ (x : (Unit {0} × ℕ) × Option Text). get_file x.0.1 x.1)

  abbrev pub head_file_filter : warp.Filter (Call Y)
  head_file_filter =
      warp.map (warp.and (warp.method head) warp.path_i32) (λ (x : Unit {0} × ℕ). head_file x.1)

  abbrev pub upload_file_filter : ℕ → warp.Filter (Call Y)
  upload_file_filter max_upload_size =
      warp.map
        (warp.and
          (warp.and
            (warp.and
              (warp.and (warp.and (warp.method post) warp.path_root)
                (warp.content_length_limit max_upload_size))
              warp.content_length)
            (warp.optional (codes "content-type")))
          warp.stream)
        (λ (x : ((((Unit {0} × Unit {0}) × Unit {0}) × NonZeroU64) × Option Text) × Stream Y Bytes).
          upload_file x.0.0.1 x.0.1 x.1)

  abbrev pub delete_file_filter : warp.Filter (Call Y)
  delete_file_filter =
      warp.map (warp.and (warp.method delete) warp.path_i32) (λ (x : Unit {0} × ℕ). delete_file x.1)

  -- The filters of all handlers, one after the other.
  unfoldable pub handler_filter : ℕ → warp.Filter (Call Y)
  handler_filter max_upload_size =
      warp.or
        (warp.or (warp.or (warp.or get_root_filter get_file_filter) head_file_filter)
          (upload_file_filter max_upload_size))
        delete_file_filter

  -- `routes`. `handle` is what the handlers do, with `handle_result` behind them; none of them rejects.
  unfoldable pub routes :
      {W D : Type 0} → (Call Y → Store W → Reply D × Store W) → ℕ → R → Store W → Reply D × Store W
  routes handle max_upload_size request s =
      elim (warp.run (handler_filter max_upload_size) request) [
        | ok call ↦
            let (reply, s') = handle call s in
            (with_header reply (codes "server") (codes "castella"), s')
        | err rejection ↦ (recover rejection, s)
      ]
