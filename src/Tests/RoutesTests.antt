-- ===== src/Tests/RoutesTests.antt =====
-- Requests to the routes, with filters that are functions of a request.
use castella.Prelude.{
  ℕ, ◌≡◌, refl, [], ◌∷◌, Option, none, some, Result, ok, err, ◌>>=◌, Bytes, true, false, leb,
  if◌then◌else◌,
}
use castella.Text.{Text, codes}
use castella.Stream.Flow.{Stream}
use castella.Stream.Bandwidth.{new}
use castella.Stream.Concrete.{futures, bytes_library, stream_reader}
use castella.Drive
use castella.Db
use castella.Store.Concrete.{toy_aead}
use castella.Db.Rows.{select_file}
use castella.Store.Operations
use castella.Store.Operations.{Store, Random}
use castella.Store.Operations.Deletion.{healthy}
use castella.Server.{
  Rejection, Reply, Formats, content, with_header, handle_result, recover, reply_error,
}
use castella.Server.Handlers
use castella.Server.Routes
use castella.Server.Routes.{
  Method, get, head, post, delete, other, same, RequestPath, root, file, elsewhere, at_root,
  at_file, within, announced, either, Warp, Call, handler_filter, routes,
}
use castella.Server.Routes.Handled.{Conditions, handle}
use castella.Server.Routes.Routed.{IsAnswered, routes-IsAnswered}
use castella.Tests.Service.{secret, service, tables}

record Request : Type 0 where
  method : Method
  path : RequestPath
  length : Option ℕ
  range : Option Text
  content_type : Option Text
  body : Stream ℕ Bytes

abbrev rejection : Rejection
rejection = record {
  not_found = false;
  invalid_header = none;
  missing_header = none;
  length_required = false;
  invalid_query = false;
  method_not_allowed = false;
  payload_too_large = false;
  unsupported_media_type = false;
  debug_print = [];
}

-- The two headers that are read.
abbrev optional_header : Text → Request → Result Rejection (Option Text)
optional_header [] r = ok none
optional_header (c ∷ name) r = if leb c b'c' then ok r.content_type else ok r.range

-- An invalid header is kept.
abbrev merged : Rejection → Rejection → Rejection
merged e e' = elim e.invalid_header [ none ↦ e' | some name ↦ e ]

abbrev warp : Warp Request ℕ
warp = record {
  Filter = λ A. Request → Result Rejection A;
  run = λ f r. f r;
  method = λ m r.
      if same m r.method then ok tt else err (record rejection { method_not_allowed = true });
  path_root = λ r. at_root (record rejection { not_found = true }) r.path;
  path_i32 = λ r. at_file (record rejection { not_found = true }) r.path;
  content_length_limit = λ limit r.
      within (record rejection { length_required = true })
        (record rejection { payload_too_large = true }) limit r.length;
  content_length = λ r.
      announced (record rejection { missing_header = some (codes "content-length") })
        (record rejection { invalid_header = some (codes "content-length") }) r.length;
  optional = optional_header;
  stream = λ r. ok r.body;
  and = λ f g r. f r >>= λ a. g r >>= λ b. ok (a, b);
  or = λ f g r. either merged (f r) (g r);
  map = λ f h r. f r >>= λ a. ok (h a);
  method_of = λ r. r.method;
  path_of = λ r. r.path;
  length_of = λ r. r.length;
  method_rejection = λ r. record rejection { method_not_allowed = true };
  path_rejection = λ r. record rejection { not_found = true };
  length_required = λ r. record rejection { length_required = true };
  payload_too_large = λ r. record rejection { payload_too_large = true };
  invalid_length = λ r. record rejection { invalid_header = some (codes "content-length") };
  missing_length = λ r. record rejection { missing_header = some (codes "content-length") };
  combine = merged;
  method_lem = λ m r. refl;
  path_root_lem = λ r. refl;
  path_i32_lem = λ r. refl;
  content_length_limit_lem = λ limit r. refl;
  content_length_lem = λ r. refl;
  and_lem = λ f g r. refl;
  or_lem = λ f g r. refl;
  map_lem = λ f h r. refl;
}

abbrev formats : Formats
formats = record { etag_of = λ id. id; to_rfc2822 = λ n. n ∷ [] }

abbrev Failure : Type 0
Failure = Drive.Error ℕ ℕ ℕ

abbrev text_reply : Text → Reply Failure
text_reply text = record { status = 200; headers = []; body = content (ok text ∷ []) }

abbrev random : Random
random = record {
  request_id = 1 ∷ [];
  drive_name = 2 ∷ [];
  boundary = 3 ∷ [];
  file_name = 4 ∷ [];
  secret = secret;
}

abbrev conditions : Conditions
conditions = record {
  server = healthy 7;
  adding_drive = healthy 7;
  adding = healthy 7;
  limiter = new 1024;
  random = random;
}

abbrev handling : Call ℕ → Store Bytes → Reply Failure × Store Bytes
handling =
    handle formats futures bytes_library toy_aead (stream_reader Failure) (stream_reader ℕ) service
      (λ e. []) text_reply conditions

abbrev store : Store Bytes
store = record { tables = tables; remote = [] }

-- A deletion of a file that is not there.
abbrev deletion : Request
deletion = record {
  method = delete;
  path = file 9;
  length = none;
  range = none;
  content_type = none;
  body = [];
}

-- An upload of more than is allowed.
abbrev large_upload : Request
large_upload = record deletion { method = post; path = root; length = some 11 }

too_large : (routes warp handling 10 large_upload store).1 ≡ store
unfolding routes handler_filter
too_large = refl

-- An upload of nothing is a bad request.
nothing_uploaded :
    (routes warp handling 10 (record large_upload { length = some 0 }) store).0
    ≡ reply_error 400 (codes "invalid content-length header")
unfolding routes handler_filter recover reply_error
nothing_uploaded = refl

not_deleted :
    (routes warp handling 10 deletion store).0
    ≡ with_header (reply_error 404 (codes "no such file")) (codes "server") (codes "castella")
unfolding routes handler_filter handle Db.delete_file_by_key reply_error handle_result
    Handlers.delete_file Operations.delete select_file
not_deleted = refl

routes-IsAnswered_example :
    IsAnswered warp handling store
      (some (Routes.delete_file 9))
      (routes warp handling 10 deletion store)
routes-IsAnswered_example = routes-IsAnswered warp handling 10 deletion store
