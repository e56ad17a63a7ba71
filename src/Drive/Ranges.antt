-- ===== src/Drive/Ranges.antt =====
-- The range that `get_file` asks for, and the ranges that it accepts.
use castella.Prelude.{
  ℕ, ◌-◌, ◌≤◌, ◌<◌, ◌≡◌, refl, Result, ok, err, some, arith, ◌>>=◌, lt→ltb, le→leb,
}
use castella.Prelude.Words.{u64_mod, saturating_add_u64}
use castella.Prelude.Ranges.{Range, included}
use castella.Header.{RangeCustom, range_bounds, parse_single_range_header}
use castella.Header.RoundTrip.{parse_single_range_header-range_text}
use castella.Store.Layout.{resolve_range}
use castella.Drive.{
  Error, Response, Remote, FileHandle, FileResponse, get_media, file_get, authorized_send,
  check_range, get_file, range_header,
}

module _ {W B X J A : Type 0} (remote : Remote W B X J A) where
  abbrev Answer : Type 0
  Answer = FileResponse (Error X J A)

  check_range_covers :
      (range : Range) (response : Response X) {f : Answer}
      → check_range range response ≡ ok f
      → (f.range.start ≤ range.start) × (range.end ≤ f.range.end)
  unfolding check_range
  check_range_covers range response h = ground arith

  bind_covers :
      (range : Range) (r : Result (Error X J A) (Response X)) {f : Answer}
      → (r >>= check_range range) ≡ ok f
      → (f.range.start ≤ range.start) × (range.end ≤ f.range.end)
  bind_covers range (ok response) h = check_range_covers range response h
  bind_covers range (err e) h = cc

  -- Whatever the service answers, a response that `get_file` returns holds the whole requested range, so
  -- the caller may subtract its start.
  pub get_file_covers :
      (file : FileHandle) (range : Range) (w : W) {f : Answer}
      → (get_file remote file range w).0 ≡ ok f
      → (f.range.start ≤ range.start) × (range.end ≤ f.range.end)
  unfolding get_file
  get_file_covers file range w h =
      bind_covers range
        (authorized_send remote file_get (λ a. get_media file.id a (range_header range)) w).0 h

resolve_included :
    (range : Range) (size : ℕ)
    → range.start < range.end
    → range.end ≤ size
    → size < u64_mod
    → resolve_range
        (range_bounds (record { start = included range.start; end = included (range.end - 1) }))
        size
      ≡ some range
unfolding resolve_range range_bounds
resolve_included range size h k small =
    let e : saturating_add_u64 (range.end - 1) 1 ≡ range.end = omega arith in
    rw (e, lt→ltb range.start range.end h, le→leb range.end size k) refl

-- The header that `get_file` sends for a range that is not empty is read, by the program's own reader of
-- range headers, as the range from its start to its last byte, and that is resolved to exactly the
-- range, for any file of less than 2 ^ 64 bytes that holds it.
pub range_header-resolve_range :
    (range : Range) (size : ℕ)
    → range.start < range.end
    → range.end ≤ size
    → size < u64_mod
    → let parsed : RangeCustom = record {
      start = included range.start;
      end = included (range.end - 1);
    } in
      (parse_single_range_header (range_header range) ≡ some parsed)
      × (resolve_range (range_bounds parsed) size ≡ some range)
range_header-resolve_range range size h k small = (
  unfold range_header in
      (parse_single_range_header-range_text range.start (range.end - 1) (omega arith)
        (omega arith)).0,
  resolve_included range size h k small,
)
