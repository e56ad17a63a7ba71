-- ===== src/Header/RoundTrip.antt =====
-- The range headers that are read as they are meant, and those that are not.
use castella.Prelude.{ℕ, ◌≤◌, ◌≡◌, ◌≢◌, refl, [], ◌∷◌, ◌++◌, some, arith}
use castella.Prelude.Ranges.{Bound, included, unbounded}
use castella.Text.{Text, codes, decimal, parse_unsigned}
use castella.Text.Decimal.{
  decimal-IsDigit, decimal-ne-nil, parse_unsigned-decimal, split_once-digits, All, IsDigit,
}
use castella.Header.{u64_max, parse_bound, parse_single_range_header}

parse_bound-ne-nil :
    (s : Text) (n : ℕ)
    → s ≢ []
    → parse_unsigned u64_max s ≡ some n
    → parse_bound s ≡ some (included n)
unfolding parse_bound
parse_bound-ne-nil [] n h e = absurd (h refl)
parse_bound-ne-nil (c ∷ s) n h e = rw (e, parse_bound) refl

parse_bound-decimal : (n : ℕ) → n ≤ u64_max → parse_bound (decimal n) ≡ some (included n)
parse_bound-decimal n h =
    parse_bound-ne-nil (decimal n) n (decimal-ne-nil n)
      (parse_unsigned-decimal u64_max n h (omega arith))

abbrev pub range_text : Text → Text → Text
range_text first last = codes "bytes=" ++ first ++ b'-' ∷ last

parse_range_text :
    (first last : Text) (start end : Bound)
    → All IsDigit first
    → parse_bound first ≡ some start
    → parse_bound last ≡ some end
    → parse_single_range_header (range_text first last) ≡ some (record { start = start; end = end })
unfolding parse_single_range_header
parse_range_text first last start end digits e d =
    rw (split_once-digits first last digits, e, d, parse_single_range_header) refl

parse_bound-nil : parse_bound [] ≡ some unbounded
unfolding parse_bound
parse_bound-nil = refl

-- `bytes=a-b` with numbers of 64 bits is the range from `a` to `b`, both included; `bytes=a-` has no end,
-- and `bytes=-b` is read as the range from the beginning of the file to `b`.
pub parse_single_range_header-range_text :
    (a b : ℕ)
    → a ≤ u64_max
    → b ≤ u64_max
    → (parse_single_range_header (range_text (decimal a) (decimal b))
        ≡ some (record { start = included a; end = included b }))
      × (parse_single_range_header (range_text (decimal a) [])
          ≡ some (record { start = included a; end = unbounded }))
      × (parse_single_range_header (range_text [] (decimal b))
          ≡ some (record { start = unbounded; end = included b }))
parse_single_range_header-range_text a b ha hb =
    let first = parse_bound-decimal a ha in
    let last = parse_bound-decimal b hb in
    let digits = decimal-IsDigit a in
    (
      parse_range_text (decimal a) (decimal b) (included a) (included b) digits first last,
      parse_range_text (decimal a) [] (included a) unbounded digits first parse_bound-nil,
      parse_range_text [] (decimal b) unbounded (included b) tt parse_bound-nil last,
    )
