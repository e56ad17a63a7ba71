-- ===== src/Header.antt =====
-- src/header.rs: the `range` header of a request.
pub mod RoundTrip
use castella.Prelude.{ℕ, ◌-◌, ◌+◌, ◌^◌, [], ◌∷◌, ◌++◌, Option, none, some}
use castella.Prelude.Ranges.{Bound, included, excluded, unbounded, RangeBounds}
use castella.Text.{Text, codes, strip_prefix, split_once, parse_unsigned}

-- `bound_as_ref` copies a bound for its reference.
unfoldable pub bound_as_ref : Bound → Bound
bound_as_ref (included x) = included x
bound_as_ref (excluded x) = excluded x
bound_as_ref unbounded = unbounded

pub record RangeCustom : Type 0 where
  pub start : Bound
  pub end : Bound

-- `impl RangeBounds<T> for RangeCustom<T>`
unfoldable pub range_bounds : RangeCustom → RangeBounds
unfolding bound_as_ref
range_bounds r = record { start_bound = bound_as_ref r.start; end_bound = bound_as_ref r.end }

abbrev pub u64_max : ℕ
u64_max = 2 ^ 64 - 1

-- One side of the dash: nothing is no bound, and a number is included.
unfoldable pub parse_bound : Text → Option Bound
unfolding parse_unsigned
parse_bound [] = some unbounded
parse_bound (c ∷ s) = elim (parse_unsigned u64_max (c ∷ s)) [
  | none ↦ none
  | some n ↦ some (included n)
]

unfoldable pub parse_single_range_header : Text → Option RangeCustom
unfolding strip_prefix
parse_single_range_header s = elim (strip_prefix (codes "bytes=") s) [
  | none ↦ none
  | some spec ↦ elim (split_once b'-' spec) [
    | none ↦ none
    | some (first, last) ↦ elim (parse_bound first) [
      | none ↦ none
      | some start ↦ elim (parse_bound last) [
        | none ↦ none
        | some end ↦ some (record { start = start; end = end })
      ]
    ]
  ]
]
