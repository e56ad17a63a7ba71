-- ===== src/Server/Partial.antt =====
-- Replies to requests for a range.
use castella.Prelude.{
  ℕ, ◌+◌, ◌≤◌, ◌<◌, ◌≡◌, refl, Option, none, some, ◌++◌, arith, if◌then◌else◌, [], ◌∷◌, List,
}
use castella.Prelude.Words.{u64_mod}
use castella.Prelude.Ranges.{included, unbounded}
use castella.Text.{Text, codes, decimal}
use castella.Header.{range_bounds}
use castella.Header.RoundTrip.{range_text, parse_single_range_header-range_text}
use castella.Store.Layout.{requested_range}
use castella.Store.Layout.Bounds.{requested_range-resolved}
use castella.Db.Rows.{text_eq}
use castella.Drive
use castella.Server.{range_argument}

module _ (a b size : ℕ) (inside : b < size) (small : size < u64_mod) where
  -- For a file of less than 2 ^ 64 bytes and positions a ≤ b within it, the header `bytes=a-b` selects
  -- the bytes from `a` to `b`, both included, and `bytes=a-` those from `a` to the end of the file.
  pub requested_range-range_text :
      a ≤ b
      → (requested_range (range_argument (some (range_text (decimal a) (decimal b)))) size
          ≡ record { start = a; end = b + 1 })
        × (requested_range (range_argument (some (range_text (decimal a) []))) size
            ≡ record { start = a; end = size })
  unfolding range_argument range_bounds
  requested_range-range_text ordered =
      let parsed = parse_single_range_header-range_text a b (omega arith) (omega arith) in
      (
        rw (parsed.0, range_argument)
            (requested_range-resolved (record { start_bound = included a; end_bound = included b })
              size a (b + 1) refl (omega arith) (omega arith) (omega arith)),
        rw (parsed.1, range_argument)
            (requested_range-resolved (record { start_bound = included a; end_bound = unbounded })
              size a size refl refl (omega arith) (omega arith)),
      )

module _ (b size : ℕ) (inside : b < size) (small : size < u64_mod) where
  -- The header `bytes=-b`, which asks for the last `b` bytes by the HTTP standard, selects the first
  -- `b + 1` bytes of a file of less than 2 ^ 64 bytes that has more than `b`.
  pub requested_range-suffix :
      requested_range (range_argument (some (range_text [] (decimal b)))) size
      ≡ record { start = 0; end = b + 1 }
  unfolding range_argument range_bounds
  requested_range-suffix =
      let parsed = parse_single_range_header-range_text 0 b (omega arith) (omega arith) in
      rw (parsed.2, range_argument)
        (requested_range-resolved (record { start_bound = unbounded; end_bound = included b }) size
          0 (b + 1) refl (omega arith) (omega arith) (omega arith))

-- A header of a reply by its name, the last one set.
abbrev pub header_of : Text → List (Text × Text) → Option Text
header_of name [] = none
header_of name ((n, v) ∷ hs) = elim (header_of name hs) [
  | some w ↦ some w
  | none ↦ if text_eq n name then some v else none
]

-- The text of positions `a` to `b` of so many bytes.
abbrev pub positions : ℕ → ℕ → ℕ → Text
positions a b size = codes "bytes " ++ (decimal a ++ b'-' ∷ (decimal b ++ b'/' ∷ decimal size))
