-- ===== src/Text.antt =====
-- What the program uses of Rust's `str`, over the code points of a text: prefixes, splitting at a
-- character, and unsigned decimal numbers read by `FromStr` and written by `Display`.
pub mod Decimal
use Prim.Native.Char.{code}
use castella.Prelude.{
  ℕ, zero, suc, ◌+◌, ◌-◌, ◌*◌, ◌/◌, ◌%◌, ◌≤◌, [], ◌∷◌, List, Bool, true, false, ◌&&◌, ◌||◌, Option,
  none, some, String, leb, ltb, ◌==◌, if◌then◌else◌,
}

abbrev pub Text : Type 0
Text = List ℕ

-- The code points of a literal.
abbrev pub codes : String → Text
codes String.[] = []
codes (String.◌∷◌ c s) = code c ∷ codes s

-- `starts_with(prefix)` together with the slice behind the prefix.
unfoldable pub strip_prefix : Text → Text → Option Text
strip_prefix [] s = some s
strip_prefix (p ∷ prefix) [] = none
strip_prefix (p ∷ prefix) (c ∷ s) = if p == c then strip_prefix prefix s else none

-- `split_once(c)`
unfoldable pub split_once : ℕ → Text → Option (Text × Text)
split_once sep [] = none
split_once sep (c ∷ s) =
    let later = split_once sep s in
    if c == sep
    then some ([], s)
    else elim later [ none ↦ none | some (before, after) ↦ some (c ∷ before, after) ]

-- `split(c)`
unfoldable pub split : ℕ → Text → List Text
split sep [] = [] ∷ []
split sep (c ∷ s) = elim (split sep s) [
  | [] ↦ [] ∷ []
  | piece ∷ pieces ↦ if c == sep then [] ∷ piece ∷ pieces else (c ∷ piece) ∷ pieces
]

-- `char::is_whitespace`: Unicode's White_Space.
abbrev pub is_whitespace : ℕ → Bool
is_whitespace c =
    (leb 9 c && leb c 13)
    || c == 32
    || c == 133
    || c == 160
    || c == 5760
    || (leb 8192 c && leb c 8202)
    || c == 8232
    || c == 8233
    || c == 8239
    || c == 8287
    || c == 12288

-- `trim_start()` and `trim_end()`
unfoldable pub trim_start : Text → Text
trim_start [] = []
trim_start (c ∷ s) = let rest = trim_start s in if is_whitespace c then rest else c ∷ s

unfoldable pub trim_end : Text → Text
trim_end [] = []
trim_end (c ∷ s) = elim (trim_end s) [
  | [] ↦ if is_whitespace c then [] else c ∷ []
  | d ∷ rest ↦ c ∷ d ∷ rest
]

abbrev pub is_digit : ℕ → Bool
is_digit c = leb b'0' c && leb c b'9'

-- The digits of a number behind `n`; past `limit` is an overflow.
unfoldable pub read_digits : ℕ → ℕ → Text → Option ℕ
read_digits limit n [] = some n
read_digits limit n (c ∷ s) =
    let m = n * 10 + (c - b'0') in if is_digit c && leb m limit then read_digits limit m s else none

-- `parse()` for an unsigned type with the largest value `limit`: a `+` may stand in front, and there
-- is a digit at least.
unfoldable pub parse_unsigned : ℕ → Text → Option ℕ
unfolding read_digits
parse_unsigned limit [] = none
parse_unsigned limit (c ∷ []) = if c == b'+' then none else read_digits limit 0 (c ∷ [])
parse_unsigned limit (c ∷ d ∷ s) =
    if c == b'+' then read_digits limit 0 (d ∷ s) else read_digits limit 0 (c ∷ d ∷ s)

-- The digits of `n` in front of `out`, in so many rounds at most.
unfoldable pub write_digits : ℕ → ℕ → Text → Text
write_digits zero n out = out
write_digits (suc rounds) n out =
    let digit = b'0' + n % 10 in
    let more = write_digits rounds (n / 10) (digit ∷ out) in if ltb n 10 then digit ∷ out else more

-- `{}` of a u64: 20 digits are enough.
unfoldable pub decimal : ℕ → Text
unfolding write_digits
decimal n = write_digits 20 n []
