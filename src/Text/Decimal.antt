-- ===== src/Text/Decimal.antt =====
-- Decimal numbers are read back.
use native.Mathlib.Nat.{pow-suc}
use castella.Prelude.{
  ℕ, zero, suc, ◌+◌, ◌-◌, ◌*◌, ◌/◌, ◌%◌, ◌^◌, ◌≤◌, ◌<◌, ◌≡◌, ◌≢◌, refl, ap, ◌∙◌, [], ◌∷◌, ◌++◌,
  Bool-cases, ◌&&◌, inl, inr, ltb, leb, ltb→lt, some, arith, ◌==◌, true, false,
}
use castella.Text.{Text, read_digits, parse_unsigned, write_digits, decimal, split_once, is_digit}

abbrev pub All : (ℕ → Type 0) → Text → Type 0
All P [] = Unit
All P (c ∷ s) = P c × All P s

abbrev pub IsDigit : ℕ → Type 0
IsDigit c = (b'0' ≤ c) × (c ≤ b'9')

read_one :
    (limit n d : ℕ) (s : Text)
    → d < 10
    → n * 10 + d ≤ limit
    → read_digits limit n ((b'0' + d) ∷ s) ≡ read_digits limit (n * 10 + d) s
unfolding read_digits
read_one limit n d s h k =
    let e : b'0' + d - b'0' ≡ d = omega arith in
    let t : (is_digit (b'0' + d) && leb (n * 10 + d) limit) ≡ true = ground arith in rw (e, t) refl

read-write_digits :
    (limit rounds n : ℕ) (s : Text)
    → n ≤ limit
    → n < 10 ^ rounds
    → read_digits limit 0 (write_digits rounds n s) ≡ read_digits limit n s
unfolding write_digits
read-write_digits limit zero n s h k = ap (λ m. read_digits limit m s) (omega arith)
read-write_digits limit (suc rounds) n s h k = elim (Bool-cases (ltb n 10)) [
  | inl last ↦
      let small = ltb→lt n 10 last in
      let e : 0 * 10 + n % 10 ≡ n = omega arith in
      rw (last, read_one limit 0 (n % 10) s (omega arith) (omega arith), e) refl
  | inr more ↦
      let e : n / 10 * 10 + n % 10 ≡ n = omega arith in
      rw more (
        read-write_digits limit rounds (n / 10) ((b'0' + n % 10) ∷ s) (omega arith)
          (omega (arith, pow-suc 10 rounds))
        ∙ read_one limit (n / 10) (n % 10) s (omega arith) (omega arith)
        ∙ ap (λ m. read_digits limit m s) e)
]

write_digits-append :
    (rounds n : ℕ) (s t : Text) → write_digits rounds n (s ++ t) ≡ write_digits rounds n s ++ t
unfolding write_digits
write_digits-append zero n s t = refl
write_digits-append (suc rounds) n s t = elim (Bool-cases (ltb n 10)) [
  | inl last ↦ rw last refl
  | inr more ↦ rw more (write_digits-append rounds (n / 10) ((b'0' + n % 10) ∷ s) t)
]

write_digits-IsDigit :
    (rounds n : ℕ) (s : Text) → All IsDigit s → All IsDigit (write_digits rounds n s)
unfolding write_digits
write_digits-IsDigit zero n s h = h
write_digits-IsDigit (suc rounds) n s h = elim (Bool-cases (ltb n 10)) [
  | inl last ↦ rw last ((omega arith, omega arith), h)
  | inr more ↦
      rw more
        (write_digits-IsDigit rounds (n / 10) ((b'0' + n % 10) ∷ s) ((omega arith, omega arith), h))
]

pub decimal-IsDigit : (n : ℕ) → All IsDigit (decimal n)
unfolding decimal
decimal-IsDigit n = write_digits-IsDigit 20 n [] tt

write_digits-ne-nil : (rounds n : ℕ) (s : Text) → s ≢ [] → write_digits rounds n s ≢ []
unfolding write_digits
write_digits-ne-nil zero n s h = h
write_digits-ne-nil (suc rounds) n s h = elim (Bool-cases (ltb n 10)) [
  | inl last ↦ rw last (λ e. cc e)
  | inr more ↦ rw more (write_digits-ne-nil rounds (n / 10) ((b'0' + n % 10) ∷ s) (λ e. cc e))
]

pub decimal-ne-nil : (n : ℕ) → decimal n ≢ []
unfolding decimal write_digits
decimal-ne-nil n = elim (Bool-cases (ltb n 10)) [
  | inl last ↦ rw last (λ e. cc e)
  | inr more ↦ rw more (write_digits-ne-nil 19 (n / 10) ((b'0' + n % 10) ∷ []) (λ e. cc e))
]

-- A digit in front is no sign.
parse_digits :
    (limit : ℕ) (s : Text) → s ≢ [] → All IsDigit s → parse_unsigned limit s ≡ read_digits limit 0 s
unfolding parse_unsigned
parse_digits limit [] h d = absurd (h refl)
parse_digits limit (c ∷ []) h d = let e : (c == b'+') ≡ false = ground (arith, d.0) in rw e refl
parse_digits limit (c ∷ x ∷ s) h d = let e : (c == b'+') ≡ false = ground (arith, d.0) in rw e refl

-- A number within the limit of its type is read back from its decimal print.
pub parse_unsigned-decimal :
    (limit n : ℕ) → n ≤ limit → n < 10 ^ 20 → parse_unsigned limit (decimal n) ≡ some n
parse_unsigned-decimal limit n h k =
    parse_digits limit (decimal n) (decimal-ne-nil n) (decimal-IsDigit n)
    ∙ unfold decimal in read-write_digits limit 20 n [] h k ∙ unfold read_digits in refl

-- A text of digits is split off in front of a dash.
pub split_once-digits :
    (s rest : Text) → All IsDigit s → split_once b'-' (s ++ b'-' ∷ rest) ≡ some (s, rest)
unfolding split_once
split_once-digits [] rest h = refl
split_once-digits (c ∷ s) rest h =
    let e : (c == b'-') ≡ false = ground (arith, h.0) in rw (e, split_once-digits s rest h.1) refl
