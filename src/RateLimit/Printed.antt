-- ===== src/RateLimit/Printed.antt =====
-- How a rate limit that was read is printed.
use native.Mathlib.Nat.{
  mod-add-div, mod-lt, div-mul-le_self, div-eq_of_lt, le-div_iff_mul-le, mul_comm,
}
use castella.Prelude.{
  ℕ, ◌+◌, ◌-◌, ◌*◌, ◌/◌, ◌%◌, ◌^◌, ◌<◌, ◌≤◌, ◌≡◌, refl, sym, ap, ◌∙◌, [], ◌∷◌, ◌++◌, some, ok, err,
  ◌>>=◌, false, ◌==◌, if◌then◌else◌, arith, ltb, ltb→lt, Bool-cases, inl, inr,
}
use castella.Prelude.Words.{u64_mod}
use castella.Text.{Text, split, trim_start, trim_end, decimal, is_whitespace}
use castella.Text.Decimal.{All, IsDigit, decimal-IsDigit, parse_unsigned-decimal}
use castella.RateLimit.{
  format, Governor, from_secs, as_secs, parse_non_zero, next_part, no_part, quota_of, from_str, fmt,
}

-- A limit as it is written.
abbrev pub rate_text : ℕ → ℕ → Text
rate_text burst period = decimal burst ++ b'/' ∷ decimal period

-- The seconds that are printed.
abbrev pub printed : ℕ → ℕ → ℕ
printed burst period = if from_secs period % burst == 0 then period else period - 1

printed_at :
    (burst period rest whole : ℕ)
    → rest + whole ≡ from_secs period
    → rest < burst
    → burst ≤ 1000000000
    → as_secs whole ≡ (if rest == 0 then period else period - 1)
printed_at burst period rest whole sum small h = ground arith

printed_lem :
    (burst period : ℕ)
    → 0 < burst
    → burst ≤ 1000000000
    → as_secs (from_secs period / burst * burst) ≡ printed burst period
printed_lem burst period h k =
    printed_at burst period (from_secs period % burst) (from_secs period / burst * burst)
      (ap (λ n. from_secs period % burst + n) (mul_comm (from_secs period / burst) burst)
        ∙ mod-add-div (from_secs period) burst)
      (mod-lt (from_secs period) h) k

split-digits : (s : Text) → All IsDigit s → split b'/' s ≡ s ∷ []
unfolding split
split-digits [] h = refl
split-digits (c ∷ s) h =
    let e : (c == b'/') ≡ false = ground (arith, h.0) in rw (split-digits s h.1, e) refl

split-rate : (s t : Text) → All IsDigit s → All IsDigit t → split b'/' (s ++ b'/' ∷ t) ≡ s ∷ t ∷ []
unfolding split
split-rate [] t h k = rw (split-digits t k) refl
split-rate (c ∷ s) t h k =
    let e : (c == b'/') ≡ false = ground (arith, h.0) in rw (split-rate s t h.1 k, e) refl

digit_not_whitespace : (c : ℕ) → IsDigit c → is_whitespace c ≡ false
digit_not_whitespace c h = ground (arith, h.0)

trim_start-digits : (s : Text) → All IsDigit s → trim_start s ≡ s
unfolding trim_start
trim_start-digits [] h = refl
trim_start-digits (c ∷ s) h = rw (digit_not_whitespace c h.0) refl

trim_end-digits : (s : Text) → All IsDigit s → trim_end s ≡ s
unfolding trim_end
trim_end-digits [] h = refl
trim_end-digits (c ∷ []) h = rw (digit_not_whitespace c h.0) refl
trim_end-digits (c ∷ d ∷ s) h = rw (trim_end-digits (d ∷ s) h.1) refl

parse_non_zero-decimal :
    (burst : ℕ) → 0 < burst → burst < 2 ^ 32 → parse_non_zero (decimal burst) ≡ some burst
unfolding parse_non_zero
parse_non_zero-decimal burst h k =
    let e : (burst == 0) ≡ false = ground arith in
    rw (parse_non_zero, parse_unsigned-decimal (2 ^ 32 - 1) burst (omega arith) (omega arith), e)
      refl

module _ (governor : Governor) where
  from_str-rate_text :
      (burst period : ℕ)
      → 0 < burst
      → burst < 2 ^ 32
      → period < 2 ^ 64
      → from_str governor (rate_text burst period) ≡ quota_of governor burst period
  unfolding from_str next_part no_part
  from_str-rate_text burst period h k l =
      rw
        (
          split-rate (decimal burst) (decimal period) (decimal-IsDigit burst)
              (decimal-IsDigit period),
          trim_end-digits (decimal burst) (decimal-IsDigit burst),
          trim_start-digits (decimal period) (decimal-IsDigit period),
          parse_non_zero-decimal burst h k,
          parse_unsigned-decimal (2 ^ 64 - 1) period (omega arith) (omega arith),
        )
        refl

  quota_printed :
      (burst period each : ℕ)
      → 0 < burst
      → burst ≤ 1000000000
      → from_secs period < 2 ^ 64
      → each ≡ from_secs period / burst
      → 0 < each
      → (quota_of governor burst period >>= λ limit. ok (fmt governor limit))
        ≡ ok (rate_text burst (printed burst period))
  unfolding quota_of fmt
  quota_printed burst period each h k l same positive =
      let (quota, found) = governor.with_period_some each positive in
      let fits : from_secs period / burst * burst < u64_mod =
        omega (arith, div-mul-le_self (from_secs period) burst) in
      rw
        (
          sym same,
          found,
          governor.burst_size_lem quota burst,
          governor.replenished_lem each burst quota found (rw same fits),
          ap (λ n. as_secs (n * burst)) same ∙ printed_lem burst period h k,
        )
        refl

  quota_refused :
      (burst period : ℕ) → from_secs period < burst → quota_of governor burst period ≡ err format
  unfolding quota_of
  quota_refused burst period h = rw (div-eq_of_lt h, governor.with_period_zero) refl

  -- A limit of a burst of 1 to 10^9 and a period of fewer than 2^64 nanoseconds, written in seconds: it is
  -- refused if there is less than a nanosecond for each of the burst. Otherwise it is read, and printed
  -- as it was written if the burst divides the period in nanoseconds, and with a second less if not.
  pub fmt-from_str :
      (burst period : ℕ)
      → 0 < burst
      → burst ≤ 1000000000
      → from_secs period < 2 ^ 64
      → (from_str governor (rate_text burst period) >>= λ limit. ok (fmt governor limit)) ≡ (
          if ltb (from_secs period) burst
          then err format
          else ok (rate_text burst (printed burst period)))
  fmt-from_str burst period h k l =
      rw (from_str-rate_text burst period h (omega arith) (omega arith))
        (elim (Bool-cases (ltb (from_secs period) burst)) [
          | inl short ↦
              rw (short, quota_refused burst period (ltb→lt (from_secs period) burst short)) refl
          | inr enough ↦
              rw enough (
                quota_printed burst period (from_secs period / burst) h k l refl (le-div_at enough))
        ])
    where
      le-div_at : ltb (from_secs period) burst ≡ false → 0 < from_secs period / burst
      le-div_at enough =
          let e : 1 * burst ≤ from_secs period = ground arith in (le-div_iff_mul-le h).1 e
