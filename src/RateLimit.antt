-- ===== src/RateLimit.antt =====
-- src/rate_limit.rs: a rate limit as text, and the quota of the governor crate that is made of it.
pub mod Printed
use castella.Prelude.{
  ℕ, ◌-◌, ◌*◌, ◌/◌, ◌^◌, ◌<◌, ◌≡◌, [], ◌∷◌, ◌++◌, List, Option, none, some, Result, ok, err, ok_or,
  ◌>>=◌, Bool, ◌==◌, if◌then◌else◌,
}
use castella.Prelude.Words.{u32_mod, u64_mod}
use castella.Text.{Text, split, trim_start, trim_end, parse_unsigned, decimal}

-- `Error`
pub data Error : Type 0 where
  format : Error

-- `std::time::Duration`, as its nanoseconds.
abbrev pub from_secs : ℕ → ℕ
from_secs seconds = seconds * 1000000000

abbrev pub as_secs : ℕ → ℕ
as_secs nanoseconds = nanoseconds / 1000000000

-- governor: `Quota`. There is no quota of period 0; the burst of a quota is replenished in that many of
-- its periods, as long as their nanoseconds fit into 64 bits.
pub record Governor : Type 1 where
  pub Quota : Type 0
  pub with_period : ℕ → Option Quota
  pub allow_burst : Quota → ℕ → Quota
  pub burst_size : Quota → ℕ
  pub burst_size_replenished_in : Quota → ℕ
  pub with_period_zero : with_period 0 ≡ none
  pub with_period_some :
      (period : ℕ) → 0 < period → (quota : Quota) × (with_period period ≡ some quota)
  pub burst_size_lem : (quota : Quota) (burst : ℕ) → burst_size (allow_burst quota burst) ≡ burst
  pub replenished_lem :
      (period burst : ℕ) (quota : Quota)
      → with_period period ≡ some quota
      → period * burst < u64_mod
      → burst_size_replenished_in (allow_burst quota burst) ≡ period * burst

-- `parse()` for NonZeroU32.
unfoldable pub parse_non_zero : Text → Option ℕ
parse_non_zero s = elim (parse_unsigned (2 ^ 32 - 1) s) [
  | none ↦ none
  | some n ↦ if n == 0 then none else some n
]

-- `next()` of the parts.
unfoldable pub next_part : List Text → Result Error (Text × List Text)
next_part [] = err format
next_part (part ∷ parts) = ok (part, parts)

-- There is no part left.
unfoldable pub no_part : List Text → Result Error (Unit {0})
no_part [] = ok tt
no_part (part ∷ parts) = err format

module _ (governor : Governor) where
  pub record RateLimit : Type 0 where
    pub quota : governor.Quota

  -- The quota of a burst and a period in seconds.
  unfoldable pub quota_of : ℕ → ℕ → Result Error RateLimit
  quota_of burst period =
      ok_or (governor.with_period (from_secs period / burst)) format >>= λ quota.
      ok (record { quota = governor.allow_burst quota burst })

  -- `FromStr::from_str`
  unfoldable pub from_str : Text → Result Error RateLimit
  unfolding next_part no_part parse_non_zero quota_of
  from_str s = next_part (split b'/' s) >>= λ (first : Text × List Text).
      next_part first.1 >>= λ (second : Text × List Text). no_part second.1 >>= λ _.
      ok_or (parse_non_zero (trim_end first.0)) format >>= λ burst.
      ok_or (parse_unsigned (2 ^ 64 - 1) (trim_start second.0)) format >>= λ period.
      quota_of burst period

  -- `Display::fmt`
  unfoldable pub fmt : RateLimit → Text
  fmt limit =
      decimal (governor.burst_size limit.quota)
      ++ b'/' ∷ decimal (as_secs (governor.burst_size_replenished_in limit.quota))
