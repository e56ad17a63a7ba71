-- ===== src/Tests/RateLimitTests.antt =====
-- The limits of the command line's defaults, and one that is printed as another.
use castella.Prelude.{
  ℕ, zero, suc, ◌*◌, ◌<◌, ◌≡◌, refl, Option, none, some, Result, ok, err, ◌>>=◌, arith,
}
use castella.Text.{Text, codes, split, trim_start, trim_end, parse_unsigned, decimal}
use castella.RateLimit.{Error, format, Governor, RateLimit, from_str, fmt}
use castella.RateLimit.Printed.{rate_text, fmt-from_str}

-- A quota is its period and its burst.
abbrev pub quota_with_period : ℕ → Option (ℕ × ℕ)
quota_with_period zero = none
quota_with_period (suc n) = some (suc n, 1)

pub quota_some :
    (period : ℕ) → 0 < period → (quota : ℕ × ℕ) × (quota_with_period period ≡ some quota)
quota_some zero h = absurd (omega arith)
quota_some (suc n) h = ((suc n, 1), refl)

pub replenished :
    (period burst : ℕ) (quota : ℕ × ℕ)
    → quota_with_period period ≡ some quota
    → quota.0 * burst ≡ period * burst
replenished zero burst quota h = cc
replenished (suc n) burst quota h = ground arith

abbrev pub governor : Governor
governor = record {
  Quota = ℕ × ℕ;
  with_period = quota_with_period;
  allow_burst = λ quota burst. (quota.0, burst);
  burst_size = λ quota. quota.1;
  burst_size_replenished_in = λ quota. quota.0 * quota.1;
  with_period_zero = refl;
  with_period_some = quota_some;
  burst_size_lem = λ quota burst. refl;
  replenished_lem = λ period burst quota h small. replenished period burst quota h;
}

abbrev reprint : Text → Result Error Text
reprint s = from_str governor s >>= λ limit. ok (fmt governor limit)

-- 700000 does not divide the nanoseconds of a day.
reprint_default : reprint (codes "700000/86400") ≡ ok (codes "700000/86399")
unfolding from_str fmt decimal split parse_unsigned trim_end trim_start
reprint_default = refl

reprint_spaces : reprint (codes "10000 / 100") ≡ ok (codes "10000/100")
unfolding from_str fmt decimal split parse_unsigned trim_end trim_start
reprint_spaces = refl

reprint_three_parts : reprint (codes "1/2/3") ≡ err format
unfolding from_str fmt decimal split parse_unsigned trim_end trim_start
reprint_three_parts = refl

fmt-from_str_example : reprint (rate_text 3 1) ≡ ok (codes "3/0")
unfolding decimal
fmt-from_str_example = fmt-from_str governor 3 1 (omega arith) (omega arith) (omega arith)

abbrev pub limit : RateLimit governor
limit = record { quota = (10000000, 10000) }
