-- ===== src/Prelude/Ranges.antt =====
-- `std::ops`: `Bound<u64>`, `Range<u64>`, and a pair of bounds.
use Prim.Native.Nat.{ℕ}

pub data Bound : Type 0 where
  included : ℕ → Bound
  excluded : ℕ → Bound
  unbounded : Bound

pub record Range : Type 0 where
  pub start : ℕ
  pub end : ℕ

-- `impl RangeBounds<u64>`: what the range code asks of a range is its two bounds.
pub record RangeBounds : Type 0 where
  pub start_bound : Bound
  pub end_bound : Bound
