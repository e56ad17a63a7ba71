-- ===== src/Stream/Bandwidth.antt =====
-- `BandwidthLimiter` and `throttle_stream` of src/stream.rs.
pub mod Passing
pub mod Threads
use castella.Prelude.{
  ℕ, zero, suc, ◌+◌, ◌/◌, ◌%◌, [], ◌∷◌, List, Option, none, some, Result, ok, err, Bytes, length,
  ◌==◌, if◌then◌else◌,
}
use castella.Prelude.Words.{add_u64, as_u32}
use castella.Stream.Flow.{Stream}
use castella.Stream.Library.{Futures}

-- `BandwidthLimiter`: the unit, and the bytes that are not yet charged. `charged` lists the cells that
-- `until_n_ready` was asked for, the last one in front.
pub record BandwidthLimiter : Type 0 where
  pub unit : ℕ
  pub leftover : ℕ
  pub charged : List ℕ

-- `BandwidthLimiter::new`
unfoldable pub new : ℕ → BandwidthLimiter
new unit = record { unit = unit; leftover = 0; charged = [] }

-- `consume` and `new` of one round of the loop.
unfoldable pub cells : ℕ → ℕ → ℕ → ℕ
cells unit old size = as_u32 (add_u64 old size / unit)

unfoldable pub rest_of : ℕ → ℕ → ℕ → ℕ
rest_of unit old size = add_u64 old size % unit

-- Cells are charged only if `consume` is not zero.
unfoldable pub charge : ℕ → List ℕ → List ℕ
charge consume charged = if consume == 0 then charged else consume ∷ charged

-- `throttle`, where no other thread comes between the load and the exchange.
unfoldable pub throttle : BandwidthLimiter → Bytes → BandwidthLimiter
unfolding cells rest_of charge
throttle l buffer = record l {
  leftover = rest_of l.unit l.leftover (length buffer);
  charged = charge (cells l.unit l.leftover (length buffer)) l.charged;
}

-- `State` of `throttle_stream`.
pub record ThrottleState (E : Type 0) : Type 0 where
  pub stream : Stream E Bytes
  pub limiter : BandwidthLimiter

module _ {E : Type 0} where
  unfoldable pub throttle_next :
      Stream E Bytes → BandwidthLimiter → Result E (Option (Bytes × ThrottleState E))
  throttle_next [] limiter = ok none
  throttle_next (err e ∷ stream) limiter = err e
  throttle_next (ok buffer ∷ stream) limiter =
      ok (some (buffer, record { stream = stream; limiter = throttle limiter buffer }))

  -- The closure given to `try_unfold`.
  unfoldable pub throttle_step : ThrottleState E → Result E (Option (Bytes × ThrottleState E))
  unfolding throttle_next
  throttle_step s = throttle_next s.stream s.limiter

  -- `throttle_stream(stream, limiter)`, polled to its end: a poll that gives an item takes one.
  unfoldable pub throttle_stream : Futures → Stream E Bytes → BandwidthLimiter → Stream E Bytes
  unfolding throttle_step
  throttle_stream futures stream limiter =
      futures.try_unfold (suc (length stream)) throttle_step
        (record { stream = stream; limiter = limiter })

  -- `debug_stream`
  unfoldable pub debug_step : Stream E Bytes → Result E (Option (Bytes × Stream E Bytes))
  debug_step [] = ok none
  debug_step (err e ∷ stream) = err e
  debug_step (ok buffer ∷ stream) = ok (some (buffer, stream))

  unfoldable pub debug_stream : Futures → Stream E Bytes → Stream E Bytes
  unfolding debug_step
  debug_stream futures stream = futures.try_unfold (suc (length stream)) debug_step stream
