-- ===== src/Tests/BandwidthTests.antt =====
-- The limiter alone, and on two threads.
use castella.Prelude.{ℕ, ◌+◌, ◌*◌, ◌<◌, ◌≡◌, refl, [], ◌∷◌, ok, err, Bytes, arith}
use castella.Stream.Flow.{Stream, bytes_of, failure}
use castella.Stream.Concrete.{futures}
use castella.Stream.Bandwidth.{new, cells, rest_of, charge, throttle, throttle_stream, debug_stream}
use castella.Stream.Bandwidth.Passing.{until_error, throttle_stream_transparent}
use castella.Stream.Bandwidth.Threads.{
  here, next, load, exchange, retry, grant, refuse, outside, looping, AllAtMost, AllAbove, unit,
  Reach-balance,
}

abbrev broken : Stream ℕ Bytes
broken = ok (1 ∷ 2 ∷ []) ∷ err 7 ∷ ok (3 ∷ []) ∷ []

throttle_run :
    throttle (new 4) (1 ∷ 2 ∷ 3 ∷ 4 ∷ 5 ∷ []) ≡ record { unit = 4; leftover = 1; charged = 1 ∷ [] }
unfolding throttle new
throttle_run = refl

throttle_stream_transparent_example :
    (throttle_stream futures broken (new 1) ≡ until_error broken)
    × (debug_stream futures broken ≡ until_error broken)
    × (bytes_of (throttle_stream futures broken (new 1)) ≡ bytes_of broken)
    × (failure (throttle_stream futures broken (new 1)) ≡ failure broken)
throttle_stream_transparent_example = throttle_stream_transparent futures broken (new 1)

-- Thread 0 loads, thread 1 loads, exchanges, and is granted its cell; thread 0's exchange fails once, and
-- its 2 cells are refused by a limiter with a burst of 1.
Reach-balance_example :
    ((1 + (2 + 0) + 0) * unit + 354272 ≡ 3500000)
    × (354272 < unit)
    × AllAtMost 1 (1 ∷ [])
    × AllAbove 1 (2 ∷ [])
unfolding cells rest_of charge
Reach-balance_example = Reach-balance 2 (
    next
      (next
        (next
          (next
            (next
              (next (next here (load [] (outside ∷ []) 1500000 refl (omega arith)))
                (load (looping 0 1500000 ∷ []) [] 2000000 refl (omega arith)))
              (exchange (looping 0 1500000 ∷ []) [] 0 2000000 refl refl))
            (grant (looping 0 1500000 ∷ []) [] 1 refl (omega arith)))
          (retry [] (outside ∷ []) 0 1500000 refl))
        (exchange [] (outside ∷ []) 951424 1500000 refl refl))
      (refuse [] (outside ∷ []) 2 refl (omega arith)))
