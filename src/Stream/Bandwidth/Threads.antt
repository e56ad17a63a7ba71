-- ===== src/Stream/Bandwidth/Threads.antt =====
-- `throttle` on many threads that share one limiter: a step is an atomic load, a compare-exchange that
-- succeeds, one that fails, which the weak exchange may do at any time, or the end of the wait for the
-- limiter. A thread that is dropped while it waits makes no further step.
use castella.Prelude.{
  ℕ, zero, suc, ◌+◌, ◌*◌, ◌≤◌, ◌<◌, ◌≡◌, refl, ap, [], ◌∷◌, ◌++◌, List, arith, Bool-cases, inl, inr,
  ◌==◌,
}
use castella.Prelude.Words.{u32_mod}
use castella.Stream.Bandwidth.{cells, rest_of, charge}

-- The unit of the upload limiter, 1 MiB.
abbrev pub unit : ℕ
unit = 1024 * 1024

-- Where a thread is: outside `throttle`, in its loop with the value `old` and the buffer's length, or
-- behind the loop with the cells that it has to wait for.
pub data Phase : Type 0 where
  outside : Phase
  looping : ℕ → ℕ → Phase
  waiting : ℕ → Phase

-- The shared counter, the cells that the limiter granted, those that it refused, the bytes that went
-- through the exchange, and the threads.
pub record System : Type 0 where
  pub leftover : ℕ
  pub granted : List ℕ
  pub refused : List ℕ
  pub passed : ℕ
  pub threads : List Phase

-- One step of a thread. A buffer is shorter than 4 GiB. `until_n_ready` waits for the cells if they are
-- at most the burst of the limiter, and fails at once if they are more; the failure is ignored. It is
-- not called for 0 cells.
pub data Step (burst : ℕ) (s : System) : System → Type 0 where
  load :
      (before after : List Phase) (size : ℕ)
      → s.threads ≡ before ++ outside ∷ after
      → size < u32_mod
      → Step burst s (record s { threads = before ++ looping s.leftover size ∷ after })
  retry :
      (before after : List Phase) (old size : ℕ)
      → s.threads ≡ before ++ looping old size ∷ after
      → Step burst s (record s { threads = before ++ looping s.leftover size ∷ after })
  exchange :
      (before after : List Phase) (old size : ℕ)
      → s.threads ≡ before ++ looping old size ∷ after
      → s.leftover ≡ old
      → Step burst s (record s {
        leftover = rest_of unit old size;
        passed = s.passed + size;
        threads = before ++ waiting (cells unit old size) ∷ after;
      })
  grant :
      (before after : List Phase) (consume : ℕ)
      → s.threads ≡ before ++ waiting consume ∷ after
      → consume ≤ burst
      → Step burst s
          (record s { granted = charge consume s.granted; threads = before ++ outside ∷ after })
  refuse :
      (before after : List Phase) (consume : ℕ)
      → s.threads ≡ before ++ waiting consume ∷ after
      → burst < consume
      → Step burst s
          (record s { refused = charge consume s.refused; threads = before ++ outside ∷ after })

pub data Reach (burst : ℕ) (s : System) : System → Type 0 where
  here : Reach burst s s
  next : {t u : System} → Reach burst s t → Step burst t u → Reach burst s u

-- The sum of some cells.
abbrev pub total : List ℕ → ℕ
total [] = 0
total (n ∷ ns) = n + total ns

-- The cells that threads wait for.
abbrev pub cells_of : Phase → ℕ
cells_of outside = 0
cells_of (looping old size) = 0
cells_of (waiting n) = n

abbrev pub pending : List Phase → ℕ
pending [] = 0
pending (p ∷ ps) = cells_of p + pending ps

abbrev pub Bounded : Phase → Type 0
Bounded outside = Unit
Bounded (looping old size) = size < u32_mod
Bounded (waiting n) = Unit

abbrev pub AllBounded : List Phase → Type 0
AllBounded [] = Unit
AllBounded (p ∷ ps) = Bounded p × AllBounded ps

abbrev pub AllAtMost : ℕ → List ℕ → Type 0
AllAtMost burst [] = Unit
AllAtMost burst (n ∷ ns) = (n ≤ burst) × AllAtMost burst ns

abbrev pub AllAbove : ℕ → List ℕ → Type 0
AllAbove burst [] = Unit
AllAbove burst (n ∷ ns) = (burst < n) × AllAbove burst ns

pub record IsBalanced (burst : ℕ) (s : System) : Type 0 where
  pub balance :
      (total s.granted + total s.refused + pending s.threads) * unit + s.leftover ≡ s.passed
  pub below : s.leftover < unit
  pub bounded : AllBounded s.threads
  pub grants : AllAtMost burst s.granted
  pub refusals : AllAbove burst s.refused

-- So many threads, all outside, and nothing asked for.
abbrev pub idle : ℕ → List Phase
idle zero = []
idle (suc n) = outside ∷ idle n

abbrev pub start : ℕ → System
start n = record { leftover = 0; granted = []; refused = []; passed = 0; threads = idle n }

pending-append :
    (before after : List Phase) (p : Phase)
    → pending (before ++ p ∷ after) ≡ pending before + cells_of p + pending after
pending-append [] after p = omega arith
pending-append (q ∷ before) after p = omega (arith, pending-append before after p)

AllBounded-replace :
    (before after : List Phase) (p q : Phase)
    → AllBounded (before ++ p ∷ after)
    → Bounded q
    → AllBounded (before ++ q ∷ after)
AllBounded-replace [] after p q h k = (k, h.1)
AllBounded-replace (r ∷ before) after p q h k = (h.0, AllBounded-replace before after p q h.1 k)

AllBounded-at :
    (before after : List Phase) (p : Phase) → AllBounded (before ++ p ∷ after) → Bounded p
AllBounded-at [] after p h = h.0
AllBounded-at (r ∷ before) after p h = AllBounded-at before after p h.1

total-charge : (n : ℕ) (ns : List ℕ) → total (charge n ns) ≡ n + total ns
unfolding charge
total-charge n ns = ground arith

charge-AllAtMost :
    (burst n : ℕ) (ns : List ℕ) → n ≤ burst → AllAtMost burst ns → AllAtMost burst (charge n ns)
unfolding charge
charge-AllAtMost burst n ns h k = elim (Bool-cases (n == 0)) [
  | inl none ↦ rw none k
  | inr some ↦ rw some (h, k)
]

charge-AllAbove :
    (burst n : ℕ) (ns : List ℕ) → burst < n → AllAbove burst ns → AllAbove burst (charge n ns)
unfolding charge
charge-AllAbove burst n ns h k = elim (Bool-cases (n == 0)) [
  | inl none ↦ rw none k
  | inr some ↦ rw some (h, k)
]

idle-AllBounded : (n : ℕ) → AllBounded (idle n)
idle-AllBounded zero = tt
idle-AllBounded (suc n) = (tt, idle-AllBounded n)

pending-idle : (n : ℕ) → pending (idle n) ≡ 0
pending-idle zero = refl
pending-idle (suc n) = omega (arith, pending-idle n)

-- The cells and the rest are the bytes.
cells-rest_of :
    (old size : ℕ)
    → old < unit
    → size < u32_mod
    → cells unit old size * unit + rest_of unit old size ≡ old + size
unfolding cells rest_of
cells-rest_of old size h k = omega arith

rest_of-less : (old size : ℕ) → rest_of unit old size < unit
unfolding rest_of
rest_of-less old size = omega arith

module _ {burst : ℕ} where
  -- The threads of a step, with one phase replaced.
  replaced :
      (s : System) (before after : List Phase) (p q : Phase)
      → IsBalanced burst s
      → s.threads ≡ before ++ p ∷ after
      → Bounded q
      → AllBounded (before ++ q ∷ after)
        × (pending s.threads + cells_of q ≡ pending (before ++ q ∷ after) + cells_of p)
        × Bounded p
  replaced s before after p q b e h =
      let held : AllBounded (before ++ p ∷ after) = rw (← e) b.bounded in
      (
        AllBounded-replace before after p q held h,
        omega (arith, ap pending e, pending-append before after p, pending-append before after q),
        AllBounded-at before after p held,
      )

  Step-IsBalanced : {s t : System} → Step burst s t → IsBalanced burst s → IsBalanced burst t
  Step-IsBalanced {s} (load before after size e h) b =
      let (bounded, sum, was) = replaced s before after outside (looping s.leftover size) b e h in
      record {
        balance = omega (arith, b.balance, sum);
        below = b.below;
        bounded = bounded;
        grants = b.grants;
        refusals = b.refusals;
      }
  Step-IsBalanced {s} (retry before after old size e) b =
      let small : size < u32_mod = (replaced s before after (looping old size) outside b e tt).2 in
      let (bounded, sum, was) =
        replaced s before after (looping old size) (looping s.leftover size) b e small in
      record {
        balance = omega (arith, b.balance, sum);
        below = b.below;
        bounded = bounded;
        grants = b.grants;
        refusals = b.refusals;
      }
  Step-IsBalanced {s} (exchange before after old size e d) b =
      let (bounded, sum, small) =
        replaced s before after (looping old size) (waiting (cells unit old size)) b e tt in
      let same : s.leftover ≡ old = d in
      let below : old < unit = omega (arith, b.below, same) in
      record {
        balance = omega (arith, b.balance, sum, same, cells-rest_of old size below small);
        below = rest_of-less old size;
        bounded = bounded;
        grants = b.grants;
        refusals = b.refusals;
      }
  Step-IsBalanced {s} (grant before after consume e h) b =
      let (bounded, sum, was) = replaced s before after (waiting consume) outside b e tt in
      record {
        balance = omega (arith, b.balance, sum, total-charge consume s.granted);
        below = b.below;
        bounded = bounded;
        grants = charge-AllAtMost burst consume s.granted h b.grants;
        refusals = b.refusals;
      }
  Step-IsBalanced {s} (refuse before after consume e h) b =
      let (bounded, sum, was) = replaced s before after (waiting consume) outside b e tt in
      record {
        balance = omega (arith, b.balance, sum, total-charge consume s.refused);
        below = b.below;
        bounded = bounded;
        grants = b.grants;
        refusals = charge-AllAbove burst consume s.refused h b.refusals;
      }

-- In every state that any number of threads can reach, in any interleaving of their steps, each byte
-- that went through is accounted for once: the cells that the limiter granted, those that it refused,
-- and those that threads wait for, at 1 MiB each, and the leftover together are the bytes that went
-- through, and the leftover is less than a cell. What is granted at once is at most the burst of the
-- limiter, and what is refused, and so passes unthrottled, is more.
pub Reach-balance :
    {burst : ℕ} (n : ℕ) {s : System}
    → Reach burst (start n) s
    → ((total s.granted + total s.refused + pending s.threads) * unit + s.leftover ≡ s.passed)
      × (s.leftover < unit)
      × AllAtMost burst s.granted
      × AllAbove burst s.refused
Reach-balance {burst} n r = let b = kept r in (b.balance, b.below, b.grants, b.refusals)
  where
    kept : {t : System} → Reach burst (start n) t → IsBalanced burst t
    kept here = record {
      balance = omega (arith, pending-idle n);
      below = omega arith;
      bounded = idle-AllBounded n;
      grants = tt;
      refusals = tt;
    }
    kept (next r st) = Step-IsBalanced st (kept r)
