-- ===== src/Stream/Chunk/Uniform.antt =====
-- Lists of byte strings of one size, but for a last one that may be shorter: cutting them at multiples
-- of the size cuts between two of them.
use castella.Prelude.{
  ℕ, zero, suc, ◌-◌, ◌*◌, ◌≤◌, ◌<◌, ◌≡◌, refl, sym, ap, ◌∙◌, [], ◌∷◌, ◌++◌, List, Bytes, length,
  take, drop, concat, length-drop, length-take, length-append, arith, take-append_ge,
  drop-append_ge, take_all, drop_all, take-append_eq, drop-append_eq, Bool-cases, inl, inr, leb,
  leb→le, leb→lt, append-nil, take-nil, drop-nil,
}
use mathlib.Core.Path.{ap₂}
use castella.Stream.Chunk.Pieces.{pieces, pieces-nil}

abbrev pub IsUniform : ℕ → List Bytes → Type 0
IsUniform size [] = Unit
IsUniform size (p ∷ []) = (0 < length p) × (length p ≤ size)
IsUniform size (p ∷ q ∷ r) = (length p ≡ size) × IsUniform size (q ∷ r)

module _ (size : ℕ) where
  IsUniform-tail : (p : Bytes) (ps : List Bytes) → IsUniform size (p ∷ ps) → IsUniform size ps
  IsUniform-tail p [] h = tt
  IsUniform-tail p (q ∷ ps) h = h.1

  pub IsUniform-drop : (n : ℕ) (ps : List Bytes) → IsUniform size ps → IsUniform size (drop n ps)
  IsUniform-drop zero ps h = h
  IsUniform-drop (suc n) [] h = h
  IsUniform-drop (suc n) (p ∷ ps) h = IsUniform-drop n ps (IsUniform-tail p ps h)

  pub IsUniform-take :
      (n : ℕ) (ps : List Bytes) → 0 < size → IsUniform size ps → IsUniform size (take n ps)
  IsUniform-take zero ps pos h = tt
  IsUniform-take (suc n) [] pos h = tt
  IsUniform-take (suc n) (p ∷ []) pos h = rw (take-nil n) h
  IsUniform-take (suc zero) (p ∷ q ∷ ps) pos h = omega arith
  IsUniform-take (suc (suc n)) (p ∷ q ∷ ps) pos h = (h.0, IsUniform-take (suc n) (q ∷ ps) pos h.1)

  pub drop-concat :
      (n : ℕ) (ps : List Bytes)
      → IsUniform size ps
      → drop (n * size) (concat ps) ≡ concat (drop n ps)
  drop-concat zero ps h = let e : 0 * size ≡ 0 = omega arith in rw e refl
  drop-concat (suc n) [] h = drop-nil (suc n * size)
  drop-concat (suc n) (p ∷ []) h =
      drop_all (suc n * size) (p ++ []) (rw (append-nil p) (omega arith))
      ∙ sym (rw (drop-nil n) refl)
  drop-concat (suc n) (p ∷ q ∷ ps) h =
      let e : suc n * size - length p ≡ n * size = omega (arith, h.0) in
      drop-append_ge (suc n * size) p (concat (q ∷ ps)) (omega (arith, h.0))
      ∙ ap (λ k. drop k (concat (q ∷ ps))) e
      ∙ drop-concat n (q ∷ ps) h.1

  pub take-concat :
      (n : ℕ) (ps : List Bytes)
      → IsUniform size ps
      → take (n * size) (concat ps) ≡ concat (take n ps)
  take-concat zero ps h = let e : 0 * size ≡ 0 = omega arith in rw e refl
  take-concat (suc n) [] h = take-nil (suc n * size)
  take-concat (suc n) (p ∷ []) h =
      take_all (suc n * size) (p ++ []) (rw (append-nil p) (omega arith))
      ∙ sym (rw (take-nil n) refl)
  take-concat (suc n) (p ∷ q ∷ ps) h =
      let e : suc n * size - length p ≡ n * size = omega (arith, h.0) in
      take-append_ge (suc n * size) p (concat (q ∷ ps)) (omega (arith, h.0))
      ∙ ap (λ k. p ++ take k (concat (q ∷ ps))) e
      ∙ ap (λ r. p ++ r) (take-concat n (q ∷ ps) h.1)

  -- Cutting the joined pieces anew gives the same pieces.
  pub pieces-concat :
      (n : ℕ) (ps : List Bytes)
      → 0 < size
      → IsUniform size ps
      → length (concat ps) ≤ n
      → pieces size n (concat ps) ≡ ps
  unfolding pieces
  pieces-concat n [] pos h k = pieces-nil size n
  pieces-concat n ([] ∷ []) pos h k = absurd (omega arith)
  pieces-concat n ([] ∷ q ∷ ps) pos h k = absurd (omega arith)
  pieces-concat zero ((x ∷ p) ∷ ps) pos h k = absurd (omega arith)
  pieces-concat (suc n) ((x ∷ p) ∷ []) pos h k =
      rw (append-nil p, take_all size (x ∷ p) h.1, drop_all size (x ∷ p) h.1, pieces-nil size n)
        refl
  pieces-concat (suc n) ((x ∷ p) ∷ q ∷ ps) pos h k =
      let rest = concat (q ∷ ps) in
      ap₂ {A = Bytes} {B = List Bytes} {C = List Bytes} (λ a r. a ∷ r)
        (take-append_eq size (x ∷ p) rest h.0)
        (ap (pieces size n) (drop-append_eq size (x ∷ p) rest h.0)
          ∙ pieces-concat n (q ∷ ps) pos h.1 (omega (arith, length-append (x ∷ p) rest)))

  IsUniform-cons :
      (p : Bytes) (ps : List Bytes)
      → 0 < size
      → length p ≡ size
      → IsUniform size ps
      → IsUniform size (p ∷ ps)
  IsUniform-cons p [] pos e h = omega arith
  IsUniform-cons p (q ∷ ps) pos e h = (e, h)

  pub pieces-IsUniform :
      (n : ℕ) (b : Bytes) → 0 < size → length b ≤ n → IsUniform size (pieces size n b)
  unfolding pieces
  pieces-IsUniform zero b pos h = tt
  pieces-IsUniform (suc n) [] pos h = tt
  pieces-IsUniform (suc n) (x ∷ b) pos h = elim (Bool-cases (leb size (suc (length b)))) [
    | inl whole ↦
        IsUniform-cons (take size (x ∷ b)) (pieces size n (drop size (x ∷ b))) pos
          (omega (arith, length-take size (x ∷ b), leb→le size (suc (length b)) whole))
          (pieces-IsUniform n (drop size (x ∷ b)) pos (omega (arith, length-drop size (x ∷ b))))
    | inr last ↦
        rw
          (
            drop_all size (x ∷ b) (omega (arith, leb→lt size (suc (length b)) last)),
            pieces-nil size n,
          )
          (omega (arith, length-take size (x ∷ b)))
  ]
