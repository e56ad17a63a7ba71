-- ===== src/Stream/Chunk/Pieces.antt =====
-- A byte string cut into pieces of one size, the last one shorter.
use castella.Prelude.{
  ℕ, zero, suc, ◌≤◌, ◌<◌, ◌≡◌, refl, sym, ap, ◌∙◌, [], ◌∷◌, ◌++◌, List, Bytes, length, take, drop,
  concat, take-append-drop, length-drop, arith,
}

module _ (size : ℕ) where
  -- At most `n` pieces: for a size above 0, the length of the bytes is enough.
  unfoldable pub pieces : ℕ → Bytes → List Bytes
  pieces zero b = []
  pieces (suc n) [] = []
  pieces (suc n) (x ∷ b) = take size (x ∷ b) ∷ pieces n (drop size (x ∷ b))

  pub pieces-nil : (n : ℕ) → pieces n [] ≡ []
  unfolding pieces
  pieces-nil zero = refl
  pieces-nil (suc n) = refl

  pub concat-pieces : (n : ℕ) (b : Bytes) → 0 < size → length b ≤ n → concat (pieces n b) ≡ b
  unfolding pieces
  concat-pieces zero [] pos h = refl
  concat-pieces zero (x ∷ b) pos h = absurd (omega arith)
  concat-pieces (suc n) [] pos h = refl
  concat-pieces (suc n) (x ∷ b) pos h =
      ap (λ r. take size (x ∷ b) ++ r)
        (concat-pieces n (drop size (x ∷ b)) pos (omega (arith, length-drop size (x ∷ b))))
      ∙ take-append-drop size (x ∷ b)

  pub pieces_enough :
      (n m : ℕ) (b : Bytes) → 0 < size → length b ≤ n → length b ≤ m → pieces n b ≡ pieces m b
  unfolding pieces
  pieces_enough n m [] pos h k = pieces-nil n ∙ sym (pieces-nil m)
  pieces_enough zero m (x ∷ b) pos h k = absurd (omega arith)
  pieces_enough (suc n) zero (x ∷ b) pos h k = absurd (omega arith)
  pieces_enough (suc n) (suc m) (x ∷ b) pos h k =
      ap (λ r. take size (x ∷ b) ∷ r)
        (pieces_enough n m (drop size (x ∷ b)) pos (omega (arith, length-drop size (x ∷ b)))
          (omega (arith, length-drop size (x ∷ b))))
