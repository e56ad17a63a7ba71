-- ===== src/Db/Placement.antt =====
-- The drive that a new file goes to.
use castella.Prelude.{
  ℕ, ◌≤◌, ◌<◌, ◌≡◌, refl, [], ◌∷◌, List, none, some, arith, Option, ◌⊎◌, inl, inr, leb, Bool-cases,
  leb→le, leb→lt,
}
use castella.Db.Rows.{Drive, File, count_files, prefer, least_files}

-- Something holds of every drive of a list.
abbrev pub AllDrives : (Drive → Type 0) → List Drive → Type 0
AllDrives P [] = Unit
AllDrives P (d ∷ ds) = P d × AllDrives P ds

-- One of the drives of a list.
abbrev pub OneOf : Drive → List Drive → Type 0
OneOf d [] = ⊥
OneOf d (e ∷ ds) = (d ≡ e) ⊎ OneOf d ds

module _ (max : ℕ) (files : List File) where
  abbrev pub load : Drive → ℕ
  load d = count_files d.key files

  AllDrives-le :
      (ds : List Drive) (n m : ℕ)
      → n ≤ m
      → AllDrives (λ e. m ≤ load e) ds
      → AllDrives (λ e. n ≤ load e) ds
  AllDrives-le [] n m h all = tt
  AllDrives-le (e ∷ ds) n m h all = (omega (arith, all.0), AllDrives-le ds n m h all.1)

  all_above :
      (ds : List Drive) {n : ℕ}
      → AllDrives (λ e. max < load e) ds
      → n ≤ max
      → AllDrives (λ e. n ≤ load e) ds
  all_above [] all h = tt
  all_above (e ∷ ds) all h = (omega (arith, all.0), all_above ds all.1 h)

  -- What a search among drives may find.
  abbrev pub Found : Option Drive → List Drive → Type 0
  Found none ds = AllDrives (λ e. max < load e) ds
  Found (some d) ds = OneOf d ds × (load d ≤ max) × AllDrives (λ e. load d ≤ load e) ds

  prefer-Found :
      (e : Drive) (ds : List Drive) (o : Option Drive)
      → Found o ds
      → Found (prefer max files e o) (e ∷ ds)
  unfolding prefer
  prefer-Found e ds none all = elim (Bool-cases (leb (load e) max)) [
    | inl room ↦
        let fits = leb→le (load e) max room in
        rw room (inl refl, fits, (omega arith, all_above ds all fits))
    | inr full ↦ rw full (leb→lt (load e) max full, all)
  ]
  prefer-Found e ds (some d) (one, fits, all) = elim (Bool-cases (leb (load e) (load d))) [
    | inl fewer ↦
        let le = leb→le (load e) (load d) fewer in
        rw fewer (
          inl refl,
          omega (arith, le, fits),
          (omega arith, AllDrives-le ds (load e) (load d) le all),
        )
    | inr more ↦ rw more (inr one, fits, (omega (arith, leb→lt (load e) (load d) more), all))
  ]

  -- The drive that is found is one of the drives, holds at most `max` files, and no drive holds fewer;
  -- where none is found, every drive holds more than `max` files.
  pub least_files-Found : (ds : List Drive) → Found (least_files max files ds) ds
  unfolding least_files
  least_files-Found [] = tt
  least_files-Found (e ∷ ds) = prefer-Found e ds (least_files max files ds) (least_files-Found ds)
