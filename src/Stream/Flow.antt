-- ===== src/Stream/Flow.antt =====
-- Streams as the list of the items that they give their consumer, and the bytes that those carry.
use castella.Prelude.{
  suc, ◌≡◌, refl, ap, List, [], ◌∷◌, ◌++◌, Option, none, some, Result, ok, err, map_err, Bytes,
  concat, length,
}

-- `Stream<Item = Result<A, E>>`.
abbrev pub Stream {ℓ κ} : Type ℓ → Type κ → Type (ℓ ⊔ κ)
Stream E A = List (Result E A)

module _ {ℓ} {E : Type ℓ} where
  -- The bytes of the items in front of the first error.
  abbrev pub bytes_of : Stream E Bytes → Bytes
  bytes_of [] = []
  bytes_of (ok chunk ∷ rest) = chunk ++ bytes_of rest
  bytes_of (err e ∷ rest) = []

  -- The first error.
  abbrev pub failure : Stream E Bytes → Option E
  failure [] = none
  failure (ok chunk ∷ rest) = failure rest
  failure (err e ∷ rest) = some e

  -- The stream that gives these items and ends.
  abbrev pub items {κ} : {A : Type κ} → List A → Stream E A
  items [] = []
  items (a ∷ as') = ok a ∷ items as'

pub bytes_of-items {ℓ} :
    (E : Type ℓ) (chunks : List Bytes) → bytes_of (items {E = E} chunks) ≡ concat chunks
bytes_of-items E [] = refl
bytes_of-items E (c ∷ cs) = ap (λ r. c ++ r) (bytes_of-items E cs)

pub failure-items {ℓ} : (E : Type ℓ) (chunks : List Bytes) → failure (items {E = E} chunks) ≡ none
failure-items E [] = refl
failure-items E (c ∷ cs) = failure-items E cs

pub length-items {ℓ κ} :
    {A : Type κ} (E : Type ℓ) (as' : List A) → length (items {E = E} as') ≡ length as'
length-items E [] = refl
length-items E (a ∷ as') = ap suc (length-items E as')

module _ {ℓ κ} {E : Type ℓ} {F : Type κ} where
  -- `stream.map_err(f)`, which touches each item alone.
  abbrev pub map_err_stream {μ} : {A : Type μ} → (E → F) → Stream E A → Stream F A
  map_err_stream f [] = []
  map_err_stream f (r ∷ rest) = map_err f r ∷ map_err_stream f rest

  pub bytes_of-map_err_stream :
      (f : E → F) (s : Stream E Bytes) → bytes_of (map_err_stream f s) ≡ bytes_of s
  bytes_of-map_err_stream f [] = refl
  bytes_of-map_err_stream f (ok c ∷ s) = ap (λ r. c ++ r) (bytes_of-map_err_stream f s)
  bytes_of-map_err_stream f (err e ∷ s) = refl

  abbrev pub map_option : (E → F) → Option E → Option F
  map_option f none = none
  map_option f (some e) = some (f e)

  pub failure-map_err_stream :
      (f : E → F) (s : Stream E Bytes) → failure (map_err_stream f s) ≡ map_option f (failure s)
  failure-map_err_stream f [] = refl
  failure-map_err_stream f (ok c ∷ s) = failure-map_err_stream f s
  failure-map_err_stream f (err e ∷ s) = refl
