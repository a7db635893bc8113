-- ===== src/Common/Maps.antt =====
-- A Go map as an association list: the order of the list is the order in which a `range` visits
-- the entries, and no statement assumes a particular one.
use mathlib.Core.Path.{◌≡◌, refl, sym, subst₂}
use mathlib.Core.Logic.{◌≢◌, inl, inr}
use mathlib.Core.Bool.{Bool, true, false}
use mathlib.Core.List.{List, [], ◌∷◌}
use mathlib.Core.Option.{Option, none, some}
use native.Mathlib.Omega.{arith}
use byterpc.Common.Tests.{Eq, if◌then◌else◌, Bool-cases}

abbrev pub Dict {ℓ κ} : Type ℓ → Type κ → Type (ℓ ⊔ κ)
Dict K V = List (K × V)

module _ {ℓ κ} {K : Type ℓ} {V : Type κ} ⦃e : Eq K⦄ where
  -- `v, ok := m[k]`
  abbrev pub lookup : K → Dict K V → Option V
  lookup k [] = none
  lookup k ((j, v) ∷ d) = if e.beq k j then some v else lookup k d

  -- `m[k] = v`
  abbrev pub insert : K → V → Dict K V → Dict K V
  insert k v [] = (k, v) ∷ []
  insert k v ((j, w) ∷ d) = if e.beq k j then (k, v) ∷ d else (j, w) ∷ insert k v d

  -- `delete(m, k)`
  abbrev pub erase : K → Dict K V → Dict K V
  erase k [] = []
  erase k ((j, w) ∷ d) = if e.beq k j then erase k d else (j, w) ∷ erase k d

  -- `_, ok := m[k]`
  abbrev pub contains : K → Dict K V → Bool
  contains k d = elim (lookup k d) [ none ↦ false | some _ ↦ true ]

module _ {ℓ κ} {K : Type ℓ} {V : Type κ} ⦃e : Eq K⦄ where
  pub lookup-insert :
      (j k : K) (v : V) (d : Dict K V)
      → lookup j (insert k v d) ≡ (if e.beq j k then some v else lookup j d)
  lookup-insert j k v [] = refl
  lookup-insert j k v ((i, w) ∷ d) =
      ground (arith, e.beq_iff j k, e.beq_iff k i, e.beq_iff j i, lookup-insert j k v d)

  pub lookup-erase :
      (j k : K) (d : Dict K V) → lookup j (erase k d) ≡ (if e.beq j k then none else lookup j d)
  lookup-erase j k [] = ground arith
  lookup-erase j k ((i, w) ∷ d) =
      ground (arith, e.beq_iff j k, e.beq_iff k i, e.beq_iff j i, lookup-erase j k d)

module _ {ℓ} {K : Type ℓ} ⦃e : Eq K⦄ where
  pub beq_refl : (k : K) → e.beq k k ≡ true
  beq_refl k = (e.beq_iff k k).1 refl

  pub beq_ne : (j k : K) → j ≢ k → e.beq j k ≡ false
  beq_ne j k h = ground (arith, e.beq_iff j k)

-- A map has one entry for each key.
module _ {ℓ κ} {K : Type ℓ} {V : Type κ} ⦃e : Eq K⦄ where
  abbrev pub KeysDistinct : Dict K V → Type κ
  KeysDistinct [] = Unit
  KeysDistinct ((k, v) ∷ d) = (lookup k d ≡ none) × KeysDistinct d

  pub insert-KeysDistinct :
      (k : K) (v : V) (d : Dict K V) → KeysDistinct d → KeysDistinct (insert k v d)
  insert-KeysDistinct k v [] h = (refl, tt)
  insert-KeysDistinct k v ((i, w) ∷ d) h =
      ground
        (arith, insert-KeysDistinct k v d h.1, lookup-insert i k v d, e.beq_iff k i, e.beq_iff i k)

  pub erase-KeysDistinct : (k : K) (d : Dict K V) → KeysDistinct d → KeysDistinct (erase k d)
  erase-KeysDistinct k [] h = tt
  erase-KeysDistinct k ((i, w) ∷ d) h =
      ground (arith, erase-KeysDistinct k d h.1, lookup-erase i k d, e.beq_iff k i)

module _ {ℓ κ μ} {K : Type ℓ} {V : Type κ} ⦃e : Eq K⦄ (P : K → V → Type μ) where
  -- What holds of every entry.
  abbrev pub AllEntries : Dict K V → Type μ
  AllEntries [] = Unit
  AllEntries ((k, v) ∷ d) = P k v × AllEntries d

  pub AllEntries-insert :
      (k : K) (v : V) (d : Dict K V) → P k v → AllEntries d → AllEntries (insert k v d)
  AllEntries-insert k v [] p h = (p, tt)
  AllEntries-insert k v ((i, w) ∷ d) p h = ground (arith, p, AllEntries-insert k v d p h.1)

  pub AllEntries-erase : (k : K) (d : Dict K V) → AllEntries d → AllEntries (erase k d)
  AllEntries-erase k [] h = tt
  AllEntries-erase k ((i, w) ∷ d) h = ground (arith, AllEntries-erase k d h.1)

  pub AllEntries-lookup :
      (k : K) (v : V) (d : Dict K V) → AllEntries d → lookup k d ≡ some v → P k v
  AllEntries-lookup k v [] h q = cc
  AllEntries-lookup k v ((i, w) ∷ d) h q = elim (Bool-cases (e.beq k i)) [
    | inl hit ↦
        let same_key : i ≡ k = sym ((e.beq_iff k i).0 hit) in
        let same_value : w ≡ v = ground arith in subst₂ P same_key same_value h.0
    | inr miss ↦ AllEntries-lookup k v d h.1 (ground arith)
  ]
