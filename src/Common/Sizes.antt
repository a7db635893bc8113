-- ===== src/Common/Sizes.antt =====
-- How many entries a map has.
use Prim.Native.Nat.{◌+◌}
use mathlib.Core.Path.{◌≡◌, refl}
use mathlib.Core.List.{[], ◌∷◌}
use mathlib.Core.Option.{none, some}
use native.Mathlib.Omega.{arith}
use byterpc.Common.Tests.{Eq}
use byterpc.Common.Lists.{length}
use byterpc.Common.Maps.{Dict, lookup, insert, erase, KeysDistinct}

module _ {ℓ κ} {K : Type ℓ} {V : Type κ} ⦃e : Eq K⦄ where
  pub length-insert_new :
      (k : K) (v : V) (d : Dict K V) → lookup k d ≡ none → length (insert k v d) ≡ length d + 1
  length-insert_new k v [] h = ground arith
  length-insert_new k v ((j, w) ∷ d) h = ground (arith, length-insert_new k v d)

  pub length-insert_old :
      (k : K) (v w : V) (d : Dict K V) → lookup k d ≡ some w → length (insert k v d) ≡ length d
  length-insert_old k v w [] h = cc
  length-insert_old k v w ((j, x) ∷ d) h = ground (arith, length-insert_old k v w d)

  length-erase_absent : (k : K) (d : Dict K V) → lookup k d ≡ none → length (erase k d) ≡ length d
  length-erase_absent k [] h = refl
  length-erase_absent k ((j, x) ∷ d) h = ground (arith, length-erase_absent k d)

  pub length-erase :
      (k : K) (w : V) (d : Dict K V)
      → KeysDistinct d
      → lookup k d ≡ some w
      → length (erase k d) + 1 ≡ length d
  length-erase k w [] u h = cc
  length-erase k w ((j, x) ∷ d) u h =
      ground (arith, length-erase k w d u.1, length-erase_absent k d, e.beq_iff k j)
