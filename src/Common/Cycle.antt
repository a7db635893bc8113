-- ===== src/Common/Cycle.antt =====
-- Indices that run round a slice.
use Prim.Native.Nat.{ℕ, ◌+◌, ◌-◌, ◌%◌, ◌<◌}
use mathlib.Core.Path.{◌≡◌, ◌∙◌, ap}
use mathlib.Core.Logic.{inl, inr}
use native.Mathlib.Omega.{arith}
use native.Mathlib.Nat.{mod-eq_of_lt, add-mod_right}
use byterpc.Common.Tests.{leb, ◌==◌, if◌then◌else◌, Bool-cases}

mod_wrap : (n m k : ℕ) → k < m → n ≡ k + m → n % m ≡ k
mod_wrap n m k h e = ap (λ (t : ℕ). t % m) e ∙ add-mod_right k m ∙ mod-eq_of_lt h

-- One step on, with the wrap at the end.
pub next_mod : (n m : ℕ) → n < m → (n + 1) % m ≡ (if n + 1 == m then 0 else n + 1)
next_mod n m h = elim (Bool-cases (n + 1 == m)) [
  | inl last ↦ ground (arith, mod_wrap (n + 1) m 0)
  | inr inner ↦ ground (arith, mod-eq_of_lt {n = n + 1} {m = m})
]

-- From an index below `m`, some offset below `m` reaches every other.
pub offset_to : (m idx p : ℕ) → idx < m → p < m → (j : ℕ) × (j < m) × ((idx + j) % m ≡ p)
offset_to m idx p h k = elim (Bool-cases (leb idx p)) [
  | inl le ↦ (p - idx, ground arith, ground (arith, mod-eq_of_lt {n = idx + (p - idx)} {m = m}))
  | inr gt ↦ (p + m - idx, ground arith, ground (arith, mod_wrap (idx + (p + m - idx)) m p))
]
