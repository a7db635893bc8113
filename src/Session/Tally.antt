-- ===== src/Session/Tally.antt =====
-- Counting the items of a list that pass a test.
use byterpc.Common.{ℕ, ◌+◌, ◌≡◌, ◌≤◌, Bool, true, List, [], ◌∷◌, ◌++◌, if◌then◌else◌, arith}

module _ {ℓ} {A : Type ℓ} where
  abbrev pub one : (A → Bool) → A → ℕ
  one p x = if p x then 1 else 0

  abbrev pub tally : (A → Bool) → List A → ℕ
  tally p [] = 0
  tally p (x ∷ xs) = one p x + tally p xs

  pub tally-append : (p : A → Bool) (xs ys : List A) → tally p (xs ++ ys) ≡ tally p xs + tally p ys
  tally-append p [] ys = omega arith
  tally-append p (x ∷ xs) ys = omega (arith, tally-append p xs ys)

  -- A stronger test passes fewer items.
  pub tally-le :
      (p q : A → Bool) (xs : List A) → ((x : A) → p x ≡ true → q x ≡ true) → tally p xs ≤ tally q xs
  tally-le p q [] h = omega arith
  tally-le p q (x ∷ xs) h = ground (arith, tally-le p q xs h, h x)
