-- ===== src/Client/Order.antt =====
-- The end of `receive` visits the map of pending calls in any order.
use mathlib.Core.List.{Permᴰ}
use byterpc.Common.{
  ℕ, zero, suc, ◌≡◌, ◌∙◌, refl, ap, sym, [], ◌∷◌, Option, none, some, if◌then◌else◌, ◌==◌, ==_iff,
  Dict, lookup, nat_eq, lookup-insert, arith, Error, inl, inr, Bool-cases, Option-cases,
}
use byterpc.Client.{Client, Call, fail, update_call, fail_all, final_error, terminate}
use byterpc.Client.Tally.{held}

-- A call after a number of failures.
abbrev failed : ℕ → Error → Option Call → Option Call
failed zero e o = o
failed (suc n) e none = none
failed (suc n) e (some c) = failed n e (some (fail e c))

failed_absent : (n : ℕ) (e : Error) → failed n e none ≡ none
failed_absent zero e = refl
failed_absent (suc n) e = refl

lookup-update_call :
    (f : Call → Call) (id j : ℕ) (d : Dict ℕ Call) (c : Call)
    → lookup j d ≡ some c
    → lookup j (update_call id f d) ≡ (if j == id then some (f c) else some c)
lookup-update_call f id j d c known = elim (Option-cases (lookup id d)) [
  | inl missing ↦ ground (arith, ==_iff j id)
  | inr (x, found) ↦ ground (arith, lookup-insert j id (f x) d, ==_iff j id)
]

lookup_absent :
    (f : Call → Call) (id j : ℕ) (d : Dict ℕ Call)
    → lookup j d ≡ none
    → lookup j (update_call id f d) ≡ none
lookup_absent f id j d missing = elim (Option-cases (lookup id d)) [
  | inl gone ↦ rw (gone, update_call) missing
  | inr (x, found) ↦ ground (arith, lookup-insert j id (f x) d, ==_iff j id)
]

-- What the loop makes of a call is told by how often the call stands in the map.
fail_all-failed :
    (e : Error) (j : ℕ) (p : Dict ℕ ℕ) (d : Dict ℕ Call)
    → lookup j (fail_all e p d) ≡ failed (held j p) e (lookup j d)
unfolding fail_all
fail_all-failed e j [] d = refl
fail_all-failed e j ((s, id) ∷ p) d =
    fail_all-failed e j p (update_call id (fail e) d) ∙ by_call (lookup j d) refl
  where
    by_call :
        (o : Option Call)
        → lookup j d ≡ o
        → failed (held j p) e (lookup j (update_call id (fail e) d))
          ≡ failed (if j == id then suc (held j p) else held j p) e o
    by_call none h =
        rw (lookup_absent (fail e) id j d h) (failed_absent _ e ∙ sym (failed_absent _ e))
    by_call (some c) h =
        rw (lookup-update_call (fail e) id j d c h)
          (elim (Bool-cases (j == id)) [ inl here ↦ rw here refl | inr there ↦ rw there refl ])

held-perm : (j : ℕ) {p q : Dict ℕ ℕ} → Permᴰ p q → held j p ≡ held j q
held-perm j Permᴰ.nil = refl
held-perm j (Permᴰ.cons e h) = ground (arith, ap (λ t. t.1) e, held-perm j h)
held-perm j (Permᴰ.swap e f) = ground (arith, ap (λ t. t.1) e, ap (λ t. t.1) f)
held-perm j (Permᴰ.trans h k) = held-perm j h ∙ held-perm j k

-- Whatever the order in which the end of `receive` visits the pending calls, every call comes out
-- the same.
pub terminate-order :
    (c : Client) (q : Dict ℕ ℕ) (e : Error) (id : ℕ)
    → Permᴰ c.pending q
    → lookup id (terminate c e).calls ≡ lookup id (terminate (record c { pending = q }) e).calls
unfolding terminate
terminate-order c q e id h =
    fail_all-failed (final_error c.closing e) id c.pending c.calls
    ∙ (ap (λ n. failed n (final_error c.closing e) (lookup id c.calls)) (held-perm id h)
        ∙ sym (fail_all-failed (final_error c.closing e) id q c.calls))
