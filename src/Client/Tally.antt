-- ===== src/Client/Tally.antt =====
-- How often a call stands in the map of pending calls, and how often it has been finished.
use byterpc.Common.{
  ℕ, suc, ◌+◌, ◌≡◌, ◌∙◌, refl, sym, [], ◌∷◌, Option, none, some, if◌then◌else◌, ◌==◌, ==_iff, Dict,
  lookup, insert, erase, nat_eq, KeysDistinct, lookup-insert, arith, Error, ◌⊎◌, inl, inr,
  Option-cases,
}
use byterpc.Client.{Call, done, fail, update_call, fail_all}

-- The entries of the map that hold a call.
abbrev pub held : ℕ → Dict ℕ ℕ → ℕ
held id [] = 0
held id ((s, j) ∷ d) = if id == j then suc (held id d) else held id d

abbrev pub finished : Call → ℕ
finished c = c.delivered + c.discarded

abbrev pub finished_of : Option Call → ℕ
finished_of none = 0
finished_of (some c) = finished c

abbrev pub present : Option Call → ℕ
present none = 0
present (some c) = 1

pub finished-done : (c : Call) → finished (done c) ≡ finished c + 1
unfolding done
finished-done c = ground arith

pub held-insert :
    (id s j : ℕ) (d : Dict ℕ ℕ)
    → lookup s d ≡ none
    → held id (insert s j d) ≡ held id d + (if id == j then 1 else 0)
held-insert id s j [] h = ground arith
held-insert id s j ((t, k) ∷ d) h = ground (arith, held-insert id s j d)

pub held-erase_absent :
    (id s : ℕ) (d : Dict ℕ ℕ) → lookup s d ≡ none → held id (erase s d) ≡ held id d
held-erase_absent id s [] h = refl
held-erase_absent id s ((t, k) ∷ d) h = ground (arith, held-erase_absent id s d)

pub held-erase :
    (id s j : ℕ) (d : Dict ℕ ℕ)
    → KeysDistinct d
    → lookup s d ≡ some j
    → held id (erase s d) + (if id == j then 1 else 0) ≡ held id d
held-erase id s j [] u h = cc
held-erase id s j ((t, k) ∷ d) u h =
    ground (arith, held-erase id s j d u.1, held-erase_absent id s d, ==_iff s t)

module _ (f : Call → Call) (adds_one : (c : Call) → finished (f c) ≡ finished c + 1) where
  present-update_call :
      (j id : ℕ) (d : Dict ℕ Call) → present (lookup j (update_call id f d)) ≡ present (lookup j d)
  present-update_call j id d = elim (Option-cases (lookup id d)) [
    | inl missing ↦ ground arith
    | inr (c, found) ↦ ground (arith, lookup-insert j id (f c) d, ==_iff j id)
  ]

  finished-update_call :
      (j id : ℕ) (d : Dict ℕ Call)
      → finished_of (lookup j (update_call id f d))
        ≡ finished_of (lookup j d) + (if j == id then present (lookup j d) else 0)
  finished-update_call j id d = elim (Option-cases (lookup id d)) [
    | inl missing ↦ ground (arith, ==_iff j id)
    | inr (c, found) ↦ ground (arith, lookup-insert j id (f c) d, ==_iff j id, adds_one c)
  ]

pub finished-fail : (e : Error) (c : Call) → finished (fail e c) ≡ finished c + 1
finished-fail e c = finished-done (record c { error = some e })

present-fail_all :
    (e : Error) (j : ℕ) (p : Dict ℕ ℕ) (d : Dict ℕ Call)
    → present (lookup j (fail_all e p d)) ≡ present (lookup j d)
unfolding fail_all
present-fail_all e j [] d = refl
present-fail_all e j ((s, id) ∷ p) d =
    present-fail_all e j p (update_call id (fail e) d)
    ∙ present-update_call (fail e) (finished-fail e) j id d

-- `fail_all` finishes each call as often as it stands in the map.
finished-fail_all :
    (e : Error) (j : ℕ) (p : Dict ℕ ℕ) (d : Dict ℕ Call)
    → present (lookup j d) ≡ 1
    → finished_of (lookup j (fail_all e p d)) ≡ finished_of (lookup j d) + held j p
unfolding fail_all
finished-fail_all e j [] d h = omega arith
finished-fail_all e j ((s, id) ∷ p) d h =
    let kept : present (lookup j (update_call id (fail e) d)) ≡ 1 =
      present-update_call (fail e) (finished-fail e) j id d ∙ h in
    ground (
      arith,
      finished-fail_all e j p (update_call id (fail e) d) kept,
      finished-update_call (fail e) (finished-fail e) j id d,
    )

-- Every call is pending once and not finished, or finished once and not pending.
unfoldable pub Conserved : Dict ℕ ℕ → Dict ℕ Call → Type 0
Conserved p d = (j : ℕ) → held j p + finished_of (lookup j d) ≡ present (lookup j d)

-- Every call is finished once.
unfoldable pub Settled : Dict ℕ Call → Type 0
Settled d = (j : ℕ) → finished_of (lookup j d) ≡ present (lookup j d)

absent_finished : (o : Option Call) → present o ≡ 0 → finished_of o ≡ 0
absent_finished none h = refl
absent_finished (some c) h = absurd (omega arith)

present_cases : (o : Option Call) → (present o ≡ 0) ⊎ (present o ≡ 1)
present_cases none = inl refl
present_cases (some c) = inr refl

pub fail_all-Settled :
    (e : Error) (p : Dict ℕ ℕ) (d : Dict ℕ Call) → Conserved p d → Settled (fail_all e p d)
unfolding Conserved Settled
fail_all-Settled e p d h j = elim (present_cases (lookup j d)) [
  | inl absent ↦
      let still : present (lookup j (fail_all e p d)) ≡ 0 = present-fail_all e j p d ∙ absent in
      absent_finished _ still ∙ sym still
  | inr there ↦ omega (arith, h j, present-fail_all e j p d, finished-fail_all e j p d there)
]

-- A new call under a new number of the map.
pub insert-Conserved :
    (s id : ℕ) (c : Call) (p : Dict ℕ ℕ) (d : Dict ℕ Call)
    → lookup s p ≡ none
    → lookup id d ≡ none
    → finished c ≡ 0
    → Conserved p d
    → Conserved (insert s id p) (insert id c d)
unfolding Conserved
insert-Conserved s id c p d new_seq new_call zero_done h j =
    ground (arith, h j, held-insert j s id p new_seq, lookup-insert j id c d, ==_iff j id)

-- A new call that is finished at once and not pending.
pub refuse-Conserved :
    (id : ℕ) (c : Call) (p : Dict ℕ ℕ) (d : Dict ℕ Call)
    → lookup id d ≡ none
    → finished c ≡ 1
    → Conserved p d
    → Conserved p (insert id c d)
unfolding Conserved
refuse-Conserved id c p d new_call one_done h j =
    ground (arith, h j, lookup-insert j id c d, ==_iff j id)

pub refuse-Settled :
    (id : ℕ) (c : Call) (d : Dict ℕ Call) → finished c ≡ 1 → Settled d → Settled (insert id c d)
unfolding Settled
refuse-Settled id c d one_done h j = ground (arith, h j, lookup-insert j id c d, ==_iff j id)

-- A call that leaves the map as it is finished.
pub erase-Conserved :
    (f : Call → Call) (adds_one : (c : Call) → finished (f c) ≡ finished c + 1) (s id : ℕ)
    (p : Dict ℕ ℕ) (d : Dict ℕ Call)
    → KeysDistinct p
    → lookup s p ≡ some id
    → Conserved p d
    → Conserved (erase s p) (update_call id f d)
unfolding Conserved
erase-Conserved f adds_one s id p d u e h j = ground (
  arith,
  h j,
  held-erase j s id p u e,
  present-update_call f adds_one j id d,
  finished-update_call f adds_one j id d,
)

-- A number without a call leaves the map.
pub erase_absent-Conserved :
    (s : ℕ) (p : Dict ℕ ℕ) (d : Dict ℕ Call)
    → lookup s p ≡ none
    → Conserved p d
    → Conserved (erase s p) d
unfolding Conserved
erase_absent-Conserved s p d e h j = omega (arith, h j, held-erase_absent j s p e)
