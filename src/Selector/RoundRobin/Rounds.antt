-- ===== src/Selector/RoundRobin/Rounds.antt =====
-- The rounds of the loop in `Select` of selector_rr.go.
use byterpc.Common.{
  ℕ, suc, ◌+◌, ◌-◌, ◌%◌, ◌≤◌, ◌<◌, ◌≡◌, ◌∙◌, refl, sym, subst, ◌⊎◌, ◌≢◌, ◌==◌, List, [], ◌∷◌, none,
  some, inl, inr, true, false, Text, arith, lookup, text_eq, Option-cases, Bool-cases, length,
  get_elem?, get_elem?_total, ◌↔◌, next_mod, if◌then◌else◌, ◌||◌,
}
use byterpc.Selector.Base.{AddrInfo, Base}
use byterpc.Selector.Random.Picks.{connected_name, connected_at}
use byterpc.Selector.RoundRobin.{RoundRobin, start_loop, picked, select_loop, wrap_next, select}

-- The slot before an index, round the slice.
abbrev pub before : ℕ → ℕ → ℕ
before len s = if s == 0 then len - 1 else s - 1

-- A slot names an entry of the map.
abbrev pub Known : Base → ℕ → Text → AddrInfo → Type 0
Known b p a info = (get_elem? b.addrs p ≡ some a) × (lookup a b.addr_map ≡ some info)

-- The round at a slot with an entry: it ends the loop, or the loop goes on.
round-Known :
    (fuel : ℕ) (r : RoundRobin) (next : ℕ) (a : Text) (info : AddrInfo)
    → Known r.base next a info
    → select_loop (suc fuel) r next ≡ (
        if info.connected || (next + 1) % length r.base.addrs == r.next
        then some (picked r a info ((next + 1) % length r.base.addrs))
        else select_loop fuel r ((next + 1) % length r.base.addrs))
unfolding select_loop
round-Known fuel r next a info (e, f) = rw (e, select_loop) (rw f refl)

-- The round at a slot without an entry: the loop goes on.
round_unknown :
    (fuel : ℕ) (r : RoundRobin) (next : ℕ) (a : Text)
    → get_elem? r.base.addrs next ≡ some a
    → lookup a r.base.addr_map ≡ none
    → select_loop (suc fuel) r next ≡ select_loop fuel r ((next + 1) % length r.base.addrs)
unfolding select_loop
round_unknown fuel r next a e f = rw (e, select_loop) (rw f refl)

slot_known_cases :
    (b : Base) (p : ℕ)
    → p < length b.addrs
    → (a : Text) × (get_elem? b.addrs p ≡ some a)
      × ((lookup a b.addr_map ≡ none) ⊎ ((info : AddrInfo) × (lookup a b.addr_map ≡ some info)))
slot_known_cases b p h =
    let (a, e) = get_elem?_total b.addrs p h in (a, e, Option-cases (lookup a b.addr_map))

-- The next index is the start exactly at the slot before it.
pub before-next :
    (len s next : ℕ) → next < len → s < len → ((next + 1) % len ≡ s) ↔ (next ≡ before len s)
before-next len s next h k = grind (arith, next_mod next len h)

-- Rounds from an index until the loop is back at the start.
abbrev pub Distance : ℕ → ℕ → ℕ → ℕ → Type 0
Distance len s next d = ((s ≤ next) × (next + d ≡ s + len)) ⊎ ((next < s) × (next + d ≡ s))

pub Distance-next :
    (len s next d : ℕ)
    → next < len
    → s < len
    → next ≢ before len s
    → Distance len s next (suc d)
    → Distance len s ((next + 1) % len) d
Distance-next len s next d h k ne dist = ground (arith, next_mod next len h)

-- A round ends the loop at a slot with an entry, or goes on to the next slot.
abbrev pub Stops : RoundRobin → ℕ → Type 0
Stops r next =
    (a : Text) × (info : AddrInfo) × Known r.base next a info
    × ((info.connected ≡ true) ⊎ (next ≡ before (length r.base.addrs) r.next))
    × ((fuel : ℕ)
        → select_loop (suc fuel) r next ≡ some (picked r a info ((next + 1) % length r.base.addrs)))

abbrev pub GoesOn : RoundRobin → ℕ → Type 0
GoesOn r next =
    ((fuel : ℕ)
      → select_loop (suc fuel) r next ≡ select_loop fuel r ((next + 1) % length r.base.addrs))
    × (connected_at r.base next ≡ false)
    × ((a : Text) (info : AddrInfo)
        → Known r.base next a info
        → next ≢ before (length r.base.addrs) r.next)

-- The test at the end of a round fails away from the slot before the start.
ne-before :
    (len s next : ℕ) → next < len → s < len → ((next + 1) % len == s) ≡ false → next ≢ before len s
ne-before len s next h k on e = grind (arith, before-next len s next h k)

round_at-Known :
    (r : RoundRobin) (next : ℕ) (a : Text) (info : AddrInfo)
    → next < length r.base.addrs
    → r.next < length r.base.addrs
    → Known r.base next a info
    → Stops r next ⊎ GoesOn r next
round_at-Known r next a info h k known = elim (Bool-cases info.connected) [
  | inl up ↦
      inl (a, info, known, inl up, λ fuel. rw (round-Known fuel r next a info known) (rw up refl))
  | inr down ↦ elim (Bool-cases ((next + 1) % length r.base.addrs == r.next)) [
    | inl back ↦ inl (
      a,
      info,
      known,
      inr ((before-next _ _ next h k).0 (ground arith)),
      λ fuel. rw (round-Known fuel r next a info known) (rw down (rw back refl)),
    )
    | inr on ↦ inr (
      λ fuel. rw (round-Known fuel r next a info known) (rw down (rw on refl)),
      rw known.0 (rw (known.1, connected_name) down),
      λ _ _ _ e. ne-before _ _ next h k on e,
    )
  ]
]

unknown-Known :
    (b : Base) (p : ℕ) (a a' : Text) (info : AddrInfo)
    → get_elem? b.addrs p ≡ some a
    → lookup a b.addr_map ≡ none
    → Known b p a' info
    → ⊥
unknown-Known b p a a' info e u (e', k) =
    let one : a ≡ a' = ground arith in
    let both : none ≡ some info = sym (subst (λ n. lookup n b.addr_map ≡ none) one u) ∙ k in cc

pub round_cases :
    (r : RoundRobin) (next : ℕ)
    → next < length r.base.addrs
    → r.next < length r.base.addrs
    → Stops r next ⊎ GoesOn r next
round_cases r next h k =
    let (a, at_slot) = get_elem?_total r.base.addrs next h in
    elim (Option-cases (lookup a r.base.addr_map)) [
      | inl unknown ↦ inr (
        λ fuel. round_unknown fuel r next a at_slot unknown,
        rw at_slot (rw (unknown, connected_name) refl),
        λ a' info known _. unknown-Known r.base next a a' info at_slot unknown known,
      )
      | inr (info, known) ↦ round_at-Known r next a info h k (at_slot, known)
    ]

-- The loop from the start.
pub start-Distance : (len s : ℕ) → Distance len s s len
start-Distance len s = inl (omega arith, omega arith)

pub select_cons :
    (fuel : ℕ) (r : RoundRobin)
    → 0 < length r.base.addrs
    → select fuel r ≡ select_loop fuel (wrap_next r) (wrap_next r).next
unfolding select
select_cons fuel r pos = by_slice r.base.addrs pos
  where
    by_slice :
        (l : List Text)
        → 0 < length l
        → start_loop fuel r l ≡ select_loop fuel (wrap_next r) (wrap_next r).next
    by_slice [] h = elim h [ ]
    by_slice (x ∷ l) h = refl

pub wrap_next-lt :
    (r : RoundRobin)
    → 0 < length r.base.addrs
    → (wrap_next r).next < length (wrap_next r).base.addrs
unfolding wrap_next
wrap_next-lt r pos = ground arith

pub wrap_next-base : (r : RoundRobin) → (wrap_next r).base ≡ r.base
unfolding wrap_next
wrap_next-base r = ground arith
