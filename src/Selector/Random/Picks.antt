-- ===== src/Selector/Random/Picks.antt =====
-- Which address the random selector returns, and when it finds none.
use native.Mathlib.Nat.{mod-lt}
use byterpc.Common.{
  ℕ, zero, suc, ◌+◌, ◌%◌, ◌≤◌, ◌<◌, ◌≡◌, refl, subst, ◌⊎◌, List, [], ◌∷◌, Option, none, some, inl,
  inr, Bool, true, false, Text, arith, lookup, text_eq, Option-cases, Bool-cases, length, get_elem?,
  get_elem?_total, Result, ok, err, no_available_address, offset_to, ◌==◌,
}
use byterpc.Selector.Base.{Address, AddrInfo, Base, load_up, store}
use byterpc.Selector.Random.{select_loop, start_loop, select}

abbrev pub connected_name : Base → Option Text → Bool
connected_name b none = false
connected_name b (some a) = elim (lookup a b.addr_map) [ none ↦ false | some i ↦ i.connected ]

-- Whether the slot at an index of the slice names a connected address.
abbrev pub connected_at : Base → ℕ → Bool
connected_at b p = connected_name b (get_elem? b.addrs p)

-- The address of a connected slot is returned, and its load is one more.
pub record Picked (b : Base) (r : Base × Result Address) : Type 0 where
  pub slot : ℕ
  pub name : Text
  pub info : AddrInfo
  pub at_slot : get_elem? b.addrs slot ≡ some name
  pub known : lookup name b.addr_map ≡ some info
  pub is_up : info.connected ≡ true
  pub result : r ≡ (store name (load_up info) b, ok info.addr)

-- Nothing is returned, nothing changed, and the slots from an offset on are not connected.
abbrev Missed : Base → ℕ → ℕ → Base × Result Address → Type 0
Missed b idx i r =
    (r ≡ (b, err no_available_address))
    × ((j : ℕ) → i ≤ j → j < length b.addrs → connected_at b ((idx + j) % length b.addrs) ≡ false)

-- A slot of the slice names a connected address, or it does not.
abbrev pub Hit : Base → ℕ → Type 0
Hit b p =
    (a : Text) × (info : AddrInfo) × (get_elem? b.addrs p ≡ some a)
    × (lookup a b.addr_map ≡ some info)
    × (info.connected ≡ true)

pub slot_cases : (b : Base) (p : ℕ) → Hit b p ⊎ (connected_at b p ≡ false)
slot_cases b p = elim (Option-cases (get_elem? b.addrs p)) [
  | inl out ↦ inr (rw out refl)
  | inr (a, at_slot) ↦ elim (Option-cases (lookup a b.addr_map)) [
    | inl unknown ↦ inr (ground arith)
    | inr (info, known) ↦ elim (Bool-cases info.connected) [
      | inl up ↦ inl (a, info, at_slot, known, up)
      | inr down ↦ inr (ground arith)
    ]
  ]
]

select_loop_hit :
    (b : Base) (idx k i : ℕ) (a : Text) (info : AddrInfo)
    → get_elem? b.addrs ((idx + i) % length b.addrs) ≡ some a
    → lookup a b.addr_map ≡ some info
    → info.connected ≡ true
    → select_loop b idx (suc k) i ≡ (store a (load_up info) b, ok info.addr)
unfolding select_loop
select_loop_hit b idx k i a info e f g = rw (e, select_loop) (rw f (rw g refl))

select_loop_miss :
    (b : Base) (idx k i : ℕ)
    → 0 < length b.addrs
    → connected_at b ((idx + i) % length b.addrs) ≡ false
    → select_loop b idx (suc k) i ≡ select_loop b idx k (i + 1)
unfolding select_loop
select_loop_miss b idx k i pos h =
    let (a, e) = get_elem?_total b.addrs _ (mod-lt (idx + i) pos) in
    elim (Option-cases (lookup a b.addr_map)) [
      | inl unknown ↦ rw (e, select_loop) (rw unknown refl)
      | inr (info, known) ↦ ground arith
    ]

extend_miss :
    (b : Base) (idx i : ℕ) (r : Base × Result Address)
    → connected_at b ((idx + i) % length b.addrs) ≡ false
    → Picked b r ⊎ Missed b idx (i + 1) r
    → Picked b r ⊎ Missed b idx i r
extend_miss b idx i r down (inl p) = inl p
extend_miss b idx i r down (inr (e, rest)) = inr (
  e,
  λ j h l. elim (Bool-cases (i == j)) [
    | inl this ↦ let same_offset : j ≡ i = ground arith in rw same_offset down
    | inr later ↦ rest j (ground arith) l
  ],
)

select_loop-Picks :
    (b : Base) (idx k i : ℕ)
    → i + k ≡ length b.addrs
    → 0 < length b.addrs
    → Picked b (select_loop b idx k i) ⊎ Missed b idx i (select_loop b idx k i)
unfolding select_loop
select_loop-Picks b idx zero i e pos = inr (refl, λ j h l. absurd (omega arith))
select_loop-Picks b idx (suc k) i e pos = elim (slot_cases b ((idx + i) % length b.addrs)) [
  | inl (a, info, at_slot, known, up) ↦ inl record {
    slot = (idx + i) % length b.addrs;
    name = a;
    info = info;
    at_slot = at_slot;
    known = known;
    is_up = up;
    result = select_loop_hit b idx k i a info at_slot known up;
  }
  | inr down ↦
      rw (select_loop_miss b idx k i pos down)
        (extend_miss b idx i _ down (select_loop-Picks b idx k (i + 1) (omega arith) pos))
]

select_cons :
    (n : ℕ) (b : Base)
    → 0 < length b.addrs
    → select n b ≡ select_loop b (n % length b.addrs) (length b.addrs) 0
unfolding select
select_cons n b pos = by_slice b.addrs pos refl
  where
    by_slice :
        (l : List Text)
        → 0 < length l
        → l ≡ b.addrs
        → start_loop b n l ≡ select_loop b (n % length b.addrs) (length b.addrs) 0
    by_slice [] h e = elim h [ ]
    by_slice (x ∷ l) h e = refl

-- On a slice with a slot, whatever the random number, the selector returns a connected address that
-- a slot names and counts one more request on it, or no slot names a connected address and it
-- answers that none is available and changes nothing. It never runs out of the slice.
pub select-Picks :
    (n : ℕ) (b : Base)
    → 0 < length b.addrs
    → Picked b (select n b)
      ⊎ ((select n b ≡ (b, err no_available_address))
          × ((p : ℕ) → p < length b.addrs → connected_at b p ≡ false))
select-Picks n b pos = rw (select_cons n b pos) (settle found)
  where
    found :
        let r = select_loop b (n % length b.addrs) (length b.addrs) 0 in
        Picked b r ⊎ Missed b (n % length b.addrs) 0 r
    found = select_loop-Picks b (n % length b.addrs) (length b.addrs) 0 (omega arith) pos

    settle :
        {r : Base × Result Address}
        → Picked b r ⊎ Missed b (n % length b.addrs) 0 r
        → Picked b r
          ⊎ ((r ≡ (b, err no_available_address))
              × ((p : ℕ) → p < length b.addrs → connected_at b p ≡ false))
    settle (inl h) = inl h
    settle (inr (e, rest)) = inr (
      e,
      λ p l.
          let (j, below, reach) =
            offset_to (length b.addrs) (n % length b.addrs) p (mod-lt n pos) l in
          subst (λ q. connected_at b q ≡ false) reach (rest j (omega arith) below),
    )
