-- ===== src/Selector/Random/History.antt =====
-- Whole histories of a random selector: `Reset`, `Select` and `Put` in any order, from the state
-- that `NewRandomSelector` makes.
use byterpc.Common.{
  ℕ, ◌<◌, ◌≡◌, refl, sym, ◌∙◌, Error, ◌⊎◌, List, [], ◌∷◌, inl, inr, false, Text, arith, lookup,
  Option-cases, length, err, no_available_address, addr_list_empty, AllEntries, AllEntries-insert,
  AllEntries-lookup, text_eq,
}
use mathlib.Core.Bool.{false≢true}
use byterpc.Selector.Base.{
  Address, AddrInfo, Base, info_of, empty, reset_one, reset_loop, reset, put, load_down,
}
use byterpc.Selector.Invariant.{
  IsWellFormed, reset-IsWellFormed, put-IsWellFormed, bump-IsWellFormed,
}
use byterpc.Selector.Random.{select}
use byterpc.Selector.Random.Picks.{Picked, select-Picks, connected_at}

pub data Op : Type 0 where
  resets : List Address → Op
  selects : ℕ → Op
  puts : Text → Op

unfoldable pub step : Base → Op → Base
step b (resets list) = reset b list
step b (selects n) = (select n b).0
step b (puts a) = put b a

unfoldable pub run : Base → List Op → Base
unfolding step
run b [] = b
run b (o ∷ os) = run (step b o) os

select_empty : (n : ℕ) (b : Base) → b.addrs ≡ [] → select n b ≡ (b, err addr_list_empty)
unfolding select
select_empty n b e = rw e refl

-- Why a selection that returns no address returns none.
abbrev pub IsRefusal : Error → Type 0
IsRefusal e = (e ≡ addr_list_empty) ⊎ (e ≡ no_available_address)

-- Every selection picks a connected address, or is refused and changes nothing.
select_cases :
    (n : ℕ) (b : Base)
    → Picked b (select n b) ⊎ ((e : Error) × (select n b ≡ (b, err e)) × IsRefusal e)
select_cases n b = by_slice b.addrs refl
  where
    settle :
        Picked b (select n b)
          ⊎ ((select n b ≡ (b, err no_available_address))
              × ((p : ℕ) → p < length b.addrs → connected_at b p ≡ false))
        → Picked b (select n b) ⊎ ((e : Error) × (select n b ≡ (b, err e)) × IsRefusal e)
    settle (inl h) = inl h
    settle (inr (q, _)) = inr (no_available_address, q, inr refl)

    by_slice :
        (l : List Text)
        → b.addrs ≡ l
        → Picked b (select n b) ⊎ ((e : Error) × (select n b ≡ (b, err e)) × IsRefusal e)
    by_slice [] q = inr (addr_list_empty, select_empty n b q, inl refl)
    by_slice (x ∷ l) q = settle (select-Picks n b (rw q (omega arith)))

select-IsWellFormed : (n : ℕ) (b : Base) → IsWellFormed b → IsWellFormed (select n b).0
select-IsWellFormed n b h = elim (select_cases n b) [
  | inl p ↦ rw p.result (bump-IsWellFormed p.name p.info b h p.known)
  | inr (e, q, _) ↦ rw q h
]

step-IsWellFormed : (b : Base) (o : Op) → IsWellFormed b → IsWellFormed (step b o)
unfolding step
step-IsWellFormed b (resets list) h = reset-IsWellFormed b list
step-IsWellFormed b (selects n) h = select-IsWellFormed n b h
step-IsWellFormed b (puts a) h = put-IsWellFormed b a h

-- After any history from a well-formed table the table is well formed: a name has one entry, which
-- stands under the name of its own address, has a positive weight and a load that fits uint64.
pub run-IsWellFormed : (b : Base) (os : List Op) → IsWellFormed b → IsWellFormed (run b os)
unfolding run
run-IsWellFormed b [] h = h
run-IsWellFormed b (o ∷ os) h = run-IsWellFormed (step b o) os (step-IsWellFormed b o h)

-- No entry is marked connected.
abbrev IsDown : Text → AddrInfo → Type 0
IsDown k i = i.connected ≡ false

AllDown : Base → Type 0
AllDown b = AllEntries IsDown b.addr_map

reset_one-AllDown : (b : Base) (a : Address) → AllDown b → AllDown (reset_one b a)
unfolding reset_one AllDown
reset_one-AllDown b a h = elim (Option-cases (lookup a.addr b.addr_map)) [
  | inl fresh ↦
      rw (fresh, reset_one) (AllEntries-insert IsDown a.addr (info_of a) b.addr_map refl h)
  | inr (i, old) ↦ rw (old, reset_one) h
]

reset_loop-AllDown : (b : Base) (list : List Address) → AllDown b → AllDown (reset_loop b list)
unfolding reset_loop
reset_loop-AllDown b [] h = h
reset_loop-AllDown b (a ∷ list) h =
    reset_loop-AllDown (reset_one b a) list (reset_one-AllDown b a h)

put-AllDown : (b : Base) (a : Text) → AllDown b → AllDown (put b a)
unfolding put AllDown
put-AllDown b a h = elim (Option-cases (lookup a b.addr_map)) [
  | inl missing ↦ rw (missing, put) h
  | inr (i, found) ↦
      rw (found, put)
        (AllEntries-insert IsDown a (load_down i) b.addr_map
          (AllEntries-lookup IsDown a i b.addr_map h found) h)
]

select-AllDown :
    (n : ℕ) (b : Base) → AllDown b → (e : Error) × (select n b ≡ (b, err e)) × IsRefusal e
unfolding AllDown
select-AllDown n b h = elim (select_cases n b) [
  | inl p ↦
      let down : p.info.connected ≡ false =
        AllEntries-lookup IsDown p.name p.info b.addr_map h p.known in
      absurd (false≢true (sym down ∙ p.is_up))
  | inr q ↦ q
]

step-AllDown : (b : Base) (o : Op) → AllDown b → AllDown (step b o)
unfolding step reset AllDown
step-AllDown b (resets list) h = reset_loop-AllDown (record b { addr_map = [] }) list tt
step-AllDown b (selects n) h = let (e, q, _) = select-AllDown n b h in rw (q, step) h
step-AllDown b (puts a) h = put-AllDown b a h

run-AllDown : (b : Base) (os : List Op) → AllDown b → AllDown (run b os)
unfolding run
run-AllDown b [] h = h
run-AllDown b (o ∷ os) h = run-AllDown (step b o) os (step-AllDown b o h)

-- A random selector never returns an address: after any history from the state that
-- `NewRandomSelector` makes, and with any random number, `Select` is refused and changes nothing.
pub select-run_refused :
    (os : List Op) (n : ℕ)
    → (e : Error) × (select n (run empty os) ≡ (run empty os, err e)) × IsRefusal e
unfolding AllDown
select-run_refused os n = select-AllDown n (run empty os) (run-AllDown empty os tt)
