-- ===== src/Selector/RoundRobin/Stuck.antt =====
-- `Select` of selector_rr.go when no address is connected and slots of an earlier list are left.
use native.Mathlib.Nat.{mod-lt}
use mathlib.Core.Bool.{false≢true}
use byterpc.Common.{
  ℕ, zero, suc, ◌<◌, ◌≡◌, ◌∙◌, refl, sym, subst, ◌⊎◌, [], none, inl, inr, true, false, Text, arith,
  text_eq, length, get_elem?_total,
}
use byterpc.Selector.Base.{AddrInfo, Base, reset, reset_loop}
use byterpc.Selector.Random.Picks.{connected_name, connected_at}
use byterpc.Selector.RoundRobin.{RoundRobin, select_loop, wrap_next, select}
use byterpc.Selector.RoundRobin.Rounds.{
  before, Known, round_cases, select_cons, wrap_next-lt, wrap_next-base,
}

-- No slot names a connected address.
abbrev pub AllDown : Base → Type 0
AllDown b = (p : ℕ) → p < length b.addrs → connected_at b p ≡ false

pub Known-connected :
    (b : Base) (p : ℕ) (a : Text) (info : AddrInfo)
    → Known b p a info
    → connected_at b p ≡ info.connected
Known-connected b p a info (e, f) = rw e (rw (f, connected_name) refl)

loop_stuck :
    (fuel : ℕ) (r : RoundRobin) (next : ℕ)
    → AllDown r.base
    → ((a : Text) (info : AddrInfo) → ¬ Known r.base (before (length r.base.addrs) r.next) a info)
    → next < length r.base.addrs
    → r.next < length r.base.addrs
    → select_loop fuel r next ≡ none
unfolding select_loop
loop_stuck zero r next down lost h k = refl
loop_stuck (suc fuel) r next down lost h k = elim (round_cases r next h k) [
  | inl (a, info, known, why, _) ↦ absurd (refuse a info known why)
  | inr (go, _, _) ↦ go fuel ∙ loop_stuck fuel r _ down lost (mod-lt _ (omega arith)) k
]
  where
    refuse :
        (a : Text) (info : AddrInfo)
        → Known r.base next a info
        → (info.connected ≡ true) ⊎ (next ≡ before (length r.base.addrs) r.next)
        → ⊥
    refuse a info known (inl up) =
        false≢true (sym (down next h) ∙ Known-connected r.base next a info known ∙ up)
    refuse a info known (inr at_end) = lost a info (subst (λ p. Known r.base p a info) at_end known)

-- Where no slot is connected and the slot before the cursor names an address that the last `Reset`
-- dropped, the loop of `Select` has no end: no number of rounds is enough.
pub select_stuck :
    (fuel : ℕ) (r : RoundRobin)
    → 0 < length r.base.addrs
    → AllDown r.base
    → ((a : Text) (info : AddrInfo)
        → ¬ Known r.base (before (length r.base.addrs) (wrap_next r).next) a info)
    → select fuel r ≡ none
select_stuck fuel r pos down lost = rw (select_cons fuel r pos) (
    loop_stuck fuel (wrap_next r) (wrap_next r).next (rw (wrap_next-base r) down)
      (rw (wrap_next-base r) lost) (wrap_next-lt r pos) (wrap_next-lt r pos))

reset_nil-down : (b : Base) → AllDown (reset b [])
unfolding reset reset_loop
reset_nil-down b p h = let (a, e) = get_elem?_total b.addrs p h in rw (e, connected_name) refl

-- Once `Reset` has been called with no address on a round-robin selector whose slice is not empty,
-- `Select` does not end: no number of rounds is enough.
pub select-reset_nil_stuck :
    (fuel next : ℕ) (b : Base)
    → 0 < length b.addrs
    → select fuel (record { base = reset b []; next = next }) ≡ none
unfolding reset reset_loop
select-reset_nil_stuck fuel next b pos =
    select_stuck fuel _ pos (reset_nil-down b) (λ a info known. cc (known.1))
