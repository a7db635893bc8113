-- ===== src/Selector/RoundRobin/Rotation.antt =====
-- What one `Select` of selector_rr.go picks.
use native.Mathlib.Nat.{mod-lt, mod-eq_of_lt, mod-add-mod}
use byterpc.Common.{
  ℕ, zero, suc, ◌+◌, ◌%◌, ◌≤◌, ◌<◌, ◌≡◌, ◌∙◌, refl, sym, ap, subst, ◌⊎◌, some, inl, inr, true,
  false, Text, arith, text_eq, length, Result,
}
use byterpc.Selector.Base.{Address, AddrInfo}
use byterpc.Selector.Random.Picks.{connected_at}
use byterpc.Selector.RoundRobin.Rounds.{
  before, Known, Distance, Distance-next, round_cases, start-Distance, select_cons, wrap_next-lt,
  wrap_next-base,
}
use byterpc.Selector.RoundRobin.{RoundRobin, picked, select_loop, wrap_next, select}

-- What a `Select` that ends has picked. Every slot between the start of the loop and the slot is
-- not connected; the slot is connected, or it is the last one of the ring; the cursor stands
-- behind it.
pub record Picks (r : RoundRobin) (next : ℕ) (q : RoundRobin × Result Address) : Type 0 where
  pub skipped : ℕ
  pub slot : ℕ
  pub name : Text
  pub info : AddrInfo
  pub place : slot ≡ (next + skipped) % length r.base.addrs
  pub known : Known r.base slot name info
  pub passed :
      (j : ℕ) → j < skipped → connected_at r.base ((next + j) % length r.base.addrs) ≡ false
  pub reason : (info.connected ≡ true) ⊎ (slot ≡ before (length r.base.addrs) r.next)
  pub result : q ≡ picked r name info ((slot + 1) % length r.base.addrs)

Picks-here :
    (r : RoundRobin) (next : ℕ) (a : Text) (info : AddrInfo)
    → next < length r.base.addrs
    → Known r.base next a info
    → (info.connected ≡ true) ⊎ (next ≡ before (length r.base.addrs) r.next)
    → Picks r next (picked r a info ((next + 1) % length r.base.addrs))
Picks-here r next a info h known why = record {
  skipped = 0;
  slot = next;
  name = a;
  info = info;
  place = ground (arith, mod-eq_of_lt {n = next + 0} {m = length r.base.addrs});
  known = known;
  passed = λ j l. absurd (omega arith);
  reason = why;
  result = refl;
}

Picks-later :
    (r : RoundRobin) (next : ℕ) (q : RoundRobin × Result Address)
    → next < length r.base.addrs
    → connected_at r.base next ≡ false
    → Picks r ((next + 1) % length r.base.addrs) q
    → Picks r next q
Picks-later r next q h down p = record {
  skipped = suc p.skipped;
  slot = p.slot;
  name = p.name;
  info = p.info;
  place = p.place ∙ one_further p.skipped;
  known = p.known;
  passed = λ j l. pass j l;
  reason = p.reason;
  result = p.result;
}
  where
    one_further :
        (j : ℕ)
        → ((next + 1) % length r.base.addrs + j) % length r.base.addrs
          ≡ (next + suc j) % length r.base.addrs
    one_further j =
        mod-add-mod (next + 1) (length r.base.addrs) j
        ∙ ap (λ (t : ℕ). t % length r.base.addrs) (omega arith)

    pass :
        (j : ℕ) → j < suc p.skipped → connected_at r.base ((next + j) % length r.base.addrs) ≡ false
    pass zero l =
        let here : (next + 0) % length r.base.addrs ≡ next =
          ap (λ (t : ℕ). t % length r.base.addrs) (omega arith) ∙ mod-eq_of_lt h in
        rw here down
    pass (suc j) l =
        subst (λ i. connected_at r.base i ≡ false) (one_further j) (p.passed j (omega arith))

loop-Picks :
    (d fuel : ℕ) (r : RoundRobin) (next : ℕ) (a : Text) (info : AddrInfo)
    → Distance (length r.base.addrs) r.next next d
    → d ≤ fuel
    → next < length r.base.addrs
    → r.next < length r.base.addrs
    → Known r.base (before (length r.base.addrs) r.next) a info
    → (q : RoundRobin × Result Address) × (select_loop fuel r next ≡ some q) × Picks r next q
loop-Picks zero fuel r next a info dist le h k known = absurd (ground arith)
loop-Picks (suc d) zero r next a info dist le h k known = absurd (omega arith)
loop-Picks (suc d) (suc fuel) r next a info dist le h k known = elim (round_cases r next h k) [
  | inl (a', info', known', why, stop) ↦ (_, stop fuel, Picks-here r next a' info' h known' why)
  | inr (go, down, ne) ↦
      let (q, e, p) =
        loop-Picks d fuel r _ a info
          (Distance-next _ _ next d h k
            (λ e. ne a info (subst (λ p. Known r.base p a info) (sym e) known) e) dist)
          (omega arith) (mod-lt _ (omega arith)) k known in
      (q, go fuel ∙ e, Picks-later r next q h down p)
]

-- On a slice with slots `Select` ends where the slot before the cursor has an entry: as many rounds
-- as there are slots are enough. It returns the first connected address from the cursor on, or,
-- where none up to the slot before the cursor is connected, the one at that slot.
pub select_total :
    (fuel : ℕ) (r : RoundRobin) (a : Text) (info : AddrInfo)
    → 0 < length r.base.addrs
    → length r.base.addrs ≤ fuel
    → Known r.base (before (length r.base.addrs) (wrap_next r).next) a info
    → (q : RoundRobin × Result Address) × (select fuel r ≡ some q)
      × Picks (wrap_next r) (wrap_next r).next q
select_total fuel r a info pos enough known = rw (select_cons fuel r pos) (
    loop-Picks (length (wrap_next r).base.addrs) fuel (wrap_next r) (wrap_next r).next a info
      (start-Distance _ _) (rw (wrap_next-base r) enough) (wrap_next-lt r pos) (wrap_next-lt r pos)
      (rw (wrap_next-base r) known))
