-- ===== src/Selector/RoundRobin/Steady.antt =====
-- Successive calls of `Select` of selector_rr.go while no address is connected.
use native.Mathlib.Nat.{mod-lt}
use mathlib.Core.Bool.{false≢true}
use byterpc.Common.{
  ℕ, ◌+◌, ◌%◌, ◌≤◌, ◌<◌, ◌≡◌, ◌∙◌, refl, sym, ap, subst, ◌⊎◌, some, inl, inr, true, Text, arith,
  same_iff, same_refl, lookup, lookup-insert, text_eq, length, get_elem?_total, Result, ok,
}
use byterpc.Selector.Base.{Address, AddrInfo, Base, load_up, store}
use byterpc.Selector.Random.Picks.{connected_name}
use byterpc.Selector.RoundRobin.{RoundRobin, wrap_next, select}
use byterpc.Selector.RoundRobin.Rounds.{before, Known, before-next, wrap_next-lt, wrap_next-base}
use byterpc.Selector.RoundRobin.Rotation.{Picks, select_total}
use byterpc.Selector.RoundRobin.Stuck.{AllDown, Known-connected}

Known-unique :
    (b : Base) (p : ℕ) (a a' : Text) (i i' : AddrInfo)
    → Known b p a i
    → Known b p a' i'
    → (a ≡ a') × (i ≡ i')
Known-unique b p a a' i i' (e, k) (e', k') =
    let one : a ≡ a' = ground arith in
    (one, ground (arith, subst (λ n. lookup n b.addr_map ≡ some i) one k))

last_slot :
    (w : RoundRobin) (q : RoundRobin × Result Address) (p : Picks w w.next q)
    → AllDown w.base
    → (p.info.connected ≡ true) ⊎ (p.slot ≡ before (length w.base.addrs) w.next)
    → p.slot < length w.base.addrs
    → p.slot ≡ before (length w.base.addrs) w.next
last_slot w q p down (inl up) h =
    absurd
      (false≢true (sym (down p.slot h) ∙ Known-connected w.base p.slot p.name p.info p.known ∙ up))
last_slot w q p down (inr e) h = e

abbrev held : RoundRobin → Text → AddrInfo → RoundRobin × Result Address
held r a info = (record { base = store a (load_up info) r.base; next = r.next }, ok info.addr)

Picks-held :
    (w : RoundRobin) (q : RoundRobin × Result Address) (a : Text) (info : AddrInfo)
    → Picks w w.next q
    → AllDown w.base
    → w.next < length w.base.addrs
    → Known w.base (before (length w.base.addrs) w.next) a info
    → q ≡ held w a info
Picks-held w q a info p down h known =
    let inside : p.slot < length w.base.addrs = rw p.place (mod-lt _ (omega arith)) in
    let slot_eq : p.slot ≡ before (length w.base.addrs) w.next =
      last_slot w q p down p.reason inside in
    let (name_eq, info_eq) =
      Known-unique w.base p.slot p.name a p.info info p.known
        (subst (λ s. Known w.base s a info) (sym slot_eq) known) in
    let back : (p.slot + 1) % length w.base.addrs ≡ w.next =
      (before-next _ _ p.slot inside h).1 slot_eq in
    p.result ∙ rw (back, name_eq, info_eq) refl

-- With no connected address, and an entry for the slot before the cursor, `Select` returns the
-- address of that slot and leaves the cursor where it was.
pub select_steady :
    (fuel : ℕ) (r : RoundRobin) (a : Text) (info : AddrInfo)
    → 0 < length r.base.addrs
    → length r.base.addrs ≤ fuel
    → AllDown r.base
    → Known r.base (before (length r.base.addrs) (wrap_next r).next) a info
    → select fuel r
      ≡ some
          (record { base = store a (load_up info) r.base; next = (wrap_next r).next }, ok info.addr)
select_steady fuel r a info pos enough down known =
    let (q, e, p) = select_total fuel r a info pos enough known in
    let w = wrap_next r in
    let same_base : w.base ≡ r.base = wrap_next-base r in
    let held_w : q ≡ held w a info =
      Picks-held w q a info p (rw same_base down) (wrap_next-lt r pos) (rw same_base known) in
    e
    ∙ ap some (
        held_w
        ∙ ap (λ b. (record { base = store a (load_up info) b; next = w.next }, ok info.addr))
            same_base)

connected-store :
    (b : Base) (a : Text) (info : AddrInfo) (n : Text)
    → lookup a b.addr_map ≡ some info
    → connected_name (store a (load_up info) b) (some n) ≡ connected_name b (some n)
connected-store b a info n e =
    ground (arith, lookup-insert n a (load_up info) b.addr_map, same_iff n a)

store-AllDown :
    (b : Base) (a : Text) (info : AddrInfo)
    → lookup a b.addr_map ≡ some info
    → AllDown b
    → AllDown (store a (load_up info) b)
store-AllDown b a info e down p h =
    let (n, at_slot) = get_elem?_total b.addrs p h in
    rw at_slot (connected-store b a info n e ∙ rw at_slot at (down p h))

wrap_next_id : (r : RoundRobin) → r.next < length r.base.addrs → (wrap_next r).next ≡ r.next
unfolding wrap_next
wrap_next_id r h = ground arith

-- On a slice with slots, none of which is connected, and with an entry for the slot before the
-- cursor, two calls of `Select` within as many rounds as there are slots return the same address:
-- the selector does not go round.
pub select-select_steady :
    (fuel : ℕ) (r : RoundRobin) (a : Text) (info : AddrInfo)
    → 0 < length r.base.addrs
    → length r.base.addrs ≤ fuel
    → AllDown r.base
    → Known r.base (before (length r.base.addrs) (wrap_next r).next) a info
    → (r' r'' : RoundRobin) × (select fuel r ≡ some (r', ok info.addr))
      × (select fuel r' ≡ some (r'', ok info.addr))
select-select_steady fuel r a info pos enough down known =
    let r' : RoundRobin = record {
      base = store a (load_up info) r.base;
      next = (wrap_next r).next;
    } in
    let inside : r'.next < length r'.base.addrs =
      subst (λ b. (wrap_next r).next < length b.addrs) (wrap_next-base r) (wrap_next-lt r pos) in
    let stays : (wrap_next r').next ≡ r'.next = wrap_next_id r' inside in
    let again : lookup a r'.base.addr_map ≡ some (load_up info) =
      lookup-insert a a (load_up info) r.base.addr_map ∙ rw (same_refl a) refl in
    (
      r',
      _,
      select_steady fuel r a info pos enough down known,
      select_steady fuel r' a (load_up info) pos enough (store-AllDown r.base a info known.1 down)
          (rw stays (known.0, again)),
    )
