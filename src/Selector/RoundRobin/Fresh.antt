-- ===== src/Selector/RoundRobin/Fresh.antt =====
-- `Select` of selector_rr.go after the first `Reset`.
use byterpc.Common.{
  ℕ, zero, suc, ◌≤◌, ◌<◌, ◌≡◌, ◌∙◌, refl, subst, List, [], ◌∷◌, Option, none, some, Text, arith,
  same_iff, text_eq, length, get_elem?, get_elem?_total, Result,
}
use byterpc.Selector.Base.{Address, AddrInfo, Base, empty, info_of, reset}
use byterpc.Selector.Reset.{first, count, slots_or, info_or, count-reset, lookup-reset}
use byterpc.Selector.RoundRobin.{RoundRobin, wrap_next, select}
use byterpc.Selector.RoundRobin.Rounds.{before, Known, wrap_next-lt, wrap_next-base}
use byterpc.Selector.RoundRobin.Rotation.{Picks, select_total}

count-pos : (xs : List Text) (p : ℕ) (a : Text) → get_elem? xs p ≡ some a → 0 < count a xs
count-pos [] p a e = cc
count-pos (x ∷ xs) zero a e = ground (arith, same_iff a x)
count-pos (x ∷ xs) (suc p) a e = ground (arith, count-pos xs p a e)

first_known :
    (o : Option Address) → 0 < slots_or none o → (info : AddrInfo) × (info_or none o ≡ some info)
first_known none h = absurd (omega arith)
first_known (some a) h = (info_of a, refl)

-- Every slot of the slice names an entry of the map.
slot-Known :
    (list : List Address) (p : ℕ)
    → p < length (reset empty list).addrs
    → (a : Text) × (info : AddrInfo) × Known (reset empty list) p a info
slot-Known list p h =
    let (a, e) = get_elem?_total (reset empty list).addrs p h in
    let (info, k) =
      first_known (first a list)
        (omega (arith, count-reset a empty list, count-pos (reset empty list).addrs p a e)) in
    (a, info, (e, lookup-reset a empty list ∙ k))

before-lt : (len s : ℕ) → s < len → before len s < len
before-lt len s h = ground arith

-- After the first `Reset`, `Select` ends within as many rounds as the slice has slots, wherever
-- the cursor stands, and picks in the rotation.
pub select-reset_total :
    (list : List Address) (next fuel : ℕ)
    → let r : RoundRobin = record { base = reset empty list; next = next } in
      0 < length r.base.addrs
      → length r.base.addrs ≤ fuel
      → (q : RoundRobin × Result Address) × (select fuel r ≡ some q)
        × Picks (wrap_next r) (wrap_next r).next q
select-reset_total list next fuel pos enough =
    let r : RoundRobin = record { base = reset empty list; next = next } in
    let inside : (wrap_next r).next < length r.base.addrs =
      subst (λ (b : Base). (wrap_next r).next < length b.addrs) (wrap_next-base r)
        (wrap_next-lt r pos) in
    let (a, info, known) = slot-Known list _ (before-lt _ _ inside) in
    select_total fuel r a info pos enough known
