-- ===== src/Selector/Reset.antt =====
-- What `Reset` of selector.go leaves in the map and in the slice, against a plain description of
-- the list that it was given.
use byterpc.Common.{
  ℕ, zero, suc, ◌+◌, ◌≡◌, List, [], ◌∷◌, ◌++◌, Option, none, some, inl, inr, if◌then◌else◌, Text,
  arith, same, same_iff, lookup, lookup-insert, replicate, text_eq, Option-cases,
}
use byterpc.Selector.Base.{
  Address, AddrInfo, Base, info_of, weight_of, reset_one, reset_loop, reset,
}

-- The first address of that name.
abbrev pub first : Text → List Address → Option Address
first k [] = none
first k (a ∷ as') = if same k a.addr then some a else first k as'

abbrev pub count : Text → List Text → ℕ
count k [] = 0
count k (s ∷ ss) = if same k s then suc (count k ss) else count k ss

abbrev pub info_or : Option AddrInfo → Option Address → Option AddrInfo
info_or (some i) o = some i
info_or none none = none
info_or none (some a) = some (info_of a)

-- How many slots of the slice an address takes that is not in the map yet.
abbrev pub slots_or : Option AddrInfo → Option Address → ℕ
slots_or (some i) o = 0
slots_or none none = 0
slots_or none (some a) = weight_of a.metadata

count-append : (k : Text) (xs ys : List Text) → count k (xs ++ ys) ≡ count k xs + count k ys
count-append k [] ys = omega arith
count-append k (x ∷ xs) ys = ground (arith, count-append k xs ys)

count-replicate : (k a : Text) (n : ℕ) → count k (replicate n a) ≡ (if same k a then n else 0)
count-replicate k a zero = ground arith
count-replicate k a (suc n) = ground (arith, count-replicate k a n)

reset_loop-lookup :
    (k : Text) (b : Base) (as' : List Address)
    → lookup k (reset_loop b as').addr_map ≡ info_or (lookup k b.addr_map) (first k as')
unfolding reset_loop reset_one
reset_loop-lookup k b [] = ground arith
reset_loop-lookup k b (a ∷ as') = elim (Option-cases (lookup a.addr b.addr_map)) [
  | inl fresh ↦ ground (
    arith,
    reset_loop-lookup k (reset_one b a) as',
    lookup-insert k a.addr (info_of a) b.addr_map,
    same_iff k a.addr,
  )
  | inr (i, old) ↦ ground (arith, reset_loop-lookup k (reset_one b a) as', same_iff k a.addr)
]

-- After `Reset` the map holds, under each name, the first address of the list that has it,
-- unconnected and with its own weight and load, and nothing else.
pub lookup-reset :
    (k : Text) (b : Base) (as' : List Address)
    → lookup k (reset b as').addr_map ≡ info_or none (first k as')
unfolding reset
lookup-reset k b as' = reset_loop-lookup k _ as'

reset_loop-count :
    (k : Text) (b : Base) (as' : List Address)
    → count k (reset_loop b as').addrs
      ≡ count k b.addrs + slots_or (lookup k b.addr_map) (first k as')
unfolding reset_loop reset_one
reset_loop-count k b [] = ground arith
reset_loop-count k b (a ∷ as') = elim (Option-cases (lookup a.addr b.addr_map)) [
  | inl fresh ↦ ground (
    arith,
    reset_loop-count k (reset_one b a) as',
    count-append k b.addrs (replicate (weight_of a.metadata) a.addr),
    count-replicate k a.addr (weight_of a.metadata),
    lookup-insert k a.addr (info_of a) b.addr_map,
    same_iff k a.addr,
  )
  | inr (i, old) ↦ ground (arith, reset_loop-count k (reset_one b a) as', same_iff k a.addr)
]

-- `Reset` adds to the slice as many slots for a name as the weight of the first address of the
-- list with that name, and takes none of the old slots away, so the slots of an earlier list stay.
pub count-reset :
    (k : Text) (b : Base) (as' : List Address)
    → count k (reset b as').addrs ≡ count k b.addrs + slots_or none (first k as')
unfolding reset
count-reset k b as' = reset_loop-count k _ as'

-- After `Reset` the map holds, under each name, the first address of the list that has it,
-- unconnected and with its own weight and load, and nothing else; the slice has as many slots more
-- for a name as the weight of that address, and none of the old slots is taken away.
pub reset_lem :
    (k : Text) (b : Base) (as' : List Address)
    → (lookup k (reset b as').addr_map ≡ info_or none (first k as'))
      × (count k (reset b as').addrs ≡ count k b.addrs + slots_or none (first k as'))
reset_lem k b as' = (lookup-reset k b as', count-reset k b as')
