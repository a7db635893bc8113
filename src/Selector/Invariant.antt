-- ===== src/Selector/Invariant.antt =====
-- The invariant of the address table under `Reset`, `Put` and both kinds of `Select`.
use byterpc.Common.{
  ℕ, zero, suc, ◌^◌, ◌≤◌, ◌<◌, ◌≡◌, refl, List, [], ◌∷◌, Option, none, some, inl, inr, Text, codes,
  arith, lookup, text_eq, Option-cases, KeysDistinct, insert-KeysDistinct, AllEntries,
  AllEntries-insert, AllEntries-lookup, ℤ, pos, negsuc,
}
use byterpc.Selector.Atoi.{atoi, digits, in_range_pos, in_range_neg}
use byterpc.Selector.Base.{
  Address, AddrInfo, Base, Metadata, fields, other, info_of, weight_of, load_of, setting, number_of,
  positive_or, reset_one, reset_loop, reset, put, u64, load_up, load_down, store,
}

-- An entry stands under its own name, has a positive weight, and its load fits uint64.
abbrev pub IsGood : Text → AddrInfo → Type 0
IsGood k i = (i.addr.addr ≡ k) × (1 ≤ i.weight) × (i.load < u64)

pub record IsWellFormed (b : Base) : Type 0 where
  pub distinct : KeysDistinct b.addr_map
  pub entries : AllEntries IsGood b.addr_map

in_range_pos-lt : (o : Option ℕ) (n : ℕ) → in_range_pos o ≡ some (pos n) → n < 2 ^ 63
in_range_pos-lt none n e = cc
in_range_pos-lt (some m) n e = ground arith

in_range_neg-lt : (o : Option ℕ) (n : ℕ) → in_range_neg o ≡ some (pos n) → n < 2 ^ 63
in_range_neg-lt none n e = cc
in_range_neg-lt (some m) n e = ground arith

atoi-lt : (s : Text) (n : ℕ) → atoi s ≡ some (pos n) → n < 2 ^ 63
unfolding atoi
atoi-lt [] n e = cc
atoi-lt (c ∷ s) n e = ground (
  arith,
  in_range_pos-lt (digits s) n,
  in_range_neg-lt (digits s) n,
  in_range_pos-lt (digits (c ∷ s)) n,
)

positive_or_bounds :
    (d : ℕ) (o : Option ℤ)
    → d < 2 ^ 63
    → ((n : ℕ) → o ≡ some (pos n) → n < 2 ^ 63)
    → (d ≤ 1 → d ≤ positive_or d o) × (positive_or d o < 2 ^ 63)
positive_or_bounds d none h k = (λ small. omega arith, h)
positive_or_bounds d (some (pos zero)) h k = (λ small. omega arith, h)
positive_or_bounds d (some (pos (suc n))) h k = (λ small. omega arith, k (suc n) refl)
positive_or_bounds d (some (negsuc n)) h k = (λ small. omega arith, h)

number_of_bounds :
    (d : ℕ) (o : Option Text) → d ≤ 1 → (d ≤ number_of o d) × (number_of o d < 2 ^ 63)
number_of_bounds d none h = (omega arith, omega arith)
number_of_bounds d (some w) h =
    let r = positive_or_bounds d (atoi w) (omega arith) (atoi-lt w) in (r.0 h, r.1)

setting_bounds :
    (key : Text) (d : ℕ) (m : Metadata) → d ≤ 1 → (d ≤ setting key d m) × (setting key d m < 2 ^ 63)
unfolding setting
setting_bounds key d (fields m) h = number_of_bounds d (lookup key m) h
setting_bounds key d other h = (omega arith, omega arith)

info_of-IsGood : (a : Address) → IsGood a.addr (info_of a)
unfolding weight_of load_of
info_of-IsGood a = (
  refl,
  (setting_bounds (codes "weight") 1 a.metadata (omega arith)).0,
  omega (arith, (setting_bounds (codes "load") 0 a.metadata (omega arith)).1),
)

store-IsWellFormed :
    (k : Text) (i : AddrInfo) (b : Base) → IsWellFormed b → IsGood k i → IsWellFormed (store k i b)
store-IsWellFormed k i b h g = record {
  distinct = insert-KeysDistinct k i b.addr_map h.distinct;
  entries = AllEntries-insert IsGood k i b.addr_map g h.entries;
}

pub load_up-IsGood : (k : Text) (i : AddrInfo) → IsGood k i → IsGood k (load_up i)
load_up-IsGood k i (e, w, l) = (e, w, omega arith)

load_down-IsGood : (k : Text) (i : AddrInfo) → IsGood k i → IsGood k (load_down i)
load_down-IsGood k i (e, w, l) = (e, w, omega arith)

reset_one-IsWellFormed : (b : Base) (a : Address) → IsWellFormed b → IsWellFormed (reset_one b a)
unfolding reset_one
reset_one-IsWellFormed b a h = elim (Option-cases (lookup a.addr b.addr_map)) [
  | inl fresh ↦
      rw (fresh, reset_one)
        record {
          distinct = insert-KeysDistinct a.addr (info_of a) b.addr_map h.distinct;
          entries =
              AllEntries-insert IsGood a.addr (info_of a) b.addr_map (info_of-IsGood a) h.entries;
        }
  | inr (i, old) ↦ rw (old, reset_one) h
]

reset_loop-IsWellFormed :
    (b : Base) (as' : List Address) → IsWellFormed b → IsWellFormed (reset_loop b as')
unfolding reset_loop
reset_loop-IsWellFormed b [] h = h
reset_loop-IsWellFormed b (a ∷ as') h =
    reset_loop-IsWellFormed (reset_one b a) as' (reset_one-IsWellFormed b a h)

-- `Reset` makes a well-formed table out of any list, whatever the table was before.
pub reset-IsWellFormed : (b : Base) (as' : List Address) → IsWellFormed (reset b as')
unfolding reset
reset-IsWellFormed b as' = reset_loop-IsWellFormed _ as' (record { distinct = tt; entries = tt })

pub bump-IsWellFormed :
    (k : Text) (i : AddrInfo) (b : Base)
    → IsWellFormed b
    → lookup k b.addr_map ≡ some i
    → IsWellFormed (store k (load_up i) b)
bump-IsWellFormed k i b h e =
    store-IsWellFormed k (load_up i) b h
      (load_up-IsGood k i (AllEntries-lookup IsGood k i b.addr_map h.entries e))

-- `Put` keeps the table well formed.
pub put-IsWellFormed : (b : Base) (a : Text) → IsWellFormed b → IsWellFormed (put b a)
unfolding put
put-IsWellFormed b a h = elim (Option-cases (lookup a b.addr_map)) [
  | inl missing ↦ rw (missing, put) h
  | inr (i, found) ↦
      rw (found, put)
        (store-IsWellFormed a (load_down i) b h
          (load_down-IsGood a i (AllEntries-lookup IsGood a i b.addr_map h.entries found)))
]
