-- ===== src/Selector/Tests.antt =====
-- Runs of the selectors on small lists, and the theorems at concrete inputs.
use byterpc.Common.{
  ℕ, ◌+◌, ◌≡◌, ◌⊎◌, refl, true, false, List, [], ◌∷◌, none, some, arith, codes, err,
  no_available_address, length, lookup, text_eq, Result, ◌<◌, zero, suc, pos, negsuc,
}
use byterpc.Selector.Atoi.{atoi}
use byterpc.Selector.Base.{Address, AddrInfo, Base, fields, other, empty, reset, weight_of, load_of}
use byterpc.Selector.Reset.{count, reset_lem}
use byterpc.Selector.Random
use byterpc.Selector.Random.Picks.{Picked, select-Picks, connected_at}
use byterpc.Selector.Random.History.{Op, resets, selects, puts}
use byterpc.Selector.RoundRobin.{RoundRobin, wrap_next}
use byterpc.Selector.RoundRobin
use byterpc.Selector.RoundRobin.Rotation.{Picks, select_total}
use byterpc.Selector.RoundRobin.Stuck.{AllDown, select-reset_nil_stuck}

abbrev weighted : Address
weighted = record { addr = codes "a:1"; metadata = fields ((codes "weight", codes "2") ∷ []) }

abbrev plain : Address
plain = record { addr = codes "b:1"; metadata = other }

abbrev servers : List Address
servers = weighted ∷ plain ∷ weighted ∷ []

atoi_plus : atoi (codes "+12") ≡ some (pos 12)
unfolding atoi
atoi_plus = refl

atoi_minus : atoi (codes "-12") ≡ some (negsuc 11)
unfolding atoi
atoi_minus = refl

atoi_text : atoi (codes "1x") ≡ none
unfolding atoi
atoi_text = refl

atoi_large : atoi (codes "9223372036854775808") ≡ none
unfolding atoi
atoi_large = refl

reset-servers : (reset empty servers).addrs ≡ codes "a:1" ∷ codes "a:1" ∷ codes "b:1" ∷ []
unfolding reset weight_of load_of atoi
reset-servers = refl

reset_lem_example :
    let b = reset empty servers in
    (lookup (codes "a:1") (reset b (plain ∷ [])).addr_map ≡ none)
    × (count (codes "a:1") (reset b (plain ∷ [])).addrs ≡ count (codes "a:1") b.addrs + 0)
reset_lem_example = reset_lem (codes "a:1") (reset empty servers) (plain ∷ [])

-- A table with one connected address.
abbrev up : AddrInfo
up = record { addr = plain; weight = 1; load = 0; connected = true }

abbrev one_up : Base
one_up = record {
  addrs = codes "a:1" ∷ codes "b:1" ∷ [];
  addr_map =
      (codes "a:1", record up { addr = weighted; connected = false }) ∷ (codes "b:1", up) ∷ [];
}

select-Picks_example :
    Picked one_up (Random.select 4 one_up)
    ⊎ ((Random.select 4 one_up ≡ (one_up, err no_available_address))
        × ((p : ℕ) → p < length one_up.addrs → connected_at one_up p ≡ false))
select-Picks_example = select-Picks 4 one_up (omega arith)

abbrev busy_history : List Op
busy_history = resets servers ∷ selects 5 ∷ puts (codes "a:1") ∷ resets (plain ∷ []) ∷ []

abbrev ring : RoundRobin
ring = record { base = one_up; next = 0 }

select_total_example :
    (q : RoundRobin × Result Address) × (RoundRobin.select 2 ring ≡ some q)
    × Picks (wrap_next ring) (wrap_next ring).next q
select_total_example =
    select_total 2 ring (codes "b:1") up (omega arith) (omega arith)
      (unfold wrap_next in (refl, refl))

-- Two addresses, none connected.
abbrev down_base : Base
down_base = record one_up { addr_map = (codes "b:1", record up { connected = false }) ∷ [] }

abbrev down_ring : RoundRobin
down_ring = record { base = down_base; next = 0 }

down_base-AllDown : AllDown down_base
down_base-AllDown zero h = refl
down_base-AllDown (suc zero) h = refl
down_base-AllDown (suc (suc p)) h = absurd (omega arith)

-- The cursor behind the slot of the dropped address.
abbrev lost_ring : RoundRobin
lost_ring = record { base = down_base; next = 1 }

select-reset_nil_stuck_example :
    RoundRobin.select 1000 (record { base = reset one_up []; next = 0 }) ≡ none
select-reset_nil_stuck_example = select-reset_nil_stuck 1000 0 one_up (omega arith)
