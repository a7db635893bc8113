-- ===== src/Selector/RoundRobin.antt =====
-- selector_rr.go. The loop of `Select` has no bound in the code: it runs on fuel, and `none`
-- means that the fuel is used up.
pub mod Rounds
pub mod Rotation
pub mod Stuck
pub mod Steady
pub mod Fresh
use byterpc.Common.{
  ℕ, zero, suc, ◌+◌, ◌%◌, List, [], ◌∷◌, Option, none, some, if◌then◌else◌, ◌==◌, ◌||◌, leb, Text,
  lookup, length, get_elem?, addr_list_empty, Result, ok, err, panic, text_eq,
}
use byterpc.Selector.Base.{Address, AddrInfo, Base, load_up, store}

pub record RoundRobin : Type 0 where
  pub base : Base
  pub next : ℕ

abbrev pub picked : RoundRobin → Text → AddrInfo → ℕ → RoundRobin × Result Address
picked r a info next = (record { base = store a (load_up info) r.base; next = next }, ok info.addr)

unfoldable pub select_loop : ℕ → RoundRobin → ℕ → Option (RoundRobin × Result Address)
select_loop zero r next = none
select_loop (suc fuel) r next =
    let next' = (next + 1) % length r.base.addrs in
    let rest = select_loop fuel r next' in
    elim (get_elem? r.base.addrs next) [
      | none ↦ some (r, panic)
      | some a ↦ elim (lookup a r.base.addr_map) [
        | none ↦ rest
        | some info ↦
            if info.connected || next' == r.next then some (picked r a info next') else rest
      ]
    ]

-- `if r.next >= len(r.addrs) { r.next = 0 }`
unfoldable pub wrap_next : RoundRobin → RoundRobin
wrap_next r = if leb (length r.base.addrs) r.next then record r { next = 0 } else r

abbrev pub start_loop : ℕ → RoundRobin → List Text → Option (RoundRobin × Result Address)
start_loop fuel r [] = some (r, err addr_list_empty)
start_loop fuel r (a ∷ as') = select_loop fuel (wrap_next r) (wrap_next r).next

unfoldable pub select : ℕ → RoundRobin → Option (RoundRobin × Result Address)
unfolding select_loop wrap_next
select fuel r = start_loop fuel r r.base.addrs
