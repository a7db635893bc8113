-- ===== src/Selector/Random.antt =====
-- selector_random.go. The value of `r.r.Int()` is an argument.
pub mod Picks
pub mod History
use byterpc.Common.{
  ℕ, zero, suc, ◌+◌, ◌%◌, List, [], ◌∷◌, none, some, if◌then◌else◌, Text, lookup, length, get_elem?,
  addr_list_empty, no_available_address, Result, ok, err, panic, text_eq,
}
use byterpc.Selector.Base.{Address, Base, load_up, store}

-- The loop over `size` offsets from `idx`; the second argument counts the rounds left.
unfoldable pub select_loop : Base → ℕ → ℕ → ℕ → Base × Result Address
select_loop b idx zero i = (b, err no_available_address)
select_loop b idx (suc k) i =
    let rest = select_loop b idx k (i + 1) in
    elim (get_elem? b.addrs ((idx + i) % length b.addrs)) [
      | none ↦ (b, panic)
      | some a ↦ elim (lookup a b.addr_map) [
        | none ↦ rest
        | some info ↦ if info.connected then (store a (load_up info) b, ok info.addr) else rest
      ]
    ]

abbrev pub start_loop : Base → ℕ → List Text → Base × Result Address
start_loop b n [] = (b, err addr_list_empty)
start_loop b n (a ∷ as') = select_loop b (n % length b.addrs) (length b.addrs) 0

unfoldable pub select : ℕ → Base → Base × Result Address
unfolding select_loop
select n b = start_loop b n b.addrs
