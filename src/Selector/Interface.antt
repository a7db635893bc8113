-- ===== src/Selector/Interface.antt =====
-- `interface Selector` of selector.go, and its two implementations.
use byterpc.Common.{ℕ, List, Option, some, Text, Result, length}
use byterpc.Selector.Base.{Address, Base, Visit, reset, addr_list, put}
use byterpc.Selector.Random
use byterpc.Selector.RoundRobin
use byterpc.Selector.RoundRobin.{RoundRobin}

-- The number that `select` takes is the random number of this call. `none` means that the call
-- does not end.
pub record Selector (S : Type 0) : Type 0 where
  pub reset : S → List Address → S
  pub addr_list : S → List Address
  pub select : ℕ → S → Option (S × Result Address)
  pub put : S → Text → S

-- `visit` is the order in which `AddrList` visits the map.
abbrev pub random : Visit → Selector Base
random visit = record {
  reset = reset;
  addr_list = addr_list visit;
  select = λ n b. some (Random.select n b);
  put = put;
}

-- The rounds of `Select` are at most the slots, or they never end.
abbrev pub round_robin : Visit → Selector RoundRobin
round_robin visit = record {
  reset = λ r list. record r { base = reset r.base list };
  addr_list = λ r. addr_list visit r.base;
  select = λ n r. RoundRobin.select (length r.base.addrs) r;
  put = λ r a. record r { base = put r.base a };
}
