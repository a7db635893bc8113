-- ===== src/Selector.antt =====
-- selector.go: the address table that the selectors share, and selector_random.go and
-- selector_rr.go, which pick from it.
pub mod Atoi
pub mod Base
pub mod Random
pub mod RoundRobin
pub mod Reset
pub mod Invariant
pub mod Interface
mod Tests
