-- ===== src/Balancer/Calls.antt =====
-- The calls of a balancer's methods in any order: by the client, by the watcher's goroutine and by
-- the reader of `Notify`.
use byterpc.Common.{ℕ, Bool, List, [], ◌∷◌, Result}
use byterpc.Naming.{Update}
use byterpc.Selector.Base.{Address}
use byterpc.Selector.Interface.{Selector}
use byterpc.Balancer.{Balancer, start, watch_addr_updates, get, put, take_list, close}

-- Balancers that are made without a selector share one: `shares` is a change of it by another.
pub data Call (S : Type 0) : Type 0 where
  starts : Result (Unit {0}) → Call S
  watches : Result (List Update) → Call S
  gets : ℕ → Bool → Call S
  puts : Address → Call S
  takes closes : Call S
  shares : S → Call S

module _ {S : Type 0} (ops : Selector S) where
  unfoldable pub step : Balancer S → Call S → Balancer S
  step b (starts r) = (start b r).0
  step b (watches r) = (watch_addr_updates ops b r).0
  step b (gets n w) = (get ops b n w).0
  step b (puts a) = (put ops b a).0
  step b takes = (take_list b).0
  step b closes = (close b).0
  step b (shares s) = record b { s = s }

  unfoldable pub run : Balancer S → List (Call S) → Balancer S
  unfolding step
  run b [] = b
  run b (c ∷ cs) = run (step b c) cs
