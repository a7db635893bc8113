-- ===== src/Balancer/Tests.antt =====
-- The balancer's theorems at concrete states.
use byterpc.Common.{◌≡◌, refl, true, false, List, [], ◌∷◌, map, none, some, codes, ok}
use byterpc.Naming.{Update}
use byterpc.Selector.Base.{Base, other, empty, reset}
use byterpc.Selector.Interface.{Selector, random}
use byterpc.Selector.RoundRobin.{RoundRobin}
use byterpc.Selector.Random.History
use byterpc.Selector.Random.History.{Op, resets}
use byterpc.Balancer.{Balancer, new_balancer, to_address, start, get}
use byterpc.Balancer.Calls.{Call, starts, watches, gets, takes, closes, run}
use byterpc.Balancer.Channel.{IsSound, run-new_balancer-IsSound}
use byterpc.Balancer.Locking.{Stuck, get-random-Stuck}

abbrev news : List Update
news = record { addr = codes "a:1"; metadata = other } ∷ []

abbrev watching : Balancer Base
watching = record {
  has_resolver = true;
  w = some false;
  s = empty;
  locked = false;
  addr_ch = some (record { buffer = some []; closed = false });
  wait_ch = false;
  done = false;
}

-- The map is visited in the order in which it was filled.
abbrev as_filled : Selector Base
as_filled = random (λ d. d)

run-start :
    run as_filled (new_balancer empty true none) (starts (ok tt) ∷ [])
    ≡ record watching { addr_ch = some (record { buffer = none; closed = false }) }
unfolding run start
run-start = refl

abbrev calls : List (Call Base)
calls = starts (ok tt) ∷ watches (ok news) ∷ takes ∷ closes ∷ gets 3 false ∷ []

run-new_balancer-IsSound_example : IsSound (run as_filled (new_balancer empty true none) calls)
run-new_balancer-IsSound_example = run-new_balancer-IsSound as_filled empty true none calls

abbrev fed : Balancer Base
fed = record watching { s = History.run empty (resets (map to_address news) ∷ []) }

get-random-Stuck_example :
    Stuck as_filled (run as_filled (get as_filled fed 4 false).0 (watches (ok news) ∷ closes ∷ []))
get-random-Stuck_example =
    get-random-Stuck (λ d. d) fed (resets (map to_address news) ∷ []) 4 false
      (watches (ok news) ∷ closes ∷ []) refl refl refl

abbrev turning : Balancer RoundRobin
turning = record {
  has_resolver = true;
  w = none;
  s = record { base = reset empty (map to_address news); next = 0 };
  locked = false;
  addr_ch = none;
  wait_ch = false;
  done = false;
}
