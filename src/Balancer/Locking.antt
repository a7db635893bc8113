-- ===== src/Balancer/Locking.antt =====
-- The mutex of the balancer and its `Get`.
use byterpc.Common.{
  ℕ, ◌≡◌, refl, ap, ◌≢◌, inl, inr, Bool, true, false, ◌&&◌, List, [], ◌∷◌, Option, none, some,
  arith, Result, ok, err, panic, Error, length, ◌==◌, Bool-cases,
}
use byterpc.Naming.{Update}
use byterpc.Selector.Base.{Address, Base, empty, Visit}
use byterpc.Selector.Interface.{Selector, random}
use byterpc.Selector.Random.History
use byterpc.Selector.Random.History.{Op, select-run_refused, IsRefusal}
use byterpc.Balancer.{
  Balancer, returns, blocks, start, watch_addr_updates, get, put, take_list, close, finish_get,
}
use byterpc.Balancer.Calls.{Call, starts, watches, gets, puts, takes, closes, shares, step, run}

module _ {S : Type 0} (ops : Selector S) where
  -- Nobody gets past the mutex any more: `Start`, an update, `Get` and `Close` wait for ever.
  abbrev pub Stuck : Balancer S → Type 0
  Stuck b =
      ((r : Result (Unit {0})) → start b r ≡ (b, blocks))
      × ((us : List Update) → b.w ≢ none → watch_addr_updates ops b (ok us) ≡ (b, blocks))
      × ((n : ℕ) (wait : Bool) → get ops b n wait ≡ (b, blocks))
      × (close b ≡ (b, blocks))

  locked-Stuck : (b : Balancer S) → b.locked ≡ true → Stuck b
  unfolding start watch_addr_updates get close
  locked-Stuck b h = (λ r. rw h refl, λ us w. ground arith, λ n wait. rw h refl, rw h refl)

  step-locked : (b : Balancer S) (c : Call S) → b.locked ≡ true → (step ops b c).locked ≡ true
  unfolding step start watch_addr_updates get put take_list close
  step-locked b (starts r) h = ground arith
  step-locked b (watches r) h = ground arith
  step-locked b (gets n w) h = ground arith
  step-locked b (puts a) h = h
  step-locked b takes h = ground arith
  step-locked b closes h = ground arith
  step-locked b (shares s) h = h

  run-locked :
      (b : Balancer S) (cs : List (Call S)) → b.locked ≡ true → (run ops b cs).locked ≡ true
  unfolding run
  run-locked b [] h = h
  run-locked b (c ∷ cs) h = run-locked (step ops b c) cs (step-locked b c h)

  get_error-locked :
      (b : Balancer S) (n : ℕ) (wait : Bool) (s' : S) (e : Error)
      → b.locked ≡ false
      → b.done ≡ false
      → ops.select n b.s ≡ some (s', err e)
      → (get ops b n wait).0.locked ≡ true
  unfolding get
  get_error-locked b n wait s' e free open_yet h = ground arith

  -- A `Get` on an open balancer with a free mutex, to which the selector answers with an error,
  -- never releases the mutex: after any further calls `Start`, an update, `Get` and `Close` wait
  -- for ever.
  pub get_error-Stuck :
      (b : Balancer S) (n : ℕ) (wait : Bool) (s' : S) (e : Error) (cs : List (Call S))
      → b.locked ≡ false
      → b.done ≡ false
      → ops.select n b.s ≡ some (s', err e)
      → Stuck (run ops (get ops b n wait).0 cs)
  get_error-Stuck b n wait s' e cs free open_yet h =
      locked-Stuck _ (run-locked _ cs (get_error-locked b n wait s' e free open_yet h))

  finish_get_returns :
      (b : Balancer S) (o : Option (S × Result Address)) (a : Address)
      → (finish_get ops b o).1 ≡ returns a
      → (s' : S) × (o ≡ some (s', ok a)) × ((finish_get ops b o).0 ≡ record b { s = s' })
  finish_get_returns b none a h = cc
  finish_get_returns b (some (s', ok x)) a h = (s', ground arith, refl)
  finish_get_returns b (some (s', err e)) a h = cc
  finish_get_returns b (some (s', panic)) a h = cc

  get_passed :
      (b : Balancer S) (n : ℕ) (wait : Bool) (a : Address)
      → b.locked ≡ false
      → (get ops b n wait).1 ≡ returns a
      → (get ops b n wait ≡ finish_get ops b (ops.select n b.s))
        × ((finish_get ops b (ops.select n b.s)).1 ≡ returns a)
  unfolding get
  get_passed b n wait a free h = elim (Bool-cases b.done) [
    | inl shut ↦ absurd (ground arith)
    | inr open_yet ↦ elim (Bool-cases (wait && (length (ops.addr_list b.s) == 0))) [
      | inl waits ↦ absurd (ground arith)
      | inr goes ↦
          let e : get ops b n wait ≡ finish_get ops b (ops.select n b.s) =
            rw (free, get) (rw open_yet (rw goes refl)) in
          (e, rw (← e) h)
    ]
  ]

  -- A `Get` that returns an address has released the mutex, and the address is the one that the
  -- selector chose.
  pub get_returns :
      (b : Balancer S) (n : ℕ) (wait : Bool) (a : Address)
      → b.locked ≡ false
      → (get ops b n wait).1 ≡ returns a
      → (s' : S) × (ops.select n b.s ≡ some (s', ok a))
        × ((get ops b n wait).0 ≡ record b { s = s' })
  unfolding get
  get_returns b n wait a free h =
      let (e, passed) = get_passed b n wait a free h in
      rw e (finish_get_returns b (ops.select n b.s) a passed)

-- A `Get` on an open balancer with the random selector and a free mutex, whatever history the
-- selector has, leaves the mutex locked for ever: after any further calls `Start`, an update, `Get`
-- and `Close` wait.
pub get-random-Stuck :
    (visit : Visit) (b : Balancer Base) (os : List Op) (n : ℕ) (wait : Bool) (cs : List (Call Base))
    → b.s ≡ History.run empty os
    → b.locked ≡ false
    → b.done ≡ false
    → Stuck (random visit) (run (random visit) (get (random visit) b n wait).0 cs)
get-random-Stuck visit b os n wait cs e free open_yet =
    let (x, refused, _) = select-run_refused os n in
    get_error-Stuck (random visit) b n wait (History.run empty os) x cs free open_yet
      (rw e (ap some refused))
