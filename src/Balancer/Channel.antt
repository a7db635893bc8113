-- ===== src/Balancer/Channel.antt =====
-- The channel of address lists of balancer.go and its watcher.
use byterpc.Common.{
  ℕ, ◌≡◌, ◌≢◌, Bool, true, false, List, [], ◌∷◌, map, Option, none, some, arith, Result, ok,
  client_conn_closing,
}
use byterpc.Naming.{Update}
use byterpc.Selector.Interface.{Selector}
use byterpc.Balancer.{
  Balancer, Chan, returns, fails, panics, to_address, new_balancer, start, watch_addr_updates, get,
  put, take_list, close,
}
use byterpc.Balancer.Calls.{Call, starts, watches, gets, puts, takes, closes, shares, step, run}

-- A watcher comes with a channel, and both are closed exactly when the balancer is.
abbrev pub Fits : Option Bool → Option Chan → Bool → Type 0
Fits none none d = Unit
Fits none (some c) d = ⊥
Fits (some shut) none d = ⊥
Fits (some shut) (some c) d = (shut ≡ d) × (c.closed ≡ d)

abbrev pub IsSound : {S : Type 0} → Balancer S → Type 0
IsSound b = Fits b.w b.addr_ch b.done

module _ {S : Type 0} where
  start-IsSound : (b : Balancer S) (r : Result (Unit {0})) → IsSound b → IsSound (start b r).0
  unfolding start
  start-IsSound b r v = ground arith

  take_list-IsSound : (b : Balancer S) → IsSound b → IsSound (take_list b).0
  unfolding take_list
  take_list-IsSound b v = ground arith

  close-IsSound : (b : Balancer S) → IsSound b → IsSound (close b).0
  unfolding close
  close-IsSound b v = ground arith

module _ {S : Type 0} (ops : Selector S) where
  watch-IsSound :
      (b : Balancer S) (r : Result (List Update))
      → IsSound b
      → IsSound (watch_addr_updates ops b r).0
  unfolding watch_addr_updates
  watch-IsSound b r v = ground arith

  get-IsSound : (b : Balancer S) (n : ℕ) (w : Bool) → IsSound b → IsSound (get ops b n w).0
  unfolding get
  get-IsSound b n w v = ground arith

  step-IsSound : (b : Balancer S) (c : Call S) → IsSound b → IsSound (step ops b c)
  unfolding step put
  step-IsSound b (starts r) v = start-IsSound b r v
  step-IsSound b (watches r) v = watch-IsSound b r v
  step-IsSound b (gets n w) v = get-IsSound b n w v
  step-IsSound b (puts a) v = v
  step-IsSound b takes v = take_list-IsSound b v
  step-IsSound b closes v = close-IsSound b v
  step-IsSound b (shares s) v = v

  run-IsSound : (b : Balancer S) (cs : List (Call S)) → IsSound b → IsSound (run ops b cs)
  unfolding run
  run-IsSound b [] v = v
  run-IsSound b (c ∷ cs) v = run-IsSound (step ops b c) cs (step-IsSound b c v)

  -- After any calls of the methods of a new balancer, with a selector of its own or the default one,
  -- whatever others do to that one meanwhile, a watcher comes with a channel, and both are closed
  -- exactly when the balancer is.
  pub run-new_balancer-IsSound :
      (default_selector : S) (has_resolver : Bool) (s : Option S) (cs : List (Call S))
      → IsSound (run ops (new_balancer default_selector has_resolver s) cs)
  run-new_balancer-IsSound default_selector has_resolver s cs = run-IsSound _ cs tt

  -- On an open balancer that watches, with its channel, and whose mutex is free, an update resets
  -- the selector and returns, and the reader of `Notify` then gets exactly the list of the reset
  -- selector, whether or not it had taken the list before.
  pub take_list-watch :
      (b : Balancer S) (us : List Update)
      → IsSound b
      → b.w ≢ none
      → b.locked ≡ false
      → b.done ≡ false
      → let s' = ops.reset b.s (map to_address us) in
        let (b', r) = watch_addr_updates ops b (ok us) in
        (r ≡ returns tt)
        × (b'.s ≡ s')
        × (b'.locked ≡ false)
        × ((take_list b').1 ≡ returns (ops.addr_list s'))
  unfolding watch_addr_updates take_list
  take_list-watch b us v w free open_yet = ground arith

  -- On a closed balancer `Start`, an update and `Get` report that it is closed, the update also
  -- resets the selector, and the channel stays as it is.
  pub done_refuses :
      (b : Balancer S) (r : Result (Unit {0})) (us : List Update) (n : ℕ) (wait : Bool)
      → b.w ≢ none
      → b.locked ≡ false
      → b.done ≡ true
      → (start b r ≡ (b, fails client_conn_closing))
        × (watch_addr_updates ops b (ok us)
            ≡ (record b { s = ops.reset b.s (map to_address us) }, fails client_conn_closing))
        × (get ops b n wait ≡ (b, fails client_conn_closing))
  unfolding start watch_addr_updates get
  done_refuses b r us n wait w free shut = ground arith

module _ {S : Type 0} where
  -- The first `Close` of an open balancer that has a watcher and whose mutex is free returns and
  -- marks it closed; the second one panics.
  pub close-close :
      (b : Balancer S)
      → IsSound b
      → b.w ≢ none
      → b.locked ≡ false
      → b.done ≡ false
      → ((close b).1 ≡ returns tt) × ((close b).0.done ≡ true) × ((close (close b).0).1 ≡ panics)
  unfolding close
  close-close b v w free open_yet = ground arith
