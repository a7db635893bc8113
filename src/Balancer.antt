-- ===== src/Balancer.antt =====
-- balancer.go: the balancer's fields, its mutex included, and one function for each method. The
-- selector is the interface of Selector/Interface.antt; what the resolver and the watcher answer is
-- an argument.
pub mod Calls
pub mod Channel
pub mod Locking
mod Tests
use byterpc.Common.{
  ℕ, ◌≡◌, Bool, true, false, ◌&&◌, List, [], ◌∷◌, map, Option, none, some, if◌then◌else◌, Text,
  Error, client_conn_closing, Result, ok, err, panic, length, ◌==◌,
}
use byterpc.Naming.{Update}
use byterpc.Selector.Base.{Address}
use byterpc.Selector.Interface.{Selector}

-- `addrCh`, a channel with room for one list.
pub record Chan : Type 0 where
  pub buffer : Option (List Address)
  pub closed : Bool

-- `w` is the watcher, if one is set: whether it has been closed. `wait_ch` says whether `waitCh` is
-- set.
pub record Balancer (S : Type 0) : Type 0 where
  pub has_resolver : Bool
  pub w : Option Bool
  pub s : S
  pub locked : Bool
  pub addr_ch : Option Chan
  pub wait_ch : Bool
  pub done : Bool

-- How a method call ends. `blocks` waits for the mutex, and `spins` goes on for ever with the mutex
-- held, unless the selector's list changes.
pub data Outcome (A : Type 0) : Type 0 where
  returns : A → Outcome A
  fails : Error → Outcome A
  blocks spins panics : Outcome A

abbrev pub Step : Type 0 → Type 0 → Type 0
Step S A = Balancer S × Outcome A

abbrev pub to_address : Update → Address
to_address u = record { addr = u.addr; metadata = u.metadata }

module _ {S : Type 0} where
  abbrev pub selector_or : S → Option S → S
  selector_or default_selector none = default_selector
  selector_or default_selector (some s) = s

  -- `NewBalancer`: a nil selector becomes `DefaultSelector`, as it stands then; the balancers that
  -- are made so share it.
  abbrev pub new_balancer : S → Bool → Option S → Balancer S
  new_balancer default_selector has_resolver s = record {
    has_resolver = has_resolver;
    w = none;
    s = selector_or default_selector s;
    locked = false;
    addr_ch = none;
    wait_ch = false;
    done = false;
  }

  -- `b.mu.Lock()` before the rest of a method.
  abbrev pub with_lock : {A : Type 0} → Balancer S → Step S A → Step S A
  with_lock b rest = if b.locked then (b, blocks) else rest

  -- `Start`, with the answer of `Resolve`.
  unfoldable pub start : Balancer S → Result (Unit {0}) → Step S (Unit {0})
  start b resolved = with_lock b (
      if b.done
      then (b, fails client_conn_closing)
      else if b.has_resolver
      then elim resolved [
        | ok _ ↦ (
          record b { w = some false; addr_ch = some (record { buffer = none; closed = false }) },
          returns tt,
        )
        | err e ↦ (b, fails e)
        | panic ↦ (b, panics)
      ]
      else (b, returns tt))

  -- `b.addrCh <- list` after the old list has been taken out. A send on a nil channel waits for
  -- ever with the mutex held.
  abbrev pub send_list : Balancer S → Option Chan → List Address → Step S (Unit {0})
  send_list b none list = (record b { locked = true }, spins)
  send_list b (some c) list =
      if c.closed
      then (b, panics)
      else (record b { addr_ch = some (record { buffer = some list; closed = false }) }, returns tt)

module _ {S : Type 0} (ops : Selector S) where
  abbrev pub watch_next : Balancer S → Result (List Update) → Step S (Unit {0})
  watch_next b (err e) = (b, fails e)
  watch_next b panic = (b, panics)
  watch_next b (ok updates) = with_lock b (
      let s' = ops.reset b.s (map to_address updates) in
      let b' = record b { s = s' } in
      if b.done then (b', fails client_conn_closing) else send_list b' b.addr_ch (ops.addr_list s'))

  -- `watchAddrUpdates`, with the answer of the watcher's `Next`; a nil watcher is a nil call.
  unfoldable pub watch_addr_updates : Balancer S → Result (List Update) → Step S (Unit {0})
  watch_addr_updates b next = elim b.w [ none ↦ (b, panics) | some _ ↦ watch_next b next ]

  -- What `Get` does with the answer of `Select`: the mutex is released only where it is an address.
  abbrev pub finish_get : Balancer S → Option (S × Result Address) → Step S Address
  finish_get b none = (record b { locked = true }, spins)
  finish_get b (some (s', ok a)) = (record b { s = s' }, returns a)
  finish_get b (some (s', err e)) = (record b { s = s'; locked = true }, fails e)
  finish_get b (some (s', panic)) = (record b { s = s'; locked = true }, panics)

  -- `Get`, with the random number that its `Select` will draw.
  unfoldable pub get : Balancer S → ℕ → Bool → Step S Address
  get b n blocking_wait = with_lock b (
      if b.done
      then (b, fails client_conn_closing)
      else if blocking_wait && (length (ops.addr_list b.s) == 0)
      then (record b { locked = true }, spins)
      else finish_get b (ops.select n b.s))

  -- The `put` that `Get` returns takes no lock.
  unfoldable pub put : Balancer S → Address → Step S (Unit {0})
  put b a = (record b { s = ops.put b.s a.addr }, returns tt)

module _ {S : Type 0} where
  -- The reader of `Notify` takes the list out.
  unfoldable pub take_list : Balancer S → Step S (List Address)
  take_list b = elim b.addr_ch [
    | none ↦ (b, blocks)
    | some c ↦ elim c.buffer [
      | some list ↦ (record b { addr_ch = some (record c { buffer = none }) }, returns list)
      | none ↦ if c.closed then (b, returns []) else (b, blocks)
    ]
  ]

  abbrev pub close_chan : Balancer S → Option Chan → Step S (Unit {0})
  close_chan b none = (b, returns tt)
  close_chan b (some c) =
      if c.closed
      then (b, panics)
      else (record b { addr_ch = some (record c { closed = true }) }, returns tt)

  -- `w.Close()`: `ServiceWatcher.Close` closes `stopCh`, which panics the second time.
  abbrev pub close_watcher : Balancer S → Option Bool → Step S (Unit {0})
  close_watcher b none = close_chan (record b { wait_ch = false }) b.addr_ch
  close_watcher b (some true) = (b, panics)
  close_watcher b (some false) = close_chan (record b { w = some true; wait_ch = false }) b.addr_ch

  -- `Close`: closing a closed channel panics. `defer` releases the mutex then too.
  unfoldable pub close : Balancer S → Step S (Unit {0})
  close b = with_lock b (close_watcher (record b { done = true }) b.w)
