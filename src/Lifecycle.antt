-- ===== src/Lifecycle.antt =====
-- lifecycle.go: the done channel and the callbacks. A callback is known by a number, and the log is
-- what the calls have run so far.
pub mod Once
mod Tests
use byterpc.Common.{ℕ, Bool, true, false, List, [], ◌∷◌, ◌++◌, map, if◌then◌else◌}

pub data Ran : Type 0 where
  started : ℕ → Ran
  stopped : ℕ → Ran

pub record Lifecycle : Type 0 where
  pub done_closed : Bool
  pub on_start_callbacks : List ℕ
  pub on_stop_callbacks : List ℕ
  pub log : List Ran

abbrev pub new_lifecycle_ctl : Lifecycle
new_lifecycle_ctl = record {
  done_closed = false;
  on_start_callbacks = [];
  on_stop_callbacks = [];
  log = [];
}

unfoldable pub notify_start : Lifecycle → Lifecycle
notify_start c = record c { log = c.log ++ map started c.on_start_callbacks }

unfoldable pub notify_stop : Lifecycle → Lifecycle
notify_stop c = record c { log = c.log ++ map stopped c.on_stop_callbacks }

unfoldable pub start : Lifecycle → Lifecycle
unfolding notify_start
start c = notify_start c

-- `Stop`: the receive succeeds on a closed channel only, since nothing is sent on it.
unfoldable pub stop : Lifecycle → Lifecycle
unfolding notify_stop
stop c = if c.done_closed then c else record (notify_stop c) { done_closed = true }

unfoldable pub on_start : Lifecycle → ℕ → Lifecycle
on_start c l = record c { on_start_callbacks = c.on_start_callbacks ++ (l ∷ []) }

unfoldable pub on_stop : Lifecycle → ℕ → Lifecycle
on_stop c l = record c { on_stop_callbacks = c.on_stop_callbacks ++ (l ∷ []) }
