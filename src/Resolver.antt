-- ===== src/Resolver.antt =====
-- resolver_etcd.go, resolver_zk.go and watcher.go. The two resolvers differ in the store that they
-- open. json.Unmarshal into an endpoint, and what the store sends, are arguments.
pub mod Keys
mod Tests
use byterpc.Common.{
  ℕ, ◌==◌, Bool, true, false, List, [], ◌∷◌, ◌++◌, Option, none, some, if◌then◌else◌, length, Text,
  codes, Error, no_target_provided, Result, ok, err, panic,
}
use byterpc.Utils.{transform_invoke_point_to_path}
use byterpc.Naming.{Update}
use byterpc.Selector.Base.{Metadata, fields}
use byterpc.Service.{Endpoint}

abbrev pub service_root_path : Text
service_root_path = codes "/byterpc/services"

-- `watching` says whether there is an address channel, `stopped` whether `stopCh` is closed.
pub record ServiceWatcher : Type 0 where
  pub key : Text
  pub updates : List Update
  pub watching : Bool
  pub stopped : Bool

unfoldable pub new_service_watcher : Text → ServiceWatcher
new_service_watcher key = record {
  key = service_root_path ++ key;
  updates = [];
  watching = false;
  stopped = false;
}

-- `Close`: the second one closes a closed channel.
unfoldable pub close : ServiceWatcher → ServiceWatcher × Result (Unit {0})
close w = if w.stopped then (w, panic) else (record w { stopped = true }, ok tt)

-- What the `select` of `Next` receives: the stop, or the values of a change.
pub data Received : Type 0 where
  stop : Received
  pairs : List Text → Received

module _ (unmarshal : Text → Result Endpoint) where
  unfoldable pub extract_updates : List Text → List Update
  extract_updates [] = []
  extract_updates (v ∷ vs) =
      let rest = extract_updates vs in
      elim (unmarshal v) [
        | ok e ↦ record { addr = e.address; metadata = fields e.meta_data } ∷ rest
        | err x ↦ rest
        | panic ↦ rest
      ]

  abbrev pub receive : ServiceWatcher → Received → ServiceWatcher × Result (List Update)
  receive w stop = (w, ok [])
  receive w (pairs vs) = (record w { updates = extract_updates vs }, ok (extract_updates vs))

  -- `Next`, with the answer of `WatchTree`.
  unfoldable pub next :
      ServiceWatcher → Option Error → Received → ServiceWatcher × Result (List Update)
  unfolding extract_updates
  next w answer x =
      if w.watching
      then receive w x
      else elim answer [ some e ↦ (w, err e) | none ↦ receive (record w { watching = true }) x ]

abbrev pub watcher_at : Result Text → Result ServiceWatcher
watcher_at (ok key) = ok (new_service_watcher key)
watcher_at (err e) = err e
watcher_at panic = panic

-- `ETCDResolver.Resolve`, with the error of opening the store.
unfoldable pub resolve : Text → Option Error → Result ServiceWatcher
unfolding new_service_watcher
resolve target opened =
    if length target == 0
    then err no_target_provided
    else elim opened [ some e ↦ err e | none ↦ watcher_at (transform_invoke_point_to_path target) ]

-- `ZKResolver.Resolve`
unfoldable pub resolve_zk : Text → Option Error → Result ServiceWatcher
unfolding new_service_watcher
resolve_zk target opened =
    if length target == 0
    then err no_target_provided
    else elim opened [ some e ↦ err e | none ↦ watcher_at (transform_invoke_point_to_path target) ]
