-- ===== src/Discovery/Tests.antt =====
-- Two endpoints on their way to the reader of `Notify`.
use mathlib.Core.List.{reverse}
use mathlib.Core.List.{Permᴰ}
use mathlib.Core.List.Permᴰ as PermD
use byterpc.Common.{◌≡◌, refl, true, false, List, [], ◌∷◌, map, none, some, Text, codes, Dict, ok}
use byterpc.Selector.Base.{Address, Base, Visit, empty, fields}
use byterpc.Selector.Interface.{random}
use byterpc.Service.{Endpoint, zero_endpoint, endpoint_data}
use byterpc.Resolver.{new_service_watcher, pairs, next}
use byterpc.Balancer.{Balancer, returns, watch_addr_updates, take_list}
use byterpc.Discovery.{address_of, notified, notified_nameless}

abbrev watching : Balancer Base
watching = record {
  has_resolver = true;
  w = some false;
  s = empty;
  locked = false;
  addr_ch = some (record { buffer = none; closed = false });
  wait_ch = false;
  done = false;
}

-- A value that is the address itself, and one that is the metadata.
abbrev named : Text → Endpoint
named t = record { psm = []; address = t; service_name = []; path = []; meta_data = [] }

abbrev bare_value : Dict Text Text → Text
bare_value d = codes "{}"

-- The last entry is visited first.
abbrev backwards : Visit
backwards = reverse

notified_nameless_example :
    let answer =
      (next
        (λ t. ok zero_endpoint)
        (new_service_watcher [])
        none
        (pairs
          (map (endpoint_data bare_value) (named (codes "h:1") ∷ named (codes "h:2") ∷ [])))).1 in
    (take_list (watch_addr_updates (random backwards) watching answer).0).1
    ≡ returns (record { addr = []; metadata = fields [] } ∷ [])
notified_nameless_example =
    notified_nameless (λ t. ok zero_endpoint) backwards PermD.reverse bare_value
      (new_service_watcher []) watching (named (codes "h:1")) (named (codes "h:2") ∷ [])
      (refl, (refl, tt)) (refl, refl) (λ e. cc) refl refl

notified_example :
    let es = named (codes "h:1") ∷ named (codes "h:2") ∷ [] in
    let answer =
      (next
        (λ t. ok (named t))
        (new_service_watcher [])
        none
        (pairs (map (λ e. e.address) es))).1 in
    (l : List Address) × (Permᴰ l (map address_of es)
      × ((take_list (watch_addr_updates (random backwards) watching answer).0).1 ≡ returns l))
notified_example =
    notified (λ t. ok (named t)) backwards PermD.reverse (new_service_watcher []) watching
      (λ e. e.address) (named (codes "h:1") ∷ named (codes "h:2") ∷ []) (refl, (refl, tt))
      ((refl, tt), (tt, tt)) (refl, refl) (λ e. cc) refl refl
