-- ===== src/Resolver/Tests.antt =====
-- A service of a server and the resolver of its invoke point.
use byterpc.Common.{◌≡◌, refl, true, [], ◌∷◌, ◌++◌, none, Text, codes, Result, ok}
use byterpc.Plugin.{new_manager}
use byterpc.Service.{Service, Endpoint}
use byterpc.Server.{Server}
use byterpc.Server.Registration.{endpoint_of}
use byterpc.Registry.{has_prefix, root_path_of}
use byterpc.Selector.Base.{fields}
use byterpc.Resolver.{ServiceWatcher, resolve, next, new_service_watcher, pairs}
use byterpc.Resolver.Keys.{resolve-endpoint_of}

abbrev shop : Server
shop = record {
  service_map = [];
  plugin_manager = new_manager;
  psm = codes "p.s.m";
  address = codes "h:1";
}

abbrev arith_service : Service
arith_service = record { name = codes "Arith"; methods = [] }

etcd_root : root_path_of (codes "etcd") ≡ ok (codes "/byterpc/services")
unfolding root_path_of
etcd_root = refl

abbrev at_h1 : Text → Result Endpoint
at_h1 t =
    ok (record { psm = []; address = codes "h:1"; service_name = []; path = []; meta_data = [] })

one_change :
    (next at_h1 (new_service_watcher []) none (pairs ([] ∷ []))).1
    ≡ ok (record { addr = codes "h:1"; metadata = fields [] } ∷ [])
unfolding next new_service_watcher
one_change = refl

resolve-endpoint_of_example :
    (w : ServiceWatcher) × (resolve (codes "p.s.m:Arith.Multiply") none ≡ ok w)
    × (has_prefix (codes "/byterpc/services" ++ (endpoint_of shop arith_service).path) w.key ≡ true)
resolve-endpoint_of_example =
    resolve-endpoint_of shop arith_service (codes "Multiply") (codes "/byterpc/services") refl refl
      refl etcd_root
