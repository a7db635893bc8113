-- ===== src/Server/Registration.antt =====
-- `register`, `RegisterService`, `RegisterServiceWithName` and `endpointOf` of server.go.
use byterpc.Common.{
  Bool, true, false, ◌&&◌, not, List, [], ◌++◌, Option, none, some, if◌then◌else◌, ◌==◌, length,
  Text, codes, Dict, lookup, insert, text_eq, same, invalid_service_name, method_must_be_exported,
  service_already_defined, Result, ok, err, panic,
}
use byterpc.Utils.{trim}
use byterpc.Plugin.Server.{do_register_service}
use byterpc.Service.{Endpoint, Service, Method, ReflectMethod, register_methods}
use byterpc.Server.{Server}

-- `endpointOf`
unfoldable pub endpoint_of : Server → Service → Endpoint
endpoint_of s svc = record {
  psm = s.psm;
  address = s.address;
  service_name = svc.name;
  path = codes "/" ++ (s.psm ++ (codes "/" ++ (svc.name ++ (codes "/" ++ s.address))));
  meta_data = [];
}

-- `LoadOrStore` and the plugins, whose error is ignored.
abbrev pub store_service : Server → Text → Service → Option Service → Server × Result (Unit {0})
store_service s s_name svc (some old) = (s, err service_already_defined)
store_service s s_name svc none =
    let s' = record s { service_map = insert s_name svc s.service_map } in
    elim (do_register_service s.plugin_manager).1 [
      | ok _ ↦ (s', ok tt)
      | err e ↦ (s', ok tt)
      | panic ↦ (s', panic)
    ]

abbrev pub with_methods : Server → Text → Result (Dict Text Method) → Server × Result (Unit {0})
with_methods s s_name (ok methods) =
    store_service s s_name (record { name = trim s_name; methods = methods })
      (lookup s_name s.service_map)
with_methods s s_name (err e) = (s, err e)
with_methods s s_name panic = (s, panic)

module _ (is_exported : Text → Bool) where
  -- `register` on the name and the methods of the receiver's type.
  unfoldable pub register :
      Server → Text → List ReflectMethod → Text → Bool → Server × Result (Unit {0})
  register s type_name methods alias use_alias =
      let s_name = if use_alias then alias else type_name in
      if same s_name []
      then (s, err invalid_service_name)
      else if not (is_exported s_name) && not use_alias
      then (s, err method_must_be_exported)
      else with_methods s s_name (register_methods is_exported false methods)

  unfoldable pub register_service : Server → Text → List ReflectMethod → Server × Result (Unit {0})
  unfolding register
  register_service s type_name methods = register s type_name methods [] false

  unfoldable pub register_service_with_name :
      Server → Text → List ReflectMethod → Text → Server × Result (Unit {0})
  unfolding register
  register_service_with_name s type_name methods name =
      if length name == 0
      then (s, err invalid_service_name)
      else register s type_name methods name true
