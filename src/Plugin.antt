-- ===== src/Plugin.antt =====
-- plugin.go: the plugins, the map that a manager keeps of them, and the hooks of the two managers.
-- A plugin answers a hook with an error or none; that it may also change the request or the
-- response behind the pointer is not modelled.
pub mod Server
pub mod Client
pub mod Hooks
pub mod Reports
pub mod History
mod Tests
use byterpc.Common.{
  ℕ, ◌≡◌, Bool, true, false, List, [], ◌∷◌, ◌++◌, Option, none, some, if◌then◌else◌, Text, codes,
  Dict, lookup, insert, erase, text_eq, nat_eq, Error, message, unsupported_operation, Result, ok,
  err, panic,
}
use byterpc.Utils.{error_text, wrap_array_errs}

-- `type PluginType uint8`, counted from 1.
abbrev pub PluginType : Type 0
PluginType = ℕ

abbrev pub server_rw_plugin_type : PluginType
server_rw_plugin_type = 1

abbrev pub server_conn_plugin_type : PluginType
server_conn_plugin_type = 2

abbrev pub service_registration_plugin_type : PluginType
service_registration_plugin_type = 3

abbrev pub client_rw_plugin_type : PluginType
client_rw_plugin_type = 4

abbrev pub client_monitor_plugin_type : PluginType
client_monitor_plugin_type = 5

abbrev pub server_monitor_plugin_type : PluginType
server_monitor_plugin_type = 6

-- The methods of a plugin that take a request, a response or an endpoint.
pub data Hook : Type 0 where
  pre_write_request post_write_request pre_read_response post_read_response : Hook
  pre_read_request post_read_request pre_write_response post_write_response : Hook
  handle_conn_close register_service : Hook

-- A connection is known by a number. `implements` says which of the plugin interfaces the Go type
-- has, which a type assertion tests.
pub record Plugin : Type 0 where
  pub name : Text
  pub type : PluginType
  pub is_disabled : Bool
  pub implements : PluginType → Bool
  pub answer : Hook → Option Error
  pub handle_conn_accept : ℕ → Result ℕ

-- The outer map is nil in a new manager; a nil map reads as an empty one. An inner map may be nil.
pub record Manager : Type 0 where
  pub plugins : Dict PluginType (Option (Dict Text Plugin))

-- `newServerPluginManager` and `newClientPluginManager`.
abbrev pub new_manager : Manager
new_manager = record { plugins = [] }

-- `typMap, ok := pm.plugins[t]`
abbrev pub type_map : Manager → PluginType → Option (Option (Dict Text Plugin))
type_map pm t = lookup t pm.plugins

abbrev pub set_type_map : Manager → PluginType → Dict Text Plugin → Manager
set_type_map pm t d = record { plugins = insert t (some d) pm.plugins }

-- `Add`: where the inner map is nil, the new one is not stored.
unfoldable pub add : Manager → Plugin → Manager
add pm p = elim (type_map pm p.type) [
  | none ↦ pm
  | some none ↦ pm
  | some (some d) ↦ set_type_map pm p.type (insert p.name p d)
]

unfoldable pub remove : Manager → Plugin → Manager
remove pm p = elim (type_map pm p.type) [
  | none ↦ pm
  | some none ↦ pm
  | some (some d) ↦ elim (lookup p.name d) [
    | none ↦ pm
    | some q ↦ set_type_map pm p.type (erase q.name d)
  ]
]

abbrev pub not_found : Error
not_found = message (codes "not found plugin, please add it first")

abbrev pub set_disable : Bool → Plugin → Plugin
set_disable disable p = record p { is_disabled = disable }

-- `Disable` and `Enable`, which differ in the flag only.
unfoldable pub set_disabled : Bool → Manager → Plugin → Manager × Result (Unit {0})
set_disabled flag pm p = elim (type_map pm p.type) [
  | none ↦ (pm, ok tt)
  | some none ↦ (pm, err not_found)
  | some (some d) ↦ elim (lookup p.name d) [
    | none ↦ (pm, err not_found)
    | some q ↦ (set_type_map pm p.type (insert p.name (set_disable flag q) d), ok tt)
  ]
]

abbrev pub disable : Manager → Plugin → Manager × Result (Unit {0})
disable = set_disabled true

abbrev pub enable : Manager → Plugin → Manager × Result (Unit {0})
enable = set_disabled false

-- The loop of such a hook over the plugins of a type: every plugin is called, and the errors collected.
abbrev pub add_error : Option Error → List Error → List Error
add_error none es = es
add_error (some e) es = e ∷ es

abbrev pub map_result {ℓ κ} : {A : Type ℓ} {B : Type κ} → (A → B) → Result A → Result B
map_result f (ok a) = ok (f a)
map_result f (err e) = err e
map_result f panic = panic

unfoldable pub collect : PluginType → Hook → Dict Text Plugin → Result (List Error)
collect t h [] = ok []
collect t h ((n, p) ∷ d) =
    let rest = collect t h d in
    if p.implements t then map_result (add_error (p.answer h)) rest else panic

-- `errors.New(prefix + WrapArrayErrs(errs).Error())`, which would panic on a nil error.
abbrev pub with_prefix : Text → Option Error → Result (Unit {0})
with_prefix prefix none = panic
with_prefix prefix (some e) = err (message (prefix ++ error_text e))

abbrev pub report : Text → List Error → Result (Unit {0})
report prefix [] = ok tt
report prefix (e ∷ es) = with_prefix prefix (wrap_array_errs (e ∷ es))

abbrev pub report_all : Text → Result (List Error) → Result (Unit {0})
report_all prefix (ok es) = report prefix es
report_all prefix (err e) = err e
report_all prefix panic = panic

abbrev pub entries : Option (Option (Dict Text Plugin)) → Dict Text Plugin
entries none = []
entries (some none) = []
entries (some (some d)) = d

-- The body of the hooks of both managers, but for `HandleConnAccept` and `RegisterService`, whose
-- loops stand in Server.
unfoldable pub run_hook : PluginType → Hook → Text → Manager → Result (Unit {0})
unfolding collect
run_hook t h prefix pm = report_all prefix (collect t h (entries (type_map pm t)))
