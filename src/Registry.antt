-- ===== src/Registry.antt =====
-- registry.go and registry_mem.go; etcdRegistry and zkRegistry pass every call on to a kvRegistry.
-- The key-value store is an argument, a record of its operations, and so are json.Marshal on
-- metadata and json.Unmarshal into an endpoint.
pub mod Memory
pub mod Listing
pub mod Settings
pub mod FrontEnds
pub mod Stored
pub mod Enrolled
mod Tests
use byterpc.Common.{
  ℕ, ◌==◌, Bool, true, false, ◌&&◌, ◌||◌, List, [], ◌∷◌, ◌++◌, Option, none, some, if◌then◌else◌,
  Text, codes, Dict, lookup, insert, erase, contains, text_eq, same, Error,
  unsupported_registration_type, Result, ok, err, panic,
}
use byterpc.Utils.{wrap_array_errs, transform_invoke_point_to_path}
use byterpc.Service.{Endpoint, endpoint_data}

-- `strings.Contains(s, t)`
abbrev pub has_prefix : Text → Text → Bool
has_prefix s [] = true
has_prefix [] (d ∷ t) = false
has_prefix (c ∷ s) (d ∷ t) = c == d && has_prefix s t

unfoldable pub has_text : Text → Text → Bool
has_text [] t = has_prefix [] t
has_text (c ∷ s) t = has_prefix (c ∷ s) t || has_text s t

-- `memoryRegistry`. `Destroy` leaves a nil map.
pub record MemoryRegistry : Type 0 where
  pub cache : Option (Dict Text Endpoint)

-- `NewMemoryRegistry`, and what `Init` and `DeRegisterAll` leave.
abbrev pub new_memory_registry : MemoryRegistry
new_memory_registry = record { cache = some [] }

unfoldable pub memory_init : MemoryRegistry → MemoryRegistry
memory_init r = record { cache = some [] }

unfoldable pub memory_destroy : MemoryRegistry → MemoryRegistry
memory_destroy r = record { cache = none }

-- A write to a nil map panics.
unfoldable pub memory_register : MemoryRegistry → Endpoint → MemoryRegistry × Result (Unit {0})
memory_register r s = elim r.cache [
  | none ↦ (r, panic)
  | some d ↦ (record { cache = some (insert s.path s d) }, ok tt)
]

unfoldable pub memory_de_register : MemoryRegistry → Endpoint → MemoryRegistry
memory_de_register r s = elim r.cache [
  | none ↦ r
  | some d ↦ record { cache = some (erase s.path d) }
]

unfoldable pub memory_de_register_all : MemoryRegistry → MemoryRegistry
memory_de_register_all r = record { cache = some [] }

unfoldable pub matching : Text → Dict Text Endpoint → List Endpoint
unfolding has_text
matching invoke_point [] = []
matching invoke_point ((k, v) ∷ d) =
    let rest = matching invoke_point d in if has_text v.path invoke_point then v ∷ rest else rest

unfoldable pub memory_list_services : MemoryRegistry → Text → List Endpoint
unfolding matching
memory_list_services r invoke_point = elim r.cache [ none ↦ [] | some d ↦ matching invoke_point d ]

-- What kvRegistry uses of `store.Store`; the state is that of the store.
pub record Store (S : Type 0) : Type 0 where
  pub exists : S → Text → Result Bool
  pub put : S → Text → Text → S × Option Error
  pub delete : S → Text → S × Option Error
  pub list : S → Text → Result (List Text)

pub record KvRegistry (S : Type 0) : Type 0 where
  pub store_engine : S
  pub services_cache : Dict Text Endpoint
  pub root_path : Text

-- The root path that `Init` chooses.
unfoldable pub root_path_of : Text → Result Text
root_path_of registry_type =
    if same registry_type (codes "etcd")
    then ok (codes "/byterpc/services")
    else if same registry_type (codes "consul") || same registry_type (codes "zookeeper")
    then ok (codes "byterpc/services")
    else err unsupported_registration_type

module _ {S : Type 0} (ops : Store S) (marshal : Dict Text Text → Text)
    (unmarshal : Text → Result Endpoint) where
  -- `Init`, with the store that `libkv.NewStore` returns. With an error it returns no store, and the
  -- old one that is kept here is not to be used.
  unfoldable pub kv_init : KvRegistry S → Text → Result S → KvRegistry S × Option Error
  kv_init r registry_type opened = elim (root_path_of registry_type) [
    | ok root ↦ elim opened [
      | ok s ↦ (record { store_engine = s; services_cache = []; root_path = root }, none)
      | err e ↦ (record r { root_path = root }, some e)
      | panic ↦ (r, none)
    ]
    | err e ↦ (r, some e)
    | panic ↦ (r, none)
  ]

  abbrev pub put_service : KvRegistry S → Endpoint → Result Bool → KvRegistry S × Result (Unit {0})
  put_service r e (ok found) =
      let full_path = r.root_path ++ e.path in
      let (s, failed) = ops.put r.store_engine full_path (endpoint_data marshal e) in
      (
        record r { store_engine = s; services_cache = insert full_path e r.services_cache },
        elim failed [ none ↦ ok tt | some x ↦ err x ],
      )
  put_service r e (err x) = (r, err x)
  put_service r e panic = (r, panic)

  unfoldable pub kv_register : KvRegistry S → Endpoint → KvRegistry S × Result (Unit {0})
  kv_register r e = put_service r e (ops.exists r.store_engine (r.root_path ++ e.path))

  unfoldable pub kv_de_register : KvRegistry S → Endpoint → KvRegistry S × Option Error
  kv_de_register r e =
      let full_path = r.root_path ++ e.path in
      if contains full_path r.services_cache
      then (
        record r { store_engine = (ops.delete r.store_engine full_path).0 },
        (ops.delete r.store_engine full_path).1,
      )
      else (r, none)

  -- The loop of `DeRegisterAll`: the store after it, and the errors.
  abbrev pub add_failure : Option Error → List Error → List Error
  add_failure none es = es
  add_failure (some e) es = e ∷ es

  unfoldable pub delete_all : S → Dict Text Endpoint → S × List Error
  delete_all s [] = (s, [])
  delete_all s ((path, e) ∷ d) =
      let (s', failed) = ops.delete s path in
      let (s'', es) = delete_all s' d in (s'', add_failure failed es)

  unfoldable pub kv_de_register_all : KvRegistry S → KvRegistry S × Option Error
  unfolding delete_all
  kv_de_register_all r =
      let (s, es) = delete_all r.store_engine r.services_cache in
      (record r { store_engine = s }, wrap_array_errs es)

  -- A value that cannot be unmarshalled is skipped.
  unfoldable pub endpoints_in : List Text → List Endpoint
  endpoints_in [] = []
  endpoints_in (v ∷ vs) =
      let rest = endpoints_in vs in
      elim (unmarshal v) [ ok e ↦ e ∷ rest | err x ↦ rest | panic ↦ rest ]

  abbrev pub listed : Result (List Text) → List Endpoint
  listed (ok vs) = endpoints_in vs
  listed (err e) = []
  listed panic = []

  abbrev pub list_under : KvRegistry S → Result Text → List Endpoint
  list_under r (ok path) = listed (ops.list r.store_engine (r.root_path ++ path))
  list_under r (err e) = []
  list_under r panic = []

  unfoldable pub kv_list_services : KvRegistry S → Text → List Endpoint
  unfolding endpoints_in
  kv_list_services r invoke_point = list_under r (transform_invoke_point_to_path invoke_point)
