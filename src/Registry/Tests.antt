-- ===== src/Registry/Tests.antt =====
-- A registry in memory, and one over a store that is a dictionary.
use byterpc.Common.{
  ◌≡◌, ◌≢◌, refl, true, false, lookup, lookup-insert, lookup-erase, same_iff, arith, List, [], ◌∷◌,
  ◌++◌, Option, none, some, if◌then◌else◌, Text, codes, Dict, insert, erase, contains, text_eq,
  message, Result, ok,
}
use byterpc.Utils.{transform_invoke_point_to_path, error_text, wrap_array_errs, error_lines, split}
use byterpc.Service.{Endpoint, zero_endpoint}
use byterpc.Registry.{
  Store, KvRegistry, kv_register, kv_de_register, kv_de_register_all, memory_list_services,
  new_memory_registry, memory_register, has_prefix,
}
use byterpc.Registry.Memory.{registers, run, cached, last, cached-run}
use byterpc.Registry.Stored
use byterpc.Registry.Stored.{Laws, has, holds, kv_de_register-twice}
use byterpc.Registry.Enrolled
use byterpc.Registry.Enrolled.{holds-enrolled}
use byterpc.Registry.FrontEnds.{etcd_registry, zk_registry, new_etcd_registry, new_zk_registry}

abbrev arith_endpoint : Endpoint
arith_endpoint = record {
  psm = codes "p.s.m";
  address = codes "h:1";
  service_name = codes "Arith";
  path = codes "/p.s.m/Arith/h:1";
  meta_data = [];
}

-- The invoke point of a service is no part of its path.
not_listed :
    memory_list_services
      (memory_register new_memory_registry arith_endpoint).0
      (codes "p.s.m:Arith.Multiply")
    ≡ []
unfolding memory_list_services memory_register
not_listed = refl

cached-run_example :
    cached (codes "/p.s.m/Arith/h:1") (run new_memory_registry (registers arith_endpoint ∷ []))
    ≡ last (codes "/p.s.m/Arith/h:1") none (registers arith_endpoint ∷ [])
cached-run_example = cached-run (codes "/p.s.m/Arith/h:1") (registers arith_endpoint ∷ [])

abbrev values_under : Text → Dict Text Text → List Text
values_under k [] = []
values_under k ((j, v) ∷ d) =
    let rest = values_under k d in if has_prefix j k then v ∷ rest else rest

-- Deleting a missing key is an error.
abbrev dict_store : Store (Dict Text Text)
dict_store = record {
  exists = λ s k. ok (contains k s);
  put = λ s k v. (insert k v s, none);
  delete = λ s k.
      if contains k s then (erase k s, none) else (s, some (message (codes "key not found")));
  list = λ s k. ok (values_under k s);
}

abbrev marshal : Dict Text Text → Text
marshal d = codes "{}"

abbrev unmarshal : Text → Result Endpoint
unmarshal t = ok zero_endpoint

abbrev empty_registry : KvRegistry (Dict Text Text)
empty_registry = record {
  store_engine = [];
  services_cache = [];
  root_path = codes "/byterpc/services";
}

abbrev one_service : KvRegistry (Dict Text Text)
one_service = record {
  store_engine = (codes "/byterpc/services/p.s.m/Arith/h:1", codes "{}") ∷ [];
  services_cache = (codes "/byterpc/services/p.s.m/Arith/h:1", arith_endpoint) ∷ [];
  root_path = codes "/byterpc/services";
}

registered :
    kv_register dict_store marshal unmarshal empty_registry arith_endpoint ≡ (one_service, ok tt)
unfolding kv_register
registered = refl

-- The cache keeps a service that was taken out, so that taking out all of them fails.
taken_out_twice :
    (kv_de_register_all dict_store marshal unmarshal
      (kv_de_register dict_store marshal unmarshal one_service arith_endpoint).0).1
    ≡ some (message (codes "key not found" ++ (10 ∷ [])))
unfolding kv_de_register_all kv_de_register error_text wrap_array_errs error_lines
taken_out_twice = refl

has_path : transform_invoke_point_to_path (codes "p.s.m:Arith.Multiply") ≡ ok (codes "/p.s.m/Arith")
unfolding transform_invoke_point_to_path split
has_path = refl

abbrev value_of : Dict Text Text → Text → Option Text
value_of s k = lookup k s

dict_store-Laws : Laws dict_store value_of
dict_store-Laws = record {
  exists_lem = λ s k. refl_case s k;
  put-get = λ s k v j. lookup-insert j k v s;
  put_ok = λ s k v. refl;
  delete-get = λ s k j. ground (arith, lookup-erase j k s, same_iff j k);
}
  where
    refl_case : (s : Dict Text Text) (k : Text) → ok (contains k s) ≡ ok (has (lookup k s))
    refl_case s k = ground arith

abbrev other_endpoint : Endpoint
other_endpoint = record arith_endpoint { path = codes "/p.s.m/Other/h:1" }

-- The other service comes and goes.
abbrev others : List Stored.Op
others = Stored.registers other_endpoint ∷ Stored.de_registers other_endpoint ∷ []

deleted_missing :
    (s : Dict Text Text) (k : Text) → value_of s k ≡ none → (dict_store.delete s k).1 ≢ none
deleted_missing s k h = ground arith

kv_de_register-twice_example :
    let r =
      Stored.run dict_store marshal unmarshal
        (kv_de_register dict_store marshal unmarshal one_service arith_endpoint).0
        others in
    (lookup (codes "/byterpc/services/p.s.m/Arith/h:1") r.store_engine ≡ none)
    × ((kv_de_register dict_store marshal unmarshal r arith_endpoint).1 ≢ none)
    × ((kv_de_register_all dict_store marshal unmarshal r).1 ≢ none)
kv_de_register-twice_example =
    kv_de_register-twice dict_store marshal unmarshal value_of dict_store-Laws deleted_missing
      one_service arith_endpoint others refl (refl, tt)

abbrev history : List Enrolled.Op
history =
    Enrolled.registers arith_endpoint
    ∷ Enrolled.disables true
    ∷ Enrolled.de_registers arith_endpoint
    ∷ []

holds-enrolled_example :
    (holds value_of
        (codes "/byterpc/services/p.s.m/Arith/h:1")
        (Enrolled.run
          (etcd_registry dict_store marshal unmarshal)
          (record {
            registry = new_etcd_registry dict_store marshal unmarshal empty_registry (ok []);
            disabled = false;
          })
          history).registry.delegate
      ≡ (none, true))
    × (holds value_of
          (codes "/byterpc/services/p.s.m/Arith/h:1")
          (Enrolled.run
            (zk_registry dict_store marshal unmarshal)
            (record {
              registry = new_zk_registry dict_store marshal unmarshal empty_registry (ok []);
              disabled = false;
            })
            history).registry.delegate
        ≡ (none, false))
holds-enrolled_example =
    holds-enrolled dict_store marshal unmarshal value_of dict_store-Laws
      (codes "/byterpc/services/p.s.m/Arith/h:1") empty_registry [] false history
