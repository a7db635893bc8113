-- ===== src/Registry/FrontEnds.antt =====
-- The ServiceRegistry interface of registry.go and what implements it: memoryRegistry, kvRegistry,
-- and the etcdRegistry of registry_etcd.go and the zkRegistry of registry_zk.go, which pass every
-- call on to a kvRegistry; the registration plugins of those two files.
use byterpc.Common.{Bool, List, Option, none, Text, codes, Dict, Error, Result}
use byterpc.Plugin.{PluginType, service_registration_plugin_type}
use byterpc.Service.{Endpoint}
use byterpc.Registry.{
  MemoryRegistry, memory_init, memory_destroy, memory_register, memory_de_register,
  memory_de_register_all, memory_list_services, Store, KvRegistry, kv_init, kv_register,
  kv_de_register, kv_de_register_all, kv_list_services,
}

-- `C` is what the configuration leads to: for a store, what `libkv.NewStore` returns.
pub record ServiceRegistry (R C : Type 0) : Type 0 where
  pub init : R → Text → C → R × Option Error
  pub register : R → Endpoint → R × Result (Unit {0})
  pub de_register : R → Endpoint → R × Option Error
  pub de_register_all : R → R × Option Error
  pub list_services : R → Text → List Endpoint
  pub destroy : R → R × Option Error

unfoldable pub memory_registry : {C : Type 0} → ServiceRegistry MemoryRegistry C
memory_registry = record {
  init = λ r registry_type config. (memory_init r, none);
  register = memory_register;
  de_register = λ r e. (memory_de_register r e, none);
  de_register_all = λ r. (memory_de_register_all r, none);
  list_services = memory_list_services;
  destroy = λ r. (memory_destroy r, none);
}

-- `etcdRegistry` and `zkRegistry`.
pub record FrontEnd (S : Type 0) : Type 0 where
  pub delegate : KvRegistry S

abbrev pub front : {S A : Type 0} → KvRegistry S × A → FrontEnd S × A
front (r, a) = (record { delegate = r }, a)

module _ {S : Type 0} (ops : Store S) (marshal : Dict Text Text → Text)
    (unmarshal : Text → Result Endpoint) where
  unfoldable pub kv_registry : ServiceRegistry (KvRegistry S) (Result S)
  kv_registry = record {
    init = kv_init ops marshal unmarshal;
    register = kv_register ops marshal unmarshal;
    de_register = kv_de_register ops marshal unmarshal;
    de_register_all = kv_de_register_all ops marshal unmarshal;
    list_services = kv_list_services ops marshal unmarshal;
    destroy = λ r. (r, none);
  }

  -- Every call goes to the delegate; `Init` ignores the type that it is given.
  abbrev pub delegating : Text → ServiceRegistry (FrontEnd S) (Result S)
  delegating own_type = record {
    init =
        λ r registry_type opened. front (kv_init ops marshal unmarshal r.delegate own_type opened);
    register = λ r e. front (kv_register ops marshal unmarshal r.delegate e);
    de_register = λ r e. front (kv_de_register ops marshal unmarshal r.delegate e);
    de_register_all = λ r. front (kv_de_register_all ops marshal unmarshal r.delegate);
    list_services =
        λ r invoke_point. kv_list_services ops marshal unmarshal r.delegate invoke_point;
    destroy = λ r. (r, none);
  }

  unfoldable pub etcd_registry : ServiceRegistry (FrontEnd S) (Result S)
  etcd_registry = delegating (codes "etcd")

  unfoldable pub zk_registry : ServiceRegistry (FrontEnd S) (Result S)
  zk_registry = delegating (codes "zookeeper")

  -- `NewEtcdRegistry` and `NewZKRegistry`, on `&kvRegistry{}`; the error of `Init` is ignored.
  unfoldable pub new_etcd_registry : KvRegistry S → Result S → FrontEnd S
  unfolding etcd_registry
  new_etcd_registry zero_registry opened =
      (etcd_registry.init (record { delegate = zero_registry }) (codes "etcd") opened).0

  unfoldable pub new_zk_registry : KvRegistry S → Result S → FrontEnd S
  unfolding zk_registry
  new_zk_registry zero_registry opened =
      (zk_registry.init (record { delegate = zero_registry }) (codes "zookeeper") opened).0

-- `EtcdServiceRegistrationPlugin` and `ZKServiceRegistrationPlugin`, over any registry.
pub record RegistrationPlugin (R : Type 0) : Type 0 where
  pub registry : R
  pub disabled : Bool

abbrev pub etcd_plugin_name : Text
etcd_plugin_name = codes "_plugin_service_registration_etcd"

abbrev pub zk_plugin_name : Text
zk_plugin_name = codes "_plugin_service_registration_zk"

module _ {R C : Type 0} (registry_ops : ServiceRegistry R C) where
  abbrev pub plugin_type : RegistrationPlugin R → PluginType
  plugin_type p = service_registration_plugin_type

  unfoldable pub set_disable : RegistrationPlugin R → Bool → RegistrationPlugin R
  set_disable p disable = record p { disabled = disable }

  unfoldable pub register_service :
      RegistrationPlugin R → Endpoint → RegistrationPlugin R × Result (Unit {0})
  register_service p e =
      let (r, answer) = registry_ops.register p.registry e in (record p { registry = r }, answer)

  unfoldable pub de_register_service :
      RegistrationPlugin R → Endpoint → RegistrationPlugin R × Option Error
  de_register_service p e =
      let (r, answer) = registry_ops.de_register p.registry e in (record p { registry = r }, answer)
