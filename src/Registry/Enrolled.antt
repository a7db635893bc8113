-- ===== src/Registry/Enrolled.antt =====
-- The registration plugins over the etcd and the zookeeper registry, against a plain account.
use byterpc.Common.{
  ◌≡◌, ◌∙◌, refl, ap, Bool, false, List, [], ◌∷◌, Option, Text, codes, Dict, text_eq, Result, ok,
}
use byterpc.Service.{Endpoint}
use byterpc.Registry.{Store, KvRegistry, root_path_of, kv_init}
use byterpc.Registry.Stored.{Laws, Account, account, holds, holds-run}
use byterpc.Registry.Stored
use byterpc.Registry.FrontEnds.{
  ServiceRegistry, FrontEnd, RegistrationPlugin, etcd_registry, zk_registry, delegating,
  new_etcd_registry, new_zk_registry, set_disable, register_service, de_register_service,
}

pub data Op : Type 0 where
  registers de_registers : Endpoint → Op
  disables : Bool → Op

-- Whether a plugin is disabled is no matter of its own.
abbrev pub at_store : List Op → List Stored.Op
at_store [] = []
at_store (registers e ∷ os) = Stored.registers e ∷ at_store os
at_store (de_registers e ∷ os) = Stored.de_registers e ∷ at_store os
at_store (disables b ∷ os) = at_store os

module _ {R C : Type 0} (registry_ops : ServiceRegistry R C) where
  unfoldable pub step : RegistrationPlugin R → Op → RegistrationPlugin R
  step p (registers e) = (register_service registry_ops p e).0
  step p (de_registers e) = (de_register_service registry_ops p e).0
  step p (disables b) = set_disable registry_ops p b

  unfoldable pub run : RegistrationPlugin R → List Op → RegistrationPlugin R
  unfolding step
  run p [] = p
  run p (o ∷ os) = run (step p o) os

module _ {S : Type 0} (ops : Store S) (marshal : Dict Text Text → Text)
    (unmarshal : Text → Result Endpoint) where
  run-delegate :
      (own_type : Text) (p : RegistrationPlugin (FrontEnd S)) (os : List Op)
      → (run (delegating ops marshal unmarshal own_type) p os).registry.delegate
        ≡ Stored.run ops marshal unmarshal p.registry.delegate (at_store os)
  unfolding run step register_service de_register_service set_disable Stored.run Stored.step
  run-delegate own_type p [] = refl
  run-delegate own_type p (registers e ∷ os) =
      run-delegate own_type (step (delegating ops marshal unmarshal own_type) p (registers e)) os
  run-delegate own_type p (de_registers e ∷ os) =
      run-delegate own_type (step (delegating ops marshal unmarshal own_type) p (de_registers e)) os
  run-delegate own_type p (disables b ∷ os) =
      run-delegate own_type (step (delegating ops marshal unmarshal own_type) p (disables b)) os

  module _ (get : S → Text → Option Text) (laws : Laws ops get) where
    -- A registration plugin over a new etcd or zookeeper registry, whose store takes every write
    -- and held anything before: after any history of registrations, removals and switches of the
    -- plugin, on or off, the store has under each path what the last registration of that path put
    -- there, below the root of the registry, until the plugin took it out; a path that the plugin
    -- has not registered is as before.
    pub holds-enrolled :
        (k : Text) (zero_registry : KvRegistry S) (s : S) (disabled : Bool) (os : List Op)
        → (holds get k
              (run
                (etcd_registry ops marshal unmarshal)
                (record {
                  registry = new_etcd_registry ops marshal unmarshal zero_registry (ok s);
                  disabled = disabled;
                })
                os).registry.delegate
            ≡ account (codes "/byterpc/services") marshal k (get s k, false) (at_store os))
          × (holds get k
                (run
                  (zk_registry ops marshal unmarshal)
                  (record {
                    registry = new_zk_registry ops marshal unmarshal zero_registry (ok s);
                    disabled = disabled;
                  })
                  os).registry.delegate
              ≡ account (codes "byterpc/services") marshal k (get s k, false) (at_store os))
    unfolding etcd_registry zk_registry new_etcd_registry new_zk_registry kv_init root_path_of
    holds-enrolled k zero_registry s disabled os = (
      ap (holds get k) (run-delegate (codes "etcd") _ os)
          ∙ holds-run ops marshal unmarshal get laws k _ (at_store os),
      ap (holds get k) (run-delegate (codes "zookeeper") _ os)
          ∙ holds-run ops marshal unmarshal get laws k _ (at_store os),
    )
