-- ===== src/Registry/Stored.antt =====
-- kvRegistry over a store that takes every write, against a plain account of its history.
use byterpc.Common.{
  ◌≡◌, ◌≢◌, ◌∙◌, refl, ap, sym, subst, inl, inr, Bool-cases, Bool, true, false, ◌&&◌, List, [], ◌∷◌,
  ◌++◌, Option, none, some, if◌then◌else◌, Text, Dict, contains, lookup-insert, text_eq, same,
  same_iff, Result, ok, arith, Error,
}
use byterpc.Utils.Errors.{wrap_array_errs_iff}
use byterpc.Service.{Endpoint, endpoint_data}
use byterpc.Registry.{
  Store, KvRegistry, put_service, kv_register, kv_de_register, delete_all, kv_de_register_all,
  add_failure,
}

abbrev pub has {ℓ} : {A : Type ℓ} → Option A → Bool
has none = false
has (some a) = true

-- What a store promises as long as it can be reached: `get` is what it has under a key.
pub record Laws {S : Type 0} (ops : Store S) (get : S → Text → Option Text) : Type 0 where
  pub exists_lem : (s : S) (k : Text) → ops.exists s k ≡ ok (has (get s k))
  pub put-get :
      (s : S) (k v j : Text) → get (ops.put s k v).0 j ≡ (if same j k then some v else get s j)
  pub put_ok : (s : S) (k v : Text) → (ops.put s k v).1 ≡ none
  pub delete-get :
      (s : S) (k j : Text) → get (ops.delete s k).0 j ≡ (if same j k then none else get s j)

pub data Op : Type 0 where
  registers de_registers : Endpoint → Op
  de_registers_all : Op

-- What the store has under a path, and whether the registry has registered it.
abbrev pub Account : Type 0
Account = Option Text × Bool

abbrev pub holds : {S : Type 0} → (S → Text → Option Text) → Text → KvRegistry S → Account
holds get k r = (get r.store_engine k, contains k r.services_cache)

module _ (root : Text) (marshal : Dict Text Text → Text) where
  -- The last registration of a path stands, until the registry takes it out; it takes out only what
  -- it has registered once.
  abbrev pub effect : Text → Account → Op → Account
  effect k (v, owned) (registers e) =
      if same k (root ++ e.path) then (some (endpoint_data marshal e), true) else (v, owned)
  effect k (v, owned) (de_registers e) =
      if same k (root ++ e.path) && owned then (none, owned) else (v, owned)
  effect k (v, owned) de_registers_all = if owned then (none, owned) else (v, owned)

  abbrev pub account : Text → Account → List Op → Account
  account k a [] = a
  account k a (o ∷ os) = account k (effect k a o) os

-- No endpoint of a history is registered under a path.
abbrev pub Leaves : Text → Text → List Op → Type 0
Leaves root k [] = Unit
Leaves root k (registers e ∷ os) = (same k (root ++ e.path) ≡ false) × Leaves root k os
Leaves root k (de_registers e ∷ os) = Leaves root k os
Leaves root k (de_registers_all ∷ os) = Leaves root k os

module _ {S : Type 0} (ops : Store S) (marshal : Dict Text Text → Text)
    (unmarshal : Text → Result Endpoint) where
  unfoldable pub step : KvRegistry S → Op → KvRegistry S
  step r (registers e) = (kv_register ops marshal unmarshal r e).0
  step r (de_registers e) = (kv_de_register ops marshal unmarshal r e).0
  step r de_registers_all = (kv_de_register_all ops marshal unmarshal r).0

  unfoldable pub run : KvRegistry S → List Op → KvRegistry S
  unfolding step
  run r [] = r
  run r (o ∷ os) = run (step r o) os

  module _ (get : S → Text → Option Text) (laws : Laws ops get) where
    delete_all-get :
        (k : Text) (s : S) (d : Dict Text Endpoint)
        → get (delete_all ops marshal unmarshal s d).0 k ≡ (if contains k d then none else get s k)
    unfolding delete_all
    delete_all-get k s [] = refl
    delete_all-get k s ((path, e) ∷ d) =
        ground (arith, delete_all-get k (ops.delete s path).0 d, laws.delete-get s path k)

    register-put :
        (r : KvRegistry S) (e : Endpoint)
        → kv_register ops marshal unmarshal r e
          ≡ put_service ops marshal unmarshal r e
              (ok (has (get r.store_engine (r.root_path ++ e.path))))
    unfolding kv_register
    register-put r e = ap (put_service ops marshal unmarshal r e) (laws.exists_lem r.store_engine _)

    step-root_path : (r : KvRegistry S) (o : Op) → (step r o).root_path ≡ r.root_path
    unfolding step kv_de_register kv_de_register_all
    step-root_path r (registers e) = ap (λ x. x.0.root_path) (register-put r e)
    step-root_path r (de_registers e) = ground arith
    step-root_path r de_registers_all = refl

    holds-step :
        (k : Text) (r : KvRegistry S) (o : Op)
        → holds get k (step r o) ≡ effect r.root_path marshal k (holds get k r) o
    unfolding step kv_de_register kv_de_register_all
    holds-step k r (registers e) =
        ap (λ x. holds get k x.0) (register-put r e)
        ∙ ground (
          arith,
          laws.put-get r.store_engine (r.root_path ++ e.path) (endpoint_data marshal e) k,
          lookup-insert k (r.root_path ++ e.path) e r.services_cache,
        )
    holds-step k r (de_registers e) = ground (
      arith,
      laws.delete-get r.store_engine (r.root_path ++ e.path) k,
      same_iff k (r.root_path ++ e.path),
    )
    holds-step k r de_registers_all =
        ground (arith, delete_all-get k r.store_engine r.services_cache)

    -- After any history of a registry over a store that takes every write, whatever the store held
    -- before, it holds under each path what the last registration of that path put there, until
    -- the registry took it out; what others put there is not touched.
    pub holds-run :
        (k : Text) (r : KvRegistry S) (os : List Op)
        → holds get k (run r os) ≡ account r.root_path marshal k (holds get k r) os
    unfolding run
    holds-run k r [] = refl
    holds-run k r (o ∷ os) =
        holds-run k (step r o) os ∙ rw (step-root_path r o, holds-step k r o) refl

    no_failure :
        (o : Option Error) (es : List Error)
        → add_failure ops marshal unmarshal o es ≡ []
        → o ≡ none
    no_failure none es h = refl
    no_failure (some e) es h = cc

    no_failures :
        (o : Option Error) (es : List Error) → add_failure ops marshal unmarshal o es ≡ [] → es ≡ []
    no_failures none es h = h
    no_failures (some e) es h = cc

    -- A path that the registry owns and that the store does not have stays so, until it is
    -- registered again.
    account_gone :
        (k root : Text) (os : List Op)
        → Leaves root k os
        → account root marshal k (none, true) os ≡ (none, true)
    account_gone k root [] h = refl
    account_gone k root (registers e ∷ os) h = rw (h.0) (account_gone k root os h.1)
    account_gone k root (de_registers e ∷ os) h = elim (Bool-cases (same k (root ++ e.path))) [
      | inl hit ↦ rw hit (account_gone k root os h)
      | inr miss ↦ rw miss (account_gone k root os h)
    ]
    account_gone k root (de_registers_all ∷ os) h = account_gone k root os h

    run_taken_out :
        (r : KvRegistry S) (e : Endpoint) (os : List Op)
        → run r (de_registers e ∷ os) ≡ run (kv_de_register ops marshal unmarshal r e).0 os
    unfolding run step
    run_taken_out r e os = refl

    run-root_path : (r : KvRegistry S) (os : List Op) → (run r os).root_path ≡ r.root_path
    unfolding run
    run-root_path r [] = refl
    run-root_path r (o ∷ os) = run-root_path (step r o) os ∙ step-root_path r o

    module _ (missing : (s : S) (k : Text) → get s k ≡ none → (ops.delete s k).1 ≢ none) where
      -- A path of the cache that the store does not have.
      delete_all-missing :
          (k : Text) (s : S) (d : Dict Text Endpoint)
          → contains k d ≡ true
          → get s k ≡ none
          → (delete_all ops marshal unmarshal s d).1 ≢ []
      unfolding delete_all
      delete_all-missing k s [] h gone e = cc
      delete_all-missing k s ((path, x) ∷ d) h gone e = elim (Bool-cases (same k path)) [
        | inl hit ↦
            let here : k ≡ path = (same_iff k path).0 hit in
            let gone_here : get s path ≡ none = subst (λ q. get s q ≡ none) here gone in
            missing s path gone_here (no_failure _ _ e)
        | inr miss ↦
            let later : get (ops.delete s path).0 k ≡ none =
              laws.delete-get s path k ∙ rw miss gone in
            let rest = delete_all-missing k (ops.delete s path).0 d (ground arith) later in
            rest (no_failures _ _ e)
      ]

      owned_out :
          (path : Text) (r : KvRegistry S) (e : Endpoint)
          → contains path r.services_cache ≡ true
          → path ≡ r.root_path ++ e.path
          → effect r.root_path marshal path (holds get path r) (de_registers e) ≡ (none, true)
      owned_out path r e h here = rw (h, (same_iff path (r.root_path ++ e.path)).1 here) refl

      de_register_fails :
          (r : KvRegistry S) (e : Endpoint) (path : Text)
          → r.root_path ++ e.path ≡ path
          → contains path r.services_cache ≡ true
          → get r.store_engine path ≡ none
          → (kv_de_register ops marshal unmarshal r e).1 ≢ none
      unfolding kv_de_register
      de_register_fails r e path here kept gone = rw (here, kept) (missing r.store_engine path gone)

      de_register_all_fails :
          (r : KvRegistry S) (path : Text)
          → contains path r.services_cache ≡ true
          → get r.store_engine path ≡ none
          → (kv_de_register_all ops marshal unmarshal r).1 ≢ none
      unfolding kv_de_register_all
      de_register_all_fails r path kept gone q =
          delete_all-missing path r.store_engine r.services_cache kept gone
            ((wrap_array_errs_iff _).0 q)

      -- Of a store that does every write and delete that it is asked for, and for which deleting
      -- what is not there is an error: after a registry has taken out
      -- a service that it had registered, and after any further history that does not register its
      -- path again, taking it out and taking out all services are errors, though the store has
      -- nothing under the path.
      pub kv_de_register-twice :
          (r : KvRegistry S) (e : Endpoint) (os : List Op)
          → contains (r.root_path ++ e.path) r.services_cache ≡ true
          → Leaves r.root_path (r.root_path ++ e.path) os
          → let r' = run (kv_de_register ops marshal unmarshal r e).0 os in
            (get r'.store_engine (r.root_path ++ e.path) ≡ none)
            × ((kv_de_register ops marshal unmarshal r' e).1 ≢ none)
            × ((kv_de_register_all ops marshal unmarshal r').1 ≢ none)
      kv_de_register-twice r e os h leaves =
          let path = r.root_path ++ e.path in
          let r' = run (kv_de_register ops marshal unmarshal r e).0 os in
          let now : holds get path r' ≡ (none, true) =
            ap (holds get path) (sym (run_taken_out r e os))
            ∙ (holds-run path r (de_registers e ∷ os)
                ∙ ap (λ a. account r.root_path marshal path a os) (owned_out path r e h refl)
                ∙ account_gone path r.root_path os leaves) in
          let gone : get r'.store_engine path ≡ none = ap (λ a. a.0) now in
          let kept : contains path r'.services_cache ≡ true = ap (λ a. a.1) now in
          let same_root : r'.root_path ≡ r.root_path =
            ap (λ x. x.root_path) (sym (run_taken_out r e os))
            ∙ run-root_path r (de_registers e ∷ os) in
          (
            gone,
            de_register_fails r' e path (ap (λ t. t ++ e.path) same_root) kept gone,
            de_register_all_fails r' path kept gone,
          )
