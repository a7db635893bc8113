-- ===== src/Registry/Listing.antt =====
-- What a registry over a key-value store takes out and lists.
use byterpc.Common.{
  ◌≡◌, ◌↔◌, ◌∙◌, refl, ap, List, [], ◌∷◌, ◌++◌, map, Option, none, some, Text, Dict, Error, Result,
  ok,
}
use byterpc.Utils.{transform_invoke_point_to_path}
use byterpc.Utils.Errors.{wrap_array_errs_iff}
use byterpc.Service.{Endpoint, endpoint_data, zero_endpoint}
use byterpc.Registry.{
  Store, KvRegistry, delete_all, add_failure, kv_de_register_all, endpoints_in, list_under, listed,
  kv_list_services,
}

module _ {S : Type 0} (ops : Store S) (marshal : Dict Text Text → Text)
    (unmarshal : Text → Result Endpoint) where
  -- Deleting the paths of a cache one after the other: no delete fails.
  abbrev pub AllDeleted : S → Dict Text Endpoint → Type 0
  AllDeleted s [] = Unit
  AllDeleted s ((path, e) ∷ d) = ((ops.delete s path).1 ≡ none) × AllDeleted (ops.delete s path).0 d

  no_failure :
      (o : Option Error) (es : List Error)
      → (add_failure ops marshal unmarshal o es ≡ []) ↔ ((o ≡ none) × (es ≡ []))
  no_failure none es = (λ h. (refl, h), λ h. h.1)
  no_failure (some e) es = (λ h. cc, λ h. cc)

  none_failed :
      (s : S) (d : Dict Text Endpoint)
      → ((delete_all ops marshal unmarshal s d).1 ≡ []) ↔ AllDeleted s d
  unfolding delete_all
  none_failed s [] = (λ h. tt, λ h. refl)
  none_failed s ((path, e) ∷ d) =
      let (down, up) = none_failed (ops.delete s path).0 d in
      let (split, join) =
        no_failure (ops.delete s path).1
          (delete_all ops marshal unmarshal (ops.delete s path).0 d).1 in
      (λ h. ((split h).0, down (split h).1), λ h. join (h.0, up h.1))

  -- `DeRegisterAll` reports no error exactly when the deletes of the paths of all cached services,
  -- one after the other, succeed.
  pub kv_de_register_all_iff :
      (r : KvRegistry S)
      → ((kv_de_register_all ops marshal unmarshal r).1 ≡ none)
        ↔ AllDeleted r.store_engine r.services_cache
  unfolding kv_de_register_all
  kv_de_register_all_iff r =
      let (to, from) =
        wrap_array_errs_iff (delete_all ops marshal unmarshal r.store_engine r.services_cache).1 in
      let (down, up) = none_failed r.store_engine r.services_cache in
      (λ h. down (to h), λ h. from (up h))

  endpoints_in-map :
      (es : List Endpoint)
      → ((e : Endpoint) → unmarshal (marshal e.meta_data) ≡ ok zero_endpoint)
      → endpoints_in ops marshal unmarshal (map (endpoint_data marshal) es)
        ≡ map (λ e. zero_endpoint) es
  unfolding endpoints_in
  endpoints_in-map [] h = refl
  endpoints_in-map (e ∷ es) h = rw (h e, endpoints_in-map es h) refl

  -- If metadata unmarshals as an endpoint without fields, as it does unless it has keys that are
  -- called like them, and the store has under the path of an invoke point what `Endpoint.Data`
  -- gives for some services, then all of them are listed, but as that empty endpoint: without their
  -- addresses.
  pub kv_list_services_empty :
      (r : KvRegistry S) (invoke_point path : Text) (es : List Endpoint)
      → ((e : Endpoint) → unmarshal (marshal e.meta_data) ≡ ok zero_endpoint)
      → transform_invoke_point_to_path invoke_point ≡ ok path
      → ops.list r.store_engine (r.root_path ++ path) ≡ ok (map (endpoint_data marshal) es)
      → kv_list_services ops marshal unmarshal r invoke_point ≡ map (λ e. zero_endpoint) es
  unfolding kv_list_services
  kv_list_services_empty r invoke_point path es bare found values =
      ap (list_under ops marshal unmarshal r) found
      ∙ (ap (listed ops marshal unmarshal) values ∙ endpoints_in-map es bare)
