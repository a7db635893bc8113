-- ===== src/Resolver/Keys.antt =====
-- The key that a resolver watches and the keys under which services are registered.
use byterpc.Common.{
  ℕ, ◌≡◌, ◌∙◌, refl, ap, sym, true, false, [], ◌∷◌, ◌++◌, Option, Error, none, ◌==◌, ==_iff, length,
  Text, codes, ok, arith,
}
use byterpc.Utils.Split.{count_byte, transform_lem}
use byterpc.Utils.{transform_invoke_point_to_path}
use byterpc.Service.{Service}
use byterpc.Server.{Server}
use byterpc.Server.Registration.{endpoint_of}
use byterpc.Registry.{has_prefix, root_path_of}
use byterpc.Resolver.{
  ServiceWatcher, new_service_watcher, watcher_at, resolve, resolve_zk, service_root_path,
}

has_prefix-append : (s t u : Text) → has_prefix (s ++ t) (s ++ u) ≡ has_prefix t u
has_prefix-append [] t u = refl
has_prefix-append (c ∷ s) t u = rw ((==_iff c c).1 refl) (has_prefix-append s t u)

has_prefix_self : (s t : Text) → has_prefix (s ++ t) s ≡ true
has_prefix_self [] [] = refl
has_prefix_self [] (d ∷ t) = refl
has_prefix_self (c ∷ s) t = rw ((==_iff c c).1 refl) (has_prefix_self s t)

not_empty : (s t : Text) (c : ℕ) → (length (s ++ (c ∷ t)) == 0) ≡ false
not_empty [] t c = ground arith
not_empty (d ∷ s) t c = ground arith

resolve_path :
    (s t : Text) (c : ℕ) (path : Text)
    → transform_invoke_point_to_path (s ++ (c ∷ t)) ≡ ok path
    → resolve (s ++ (c ∷ t)) none ≡ ok (new_service_watcher path)
unfolding resolve
resolve_path s t c path e = rw (not_empty s t c, resolve) (ap watcher_at e)

-- The resolver of PSM:Service.Method, in which only the separators are colons and dots, watches a
-- key that the keys begin with under which the etcd registry stores the endpoints that a server of
-- that PSM makes for the service, at any address.
pub resolve-endpoint_of :
    (s : Server) (svc : Service) (method root : Text)
    → count_byte b':' s.psm ≡ 0
    → count_byte b':' (svc.name ++ (b'.' ∷ method)) ≡ 0
    → count_byte b'.' svc.name ≡ 0
    → root_path_of (codes "etcd") ≡ ok root
    → (w : ServiceWatcher) × (resolve (s.psm ++ (b':' ∷ (svc.name ++ (b'.' ∷ method)))) none ≡ ok w)
      × (has_prefix (root ++ (endpoint_of s svc).path) w.key ≡ true)
unfolding endpoint_of root_path_of new_service_watcher
resolve-endpoint_of s svc method root a b c at_root =
    let same_root : service_root_path ≡ root = cc at_root in
    (
      new_service_watcher (codes "/" ++ (s.psm ++ (codes "/" ++ svc.name))),
      resolve_path s.psm (svc.name ++ (b'.' ∷ method)) b':' _
          (transform_lem s.psm svc.name method a b c),
      ap
            (λ r.
              has_prefix (r ++ (endpoint_of s svc).path)
                (service_root_path ++ (codes "/" ++ (s.psm ++ (codes "/" ++ svc.name)))))
            (sym same_root)
          ∙ (has_prefix-append s.psm (b'/' ∷ (svc.name ++ (b'/' ∷ s.address))) (b'/' ∷ svc.name)
              ∙ has_prefix_self svc.name (b'/' ∷ s.address)),
    )

-- The two resolvers watch the same key.
pub resolve_zk-resolve :
    (target : Text) (opened : Option Error) → resolve_zk target opened ≡ resolve target opened
unfolding resolve_zk resolve
resolve_zk-resolve target opened = refl
