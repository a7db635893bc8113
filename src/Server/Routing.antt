-- ===== src/Server/Routing.antt =====
-- The service and the method that a request is for.
use byterpc.Common.{
  true, ℕ, ◌≡◌, ◌∙◌, refl, ap, [], ◌∷◌, ◌++◌, none, some, length, take, take-append, drop-append,
  Text, codes, lookup, text_eq, arith, message, ok, inr, ==_iff,
}
use byterpc.Utils.Split.{count_byte}
use byterpc.Plugin.Server.{do_pre_read_request}
use byterpc.Service.{Service, Method}
use byterpc.Server.{
  RpcRequest, Server, last_index, later_index, with_dot, with_service, with_method, hooked,
  rejected, read_request_header,
}

last_index_absent : (sep : ℕ) (s : Text) → count_byte sep s ≡ 0 → last_index sep s ≡ none
unfolding last_index
last_index_absent sep [] h = refl
last_index_absent sep (c ∷ s) h =
    ap (later_index sep c) (last_index_absent sep s (ground arith)) ∙ ground arith

last_index_at :
    (sep : ℕ) (s t : Text)
    → count_byte sep t ≡ 0
    → last_index sep (s ++ (sep ∷ t)) ≡ some (length s)
unfolding last_index
last_index_at sep [] t h =
    ap (later_index sep sep) (last_index_absent sep t h) ∙ rw ((==_iff sep sep).1 refl) refl
last_index_at sep (c ∷ s) t h = ap (later_index sep c) (last_index_at sep s t h)

-- A request for Service.Method is routed at its last dot: with_dot finds the service under what
-- stands before the dot, dots included, and the method under what follows it.
routed :
    (s : Server) (name method_name : Text) (seq : ℕ) (svc : Service)
    → count_byte b'.' method_name ≡ 0
    → lookup name s.service_map ≡ some svc
    → let r : RpcRequest = record { service_method = name ++ (b'.' ∷ method_name); seq = seq } in
      read_request_header s (inr r) ≡ with_method s r svc (lookup method_name svc.methods)
unfolding read_request_header
routed s name method_name seq svc no_dot known =
    let r : RpcRequest = record { service_method = name ++ (b'.' ∷ method_name); seq = seq } in
    ap (with_dot s r) (last_index_at b'.' name method_name no_dot)
    ∙ ap (λ t. with_service s r t (lookup (take (length name) r.service_method) s.service_map))
        (drop-append name b'.' method_name)
    ∙ ap (λ t. with_service s r method_name (lookup t s.service_map))
        (take-append name (b'.' ∷ method_name))
    ∙ ap (with_service s r method_name) known

-- A request for Service.Method, where the service is registered, the method has no dot and no
-- plugin reports an error, is read as one for the method that the service has under that name;
-- without such a method it is refused with the request and its sequence number at hand, and the
-- loop goes on.
pub read_request_header_routes :
    (s : Server) (name method_name : Text) (seq : ℕ) (svc : Service)
    → count_byte b'.' method_name ≡ 0
    → lookup name s.service_map ≡ some svc
    → do_pre_read_request s.plugin_manager ≡ ok tt
    → let r : RpcRequest = record { service_method = name ++ (b'.' ∷ method_name); seq = seq } in
      ((m : Method)
        → lookup method_name svc.methods ≡ some m
        → read_request_header s (inr r)
          ≡ ok (record {
            svc = some svc;
            method = some m;
            req = some r;
            keep_reading = true;
            error = none;
          }))
      × (lookup method_name svc.methods ≡ none
          → read_request_header s (inr r)
            ≡ ok (rejected r (some svc) (message (codes "can't find method " ++ r.service_method))))
read_request_header_routes s name method_name seq svc no_dot known passed =
    let r : RpcRequest = record { service_method = name ++ (b'.' ∷ method_name); seq = seq } in
    let here = routed s name method_name seq svc no_dot known in
    (
      λ m e. here ∙ ap (with_method s r svc) e ∙ ap (hooked r svc m) passed,
      λ e. here ∙ ap (with_method s r svc) e,
    )
