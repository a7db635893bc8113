-- ===== src/Server.antt =====
-- server.go: the requests that a server reads. What the codec answers is an argument; the arguments
-- and replies behind their pointers are not modelled.
pub mod Loop
pub mod Registration
pub mod Pool
pub mod Routing
pub mod Answers
pub mod Registering
pub mod Accept
pub mod Tests
use byterpc.Common.{
  ℕ, suc, ◌+◌, Bool, true, false, ◌&&◌, ◌||◌, not, List, [], ◌∷◌, ◌++◌, Option, none, some,
  if◌then◌else◌, ◌==◌, length, take, drop, Text, codes, Dict, lookup, insert, text_eq, same, Error,
  eof, unexpected_eof, message, server_can_not_decode_request, invalid_service_name,
  method_must_be_exported, service_already_defined, Result, ok, err, panic, ◌⊎◌, inl, inr,
}
use byterpc.Utils.{error_text, trim}
use byterpc.Plugin.{Manager, map_result}
use byterpc.Plugin.Server.{do_pre_read_request, do_post_read_request, do_register_service}
use byterpc.Service.{Endpoint, Service, Method, ReflectMethod, register_methods}
use byterpc.Client.{RpcResponse}

pub record RpcRequest : Type 0 where
  pub service_method : Text
  pub seq : ℕ

-- The fields that requests and registrations use. `psm` is of `serverConfig`, `address` is
-- `ln.Addr()`.
pub record Server : Type 0 where
  pub service_map : Dict Text Service
  pub plugin_manager : Manager
  pub psm : Text
  pub address : Text

-- `strings.LastIndex(s, sep)` for a separator of one byte, none for -1.
abbrev pub later_index : ℕ → ℕ → Option ℕ → Option ℕ
later_index sep c (some i) = some (suc i)
later_index sep c none = if c == sep then some 0 else none

unfoldable pub last_index : ℕ → Text → Option ℕ
last_index sep [] = none
last_index sep (c ∷ s) = later_index sep c (last_index sep s)

-- The results of `readRequestHeader` and `readRequest`.
pub record Read : Type 0 where
  pub svc : Option Service
  pub method : Option Method
  pub req : Option RpcRequest
  pub keep_reading : Bool
  pub error : Option Error

abbrev pub header_error : Error → Error
header_error eof = eof
header_error unexpected_eof = unexpected_eof
header_error e = server_can_not_decode_request

abbrev pub rejected : RpcRequest → Option Service → Error → Read
rejected r svc e = record {
  svc = svc;
  method = none;
  req = some r;
  keep_reading = true;
  error = some e;
}

-- What a hook makes of a request that has its service and method.
abbrev pub hooked : RpcRequest → Service → Method → Result (Unit {0}) → Result Read
hooked r svc m (ok _) =
    ok (record { svc = some svc; method = some m; req = some r; keep_reading = true; error = none })
hooked r svc m (err e) =
    ok (record {
      svc = some svc;
      method = some m;
      req = some r;
      keep_reading = true;
      error = some e;
    })
hooked r svc m panic = panic

abbrev pub with_method : Server → RpcRequest → Service → Option Method → Result Read
with_method s r svc none =
    ok (rejected r (some svc) (message (codes "can't find method " ++ r.service_method)))
with_method s r svc (some m) = hooked r svc m (do_pre_read_request s.plugin_manager)

abbrev pub with_service : Server → RpcRequest → Text → Option Service → Result Read
with_service s r method_name none =
    ok (rejected r none (message (codes "can't find service " ++ r.service_method)))
with_service s r method_name (some svc) = with_method s r svc (lookup method_name svc.methods)

abbrev pub with_dot : Server → RpcRequest → Option ℕ → Result Read
with_dot s r none =
    ok (rejected r none (message (codes "service/method request invalid: " ++ r.service_method)))
with_dot s r (some dot) =
    with_service s r (drop (dot + 1) r.service_method)
      (lookup (take dot r.service_method) s.service_map)

unfoldable pub read_request_header : Server → Error ⊎ RpcRequest → Result Read
unfolding last_index
read_request_header s (inl e) = ok (record {
  svc = none;
  method = none;
  req = none;
  keep_reading = false;
  error = some (header_error e);
})
read_request_header s (inr r) = with_dot s r (last_index b'.' r.service_method)

-- `readRequest` after the header, with the answer of `ReadRequestBody` for a good one; the answer for
-- a bad one is ignored.
abbrev pub read_body : Server → Option Error → Read → Result Read
read_body s (some e) h = ok (record h { error = some e })
read_body s none h = elim (do_post_read_request s.plugin_manager) [
  | ok _ ↦ ok h
  | err e ↦ ok (record h { error = some e })
  | panic ↦ panic
]

abbrev pub after_header : Server → Option Error → Result Read → Result Read
after_header s body (ok h) = elim h.error [ none ↦ read_body s body h | some e ↦ ok h ]
after_header s body (err e) = err e
after_header s body panic = panic

unfoldable pub read_request : Server → Error ⊎ RpcRequest → Option Error → Result Read
unfolding read_request_header
read_request s header body = after_header s body (read_request_header s header)
