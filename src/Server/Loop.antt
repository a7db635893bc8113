-- ===== src/Server/Loop.antt =====
-- `serveCodec` and `sendResponse` of server.go, and `Service.call` of service.go. What the codec
-- answers and what a method returns are arguments.
use byterpc.Common.{
  List, [], ◌∷◌, Option, none, some, if◌then◌else◌, ◌==◌, length, Text, text_eq, Error, Result, ok,
  err, panic, ◌⊎◌,
}
use byterpc.Utils.{error_text}
use byterpc.Service.{Service, Method}
use byterpc.Client.{RpcResponse}
use byterpc.Server.{RpcRequest, Server, Read, read_request}

-- What the loop of `serveCodec` does with a request: it answers with an error at once, or starts a
-- goroutine that calls the method.
pub data Event : Type 0 where
  answers : RpcRequest → Text → Event
  calls : Service → Method → RpcRequest → Event

-- How the loop ends: at a header that cannot be read, when `codec.Close` is called after the calls
-- have ended, at a panic, or not yet, when it waits for the next header.
pub data End : Type 0 where
  closed panicked waiting : End

abbrev pub add_event : Option Event → List Event × End → List Event × End
add_event none (es, end) = (es, end)
add_event (some e) (es, end) = (e ∷ es, end)

abbrev pub answer_to : Option RpcRequest → Error → Option Event
answer_to none e = none
answer_to (some r) e = some (answers r (error_text e))

abbrev pub call_for : Option Service → Option Method → Option RpcRequest → Option Event
call_for (some svc) (some m) (some r) = some (calls svc m r)
call_for (some svc) (some m) none = none
call_for (some svc) none r = none
call_for none m r = none

abbrev pub serve_read : Result Read → List Event × End → List Event × End
serve_read panic rest = ([], panicked)
serve_read (err e) rest = ([], panicked)
serve_read (ok h) rest = elim h.error [
  | none ↦ add_event (call_for h.svc h.method h.req) rest
  | some e ↦ if h.keep_reading then add_event (answer_to h.req e) rest else ([], closed)
]

-- `serveCodec` on what the codec reads: for each request a header and the answer for its body.
unfoldable pub serve_codec : Server → List ((Error ⊎ RpcRequest) × Option Error) → List Event × End
unfolding read_request
serve_codec s [] = ([], waiting)
serve_codec s ((header, body) ∷ inputs) =
    serve_read (read_request s header body) (serve_codec s inputs)

-- `sendResponse` up to the write: the response, and the reply or `invalidRequest`. The errors of the
-- hooks and of the write are ignored.
unfoldable pub send_response {ℓ} :
    {A : Type ℓ} → RpcRequest → Option A → Text → RpcResponse × Option A
send_response r reply err_msg = (
  record { service_method = r.service_method; seq = r.seq; error = err_msg },
  if length err_msg == 0 then reply else none,
)

-- `Service.call`, with what the method returned.
unfoldable pub call {ℓ} : {A : Type ℓ} → RpcRequest → A → Option Error → RpcResponse × Option A
unfolding send_response
call r reply none = send_response r (some reply) []
call r reply (some e) = send_response r (some reply) (error_text e)
