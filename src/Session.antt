-- ===== src/Session.antt =====
-- One connection: the client of client.go and the server of server.go, over a codec that carries
-- requests and responses in their order, as the gob codecs of gob_codec.go do. The steps are those
-- of the goroutines on the two sides; the methods of a service are an argument.
pub mod Tally
pub mod Calls
pub mod Underway
pub mod Counting
pub mod Requests
pub mod Invariant
pub mod Results
pub mod Carrying
pub mod Draining
pub mod Lost
mod Tests
use byterpc.Common.{
  ℕ, ◌≡◌, Bool, true, false, List, [], ◌∷◌, ◌++◌, map, Option, none, some, if◌then◌else◌, Text,
  Dict, lookup, nat_eq, Error, Result, ok, err, ◌⊎◌, inr,
}
use byterpc.Service.{Service, Method}
use byterpc.Client.{
  Client, Call, Receiver, reading, broken, RpcResponse, new_client, go_call, register, finish_write,
  receive_one, terminate, close,
}
use byterpc.Server.{RpcRequest, Server}
use byterpc.Server.Loop.{Event, serve_codec}
use byterpc.Server.Answers.{respond, tag}

-- `service_method` is that of `client.request`, which `send` fills in under `reqMutex`; its number
-- is `in_flight`; `on_wire` says whether it has gone out, while `WriteRequest` has not returned yet.
-- `to_server` and `to_client` are on the wire. `jobs` are the goroutines of the
-- server's calls and the answers that its loop sends; the model lets the loop read on before it has
-- sent one. `lost` are the responses that nobody reads: those whose write failed, an error that the
-- server ignores, and those that a client has not read when it closes the connection.
pub record Session : Type 0 where
  pub client : Client
  pub service_method : Text
  pub on_wire : Bool
  pub to_server : List RpcRequest
  pub jobs : List Event
  pub to_client : List RpcResponse
  pub lost : List RpcResponse

abbrev pub new_session : Session
new_session = record {
  client = new_client;
  service_method = [];
  on_wire = false;
  to_server = [];
  jobs = [];
  to_client = [];
  lost = [];
}

abbrev pub request : Text → ℕ → RpcRequest
request method seq = record { service_method = method; seq = seq }

-- The request that is in the hands of `send` and not on the wire.
abbrev pub unsent : Bool → Option ℕ → Option ℕ
unsent true f = none
unsent false f = f

abbrev pub in_hand : Option ℕ → Text → List (Text × ℕ)
in_hand none method = []
in_hand (some seq) method = (method, seq) ∷ []

abbrev pub sent_tag : RpcRequest → Text × ℕ
sent_tag r = (r.service_method, r.seq)

module _ {ℓ} {A : Type ℓ} (run : Service → Method → RpcRequest → A × Option Error)
    (server : Server) where
  pub data Step : Session → Session → Type 0 where
    sends :
        (s : Session) (id : ℕ) (method : Text) (room : Option ℕ) (call : Call)
        → lookup id s.client.calls ≡ none
        → s.client.in_flight ≡ none
        → go_call method room ≡ ok call
        → Step s (record s {
          client = register s.client id call;
          service_method = call.service_method;
          on_wire = false;
        })
    -- `WriteRequest` puts the request on the wire, unless the client has closed it.
    reaches :
        (s : Session) (seq : ℕ)
        → s.client.in_flight ≡ some seq
        → s.on_wire ≡ false
        → s.client.closing ≡ false
        → Step s (record s {
          on_wire = true;
          to_server = s.to_server ++ (request s.service_method seq ∷ []);
        })
    writes :
        (s : Session) (seq : ℕ)
        → s.client.in_flight ≡ some seq
        → s.on_wire ≡ true
        → Step s (record s { client = finish_write s.client seq none; on_wire = false })
    -- A write that fails may have reached the server, and its response the client.
    fails :
        (s : Session) (seq : ℕ) (e : Error)
        → s.client.in_flight ≡ some seq
        → Step s (record s { client = finish_write s.client seq (some e); on_wire = false })
    serves :
        (s : Session) (r : RpcRequest) (rest : List RpcRequest) (body : Option Error)
        → s.to_server ≡ r ∷ rest
        → Step s (record s {
          to_server = rest;
          jobs = s.jobs ++ (serve_codec server ((inr r, body) ∷ [])).0;
        })
    answers :
        (s : Session) (before after : List Event) (e : Event)
        → s.jobs ≡ before ++ (e ∷ after)
        → s.client.closing ≡ false
        → Step s
            (record s { jobs = before ++ after; to_client = s.to_client ++ (respond run e ∷ []) })
    loses :
        (s : Session) (before after : List Event) (e : Event)
        → s.jobs ≡ before ++ (e ∷ after)
        → Step s (record s { jobs = before ++ after; lost = s.lost ++ (respond run e ∷ []) })
    receives :
        (s : Session) (r : RpcResponse) (rest : List RpcResponse) (body : Option Error)
        → s.client.receiver ≡ reading
        → s.to_client ≡ r ∷ rest
        → Step s (record s { client = receive_one s.client (ok r) body; to_client = rest })
    breaks :
        (s : Session) (e : Error)
        → s.client.receiver ≡ reading
        → Step s (record s { client = receive_one s.client (err e) none })
    ends :
        (s : Session) (e : Error)
        → s.client.receiver ≡ broken e
        → s.client.in_flight ≡ none
        → Step s (record s { client = terminate s.client e })
    -- The first `Close` ends the connection: `receive` still reads what has been buffered, and the
    -- rest of the responses is not read.
    closes :
        (s : Session) (answer : Result (Unit {0})) (buffered rest : List RpcResponse)
        → s.to_client ≡ buffered ++ rest
        → (s.client.closing ≡ true → rest ≡ [])
        → Step s (record s {
          client = (close s.client answer).0;
          to_client = buffered;
          lost = rest ++ s.lost;
        })

  -- The states that a new connection can get to.
  pub data Reach : Session → Type 0 where
    start : Reach new_session
    next : {s t : Session} → Reach s → Step s t → Reach t

  -- The method and the number of every request that is underway: in the hands of `send`, on the wire
  -- to the server, at the server, and, as a response, on the wire back or lost.
  abbrev pub underway : Session → List (Text × ℕ)
  underway s =
      in_hand (unsent s.on_wire s.client.in_flight) s.service_method
      ++ (map sent_tag s.to_server
          ++ (map (λ e. tag run (respond run e)) s.jobs
              ++ (map (tag run) s.to_client ++ map (tag run) s.lost)))
