-- ===== src/JsonCodec.antt =====
-- json_codec.go: the two codecs on the messages that the JSON encoder writes and the decoder reads.
-- A raw JSON value is a text; how a value is marshalled is an argument. The mutex makes each
-- function one step.
pub mod Pairing
pub mod Wire
mod Tests
use byterpc.Common.{
  ℕ, ◌+◌, ◌%◌, ◌^◌, Bool, true, false, List, [], ◌∷◌, ◌++◌, Option, none, some, if◌then◌else◌, ◌==◌,
  length, Text, codes, Dict, lookup, insert, erase, nat_eq, Error, message, ◌⊎◌, inl, inr, Result,
  ok, err, panic,
}
use byterpc.Client.{RpcResponse, u64}
use byterpc.Server.{RpcRequest}

pub record ServerRequest : Type 0 where
  pub method : Text
  pub params : Option Text
  pub id : Option Text

abbrev pub reset_request : ServerRequest
reset_request = record { method = []; params = none; id = none }

-- A result or an error that is left out is JSON null.
pub record ServerResponse : Type 0 where
  pub id : Text
  pub result : Option Text
  pub error : Option Text

pub record JsonServerCodec : Type 0 where
  pub req : ServerRequest
  pub seq : ℕ
  pub pending : Dict ℕ (Option Text)

abbrev pub new_json_server_codec : JsonServerCodec
new_json_server_codec = record { req = reset_request; seq = 0; pending = [] }

-- `ReadRequestHeader`, with the message that the decoder reads.
unfoldable pub read_request_header :
    JsonServerCodec → Error ⊎ ServerRequest → JsonServerCodec × (Error ⊎ RpcRequest)
read_request_header c (inl e) = (record c { req = reset_request }, inl e)
read_request_header c (inr q) =
    let seq = (c.seq + 1) % u64 in
    (
      record c { req = record q { id = none }; seq = seq; pending = insert seq q.id c.pending },
      inr (record { service_method = q.method; seq = seq }),
    )

-- `ReadRequestBody`; `unmarshal` is what `json.Unmarshal` into the one-element array answers.
unfoldable pub read_request_body : JsonServerCodec → Option (Text → Option Error) → Option Error
read_request_body c none = none
read_request_body c (some unmarshal) = elim c.req.params [
  | none ↦ some (message (codes "illegal argument for request params"))
  | some p ↦ unmarshal p
]

abbrev pub null : Text
null = codes "null"

abbrev pub id_of : Option Text → Text
id_of none = null
id_of (some id) = id

abbrev pub response_to : Option Text → RpcResponse → Text → ServerResponse
response_to b r x =
    if length r.error == 0
    then record { id = id_of b; result = some x; error = none }
    else record { id = id_of b; result = none; error = some r.error }

-- `WriteResponse` up to the encoder: the message that it is given.
abbrev pub answer_pending :
    JsonServerCodec
    → RpcResponse
    → Text
    → Option (Option Text)
    → JsonServerCodec × (Error ⊎ ServerResponse)
answer_pending c r x none = (c, inl (message (codes "invalid sequence number in response")))
answer_pending c r x (some b) =
    (record c { pending = erase r.seq c.pending }, inr (response_to b r x))

unfoldable pub write_response :
    JsonServerCodec → RpcResponse → Text → JsonServerCodec × (Error ⊎ ServerResponse)
write_response c r x = answer_pending c r x (lookup r.seq c.pending)

pub record ClientRequest : Type 0 where
  pub method : Text
  pub params : Text
  pub id : ℕ

-- The error of a response is any JSON value.
pub data JsonError : Type 0 where
  no_error : JsonError
  text : Text → JsonError
  other_value : Text → JsonError

pub record ClientResponse : Type 0 where
  pub id : ℕ
  pub result : Option Text
  pub error : JsonError

abbrev pub reset_response : ClientResponse
reset_response = record { id = 0; result = none; error = no_error }

pub record JsonClientCodec : Type 0 where
  pub resp : ClientResponse
  pub pending : Dict ℕ Text

abbrev pub new_json_client_codec : JsonClientCodec
new_json_client_codec = record { resp = reset_response; pending = [] }

-- `WriteRequest` up to the encoder.
unfoldable pub write_request : JsonClientCodec → RpcRequest → Text → JsonClientCodec × ClientRequest
write_request c r param = (
  record c { pending = insert r.seq r.service_method c.pending },
  record { method = r.service_method; params = param; id = r.seq },
)

abbrev pub method_of : Option Text → Text
method_of none = []
method_of (some m) = m

-- The text of an error: `fmt.Errorf` prints a value that is no string.
abbrev pub error_in : ClientResponse → Error ⊎ Text
error_in m = elim m.error [
  | no_error ↦ elim m.result [
    | some _ ↦ inr []
    | none ↦ inl (message (codes "invalid error <nil>"))
  ]
  | text x ↦ inr (if length x == 0 then codes "unspecified error" else x)
  | other_value v ↦ inl (message (codes "invalid error " ++ v))
]

abbrev pub header_of : Text → ℕ → Error ⊎ Text → Error ⊎ RpcResponse
header_of method seq (inl e) = inl e
header_of method seq (inr x) = inr (record { service_method = method; seq = seq; error = x })

-- `ReadResponseHeader`, with the message that the decoder reads.
unfoldable pub read_response_header :
    JsonClientCodec → Error ⊎ ClientResponse → JsonClientCodec × (Error ⊎ RpcResponse)
read_response_header c (inl e) = (record c { resp = reset_response }, inl e)
read_response_header c (inr m) = (
  record { resp = m; pending = erase m.id c.pending },
  header_of (method_of (lookup m.id c.pending)) m.id (error_in m),
)

-- `ReadResponseBody`: a missing result is a nil pointer.
unfoldable pub read_response_body :
    JsonClientCodec → Option (Text → Option Error) → Result (Option Error)
read_response_body c none = ok none
read_response_body c (some unmarshal) = elim c.resp.result [
  | none ↦ panic
  | some x ↦ ok (unmarshal x)
]
