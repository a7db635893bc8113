-- ===== src/JsonCodec/Tests.antt =====
-- Small runs of the two codecs.
use byterpc.Common.{
  ℕ, zero, suc, ◌≡◌, refl, List, [], ◌∷◌, Option, some, length, Text, codes, message, inl, inr,
  arith, if◌then◌else◌, ltb,
}
use byterpc.Client.{RpcResponse}
use byterpc.Server.{RpcRequest}
use byterpc.JsonCodec.{
  ServerRequest, ServerResponse, ClientResponse, new_json_server_codec, read_request_header,
  write_response, new_json_client_codec, write_request, read_response_header, response_to,
}
use byterpc.JsonCodec.Pairing.{Op, reads, writes, run, write_response-run}
use byterpc.JsonCodec.Wire.{to_server, to_client, answer, round_trip}

abbrev asks : Text → ServerRequest
asks id = record { method = codes "Arith.Multiply"; params = some (codes "[{}]"); id = some id }

abbrev good : ℕ → RpcResponse
good n = record { service_method = codes "Arith.Multiply"; seq = n; error = [] }

abbrev others : List Op
others = reads (inr (asks (codes "8"))) ∷ writes (good 2) (codes "1") ∷ []

write_response-run_example :
    let (c', header) = read_request_header new_json_server_codec (inr (asks (codes "7"))) in
    let (c'', sent) = write_response (run c' others) (good 1) (codes "6") in
    (header ≡ inr (record { service_method = codes "Arith.Multiply"; seq = 1 }))
    × (sent ≡ inr (response_to (some (codes "7")) (good 1) (codes "6")))
    × (write_response c'' (good 1) (codes "6")
        ≡ (c'', inl (message (codes "invalid sequence number in response"))))
write_response-run_example =
    write_response-run new_json_server_codec (asks (codes "7")) others (good 1) (codes "6")
      (omega arith) refl ((λ h. omega arith), tt)

-- Numbers as strings of strokes.
abbrev to_raw : ℕ → Text
to_raw zero = []
to_raw (suc n) = 49 ∷ to_raw n

abbrev of_raw : Text → Option ℕ
of_raw t = some (length t)

-- A byte that is not ASCII is replaced; good UTF-8 beyond it is left out here.
abbrev recoded : Text → Text
recoded [] = []
recoded (b ∷ t) = (if ltb b 128 then b else 63) ∷ recoded t

abbrev request : RpcRequest
request = record { service_method = codes "Arith.Multiply"; seq = 3 }

round_trip_example :
    let (c', sent) = write_request new_json_client_codec request (codes "{}") in
    let (s', header) =
      read_request_header new_json_server_codec (inr (to_server to_raw of_raw recoded sent)) in
    (header ≡ inr (record { service_method = codes "Arith.Multiply"; seq = 1 }))
    × ((reply : ServerResponse) × ((m : ClientResponse) × ((write_response s'
              (answer to_raw of_raw recoded request 1 (codes "no"))
              (codes "6")).1
            ≡ inr reply)
          × (to_client to_raw of_raw recoded reply ≡ some m)
          × ((read_response_header c' (inr m)).1
              ≡ inr (record {
                service_method = codes "Arith.Multiply";
                seq = 3;
                error = codes "no";
              }))))
round_trip_example =
    round_trip to_raw of_raw recoded new_json_client_codec new_json_server_codec request
      (codes "{}") (codes "6") (codes "no") (omega arith) refl refl refl
