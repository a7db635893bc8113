-- ===== src/JsonCodec/Wire.antt =====
-- A client codec and a server codec on the two ends of a connection.
use byterpc.Common.{
  ℕ, ◌+◌, ◌%◌, ◌<◌, ◌≡◌, ◌∙◌, refl, ap, [], ◌∷◌, Option, none, some, if◌then◌else◌, ◌==◌, ==_iff,
  length, Text, codes, lookup, insert, lookup-insert, nat_eq, text_eq, same, arith, Error, message,
  ◌⊎◌, inl, inr,
}
use byterpc.Client.{RpcResponse, u64}
use byterpc.Server.{RpcRequest}
use byterpc.JsonCodec.{
  ServerRequest, ServerResponse, JsonServerCodec, read_request_header, write_response,
  ClientRequest, ClientResponse, JsonError, no_error, text, JsonClientCodec, write_request,
  read_response_header, null, response_to, method_of, header_of, error_in,
}
use byterpc.JsonCodec.Pairing.{write_response_known, read_request_header_number}

-- The JSON forms of numbers are arguments, and so is what is read of a string that was written:
-- bytes that are not UTF-8 come back as replacement characters.
module _ (to_raw : ℕ → Text) (of_raw : Text → Option ℕ) (recoded : Text → Text) where
  -- A request as the server's decoder finds it.
  abbrev pub to_server : ClientRequest → ServerRequest
  to_server m = record {
    method = recoded m.method;
    params = some m.params;
    id = some (to_raw m.id);
  }

  -- A response as the client's decoder finds it: null leaves a pointer and an interface nil.
  abbrev pub result_in : Option Text → Option Text
  result_in none = none
  result_in (some x) = if same x null then none else some x

  abbrev pub json_error : Option Text → JsonError
  json_error none = no_error
  json_error (some e) = text (recoded e)

  abbrev pub numbered : ServerResponse → ℕ → ClientResponse
  numbered m n = record { id = n; result = result_in m.result; error = json_error m.error }

  abbrev pub with_number : ServerResponse → Option ℕ → Option ClientResponse
  with_number m none = none
  with_number m (some n) = some (numbered m n)

  abbrev pub to_client : ServerResponse → Option ClientResponse
  to_client m = with_number m (of_raw m.id)

  abbrev pub answer : RpcRequest → ℕ → Text → RpcResponse
  answer r seq e = record { service_method = r.service_method; seq = seq; error = e }

  known_id :
      (s : JsonServerCodec) (q : ServerRequest)
      → s.seq + 1 < u64
      → lookup (s.seq + 1) (read_request_header s (inr q)).0.pending ≡ some q.id
  unfolding read_request_header
  known_id s q small =
      lookup-insert (s.seq + 1) ((s.seq + 1) % u64) q.id s.pending
      ∙ ground (arith, ==_iff (s.seq + 1) ((s.seq + 1) % u64))

  -- What the client reads of a response that bears its number.
  read_response :
      (c : JsonClientCodec) (r : RpcRequest) (p : Text) (m : ClientResponse)
      → m.id ≡ r.seq
      → (read_response_header (write_request c r p).0 (inr m)).1
        ≡ header_of r.service_method r.seq (error_in m)
  unfolding read_response_header write_request
  read_response c r p m same_id =
      let known : lookup m.id (insert r.seq r.service_method c.pending) ≡ some r.service_method =
        lookup-insert m.id r.seq r.service_method c.pending
        ∙ rw ((==_iff m.id r.seq).1 same_id) refl in
      ap (λ o. header_of (method_of o) m.id (error_in m)) known
      ∙ ap (λ n. header_of r.service_method n (error_in m)) same_id

  abbrev read_error : Text → Text → Error ⊎ Text
  read_error x e =
      if length e == 0
      then (if same x null then inl (message (codes "invalid error <nil>")) else inr [])
      else inr e

  id-response_to :
      (id : Text) (r : RpcRequest) (seq : ℕ) (x e : Text)
      → (response_to (some id) (answer r seq e) x).id ≡ id
  id-response_to id r seq x e = ground arith

  error_in-numbered :
      (b : Option Text) (r : RpcRequest) (seq n : ℕ) (x e : Text)
      → recoded e ≡ e
      → error_in (numbered (response_to b (answer r seq e) x) n) ≡ read_error x e
  error_in-numbered b r seq n x [] same_text = ground arith
  error_in-numbered b r seq n x (d ∷ e) same_text = ground (arith, same_text)

  header_of-read_error :
      (r : RpcRequest) (x e : Text)
      → header_of r.service_method r.seq (read_error x e) ≡ (
          if length e == 0
          then (if same x null
              then inl (message (codes "invalid error <nil>"))
              else inr (record { service_method = r.service_method; seq = r.seq; error = [] }))
          else inr (record { service_method = r.service_method; seq = r.seq; error = e }))
  header_of-read_error r x e = ground arith

  -- A call whose request and response go through both codecs, if a number is read as it was printed,
  -- the method and the error are texts that JSON carries unchanged, as it does valid UTF-8, and the
  -- server has a sequence number left: the server reads the method of the client's request,
  -- and the client reads a response with its own sequence number and method, and with the error
  -- that the server gave, if it gave one or the result is not null. A result of null without an
  -- error is itself read as an error.
  pub round_trip :
      (c : JsonClientCodec) (s : JsonServerCodec) (r : RpcRequest) (p x e : Text)
      → s.seq + 1 < u64
      → of_raw (to_raw r.seq) ≡ some r.seq
      → recoded r.service_method ≡ r.service_method
      → recoded e ≡ e
      → let (c', sent) = write_request c r p in
        let (s', header) = read_request_header s (inr (to_server sent)) in
        (header ≡ inr (record { service_method = r.service_method; seq = s.seq + 1 }))
        × ((reply : ServerResponse) × ((m : ClientResponse) × ((write_response s'
                  (answer r (s.seq + 1) e)
                  x).1
                ≡ inr reply)
              × (to_client reply ≡ some m)
              × ((read_response_header c' (inr m)).1 ≡ (
                  if length e == 0
                  then (if same x null
                      then inl (message (codes "invalid error <nil>"))
                      else inr
                          (record { service_method = r.service_method; seq = r.seq; error = [] }))
                  else inr
                      (record { service_method = r.service_method; seq = r.seq; error = e })))))
  unfolding write_request
  round_trip c s r p x e small back same_method same_text =
      let q : ServerRequest = record {
        method = recoded r.service_method;
        params = some p;
        id = some (to_raw r.seq);
      } in
      let reply : ServerResponse = response_to (some (to_raw r.seq)) (answer r (s.seq + 1) e) x in
      let sent =
        write_response_known (read_request_header s (inr q)).0 (answer r (s.seq + 1) e) x
          (some (to_raw r.seq)) (known_id s q small) in
      (
        read_request_header_number s q small
            ∙ ap (λ t. inr (record { service_method = t; seq = s.seq + 1 })) same_method,
        (
          reply,
          (
            numbered reply r.seq,
            ap (λ (y : JsonServerCodec × (Error ⊎ ServerResponse)). y.1) sent,
            ap (λ id. with_number reply (of_raw id))
                  (id-response_to (to_raw r.seq) r (s.seq + 1) x e)
                ∙ ap (with_number reply) back,
            read_response c r p (numbered reply r.seq) refl
                ∙ ap (header_of r.service_method r.seq)
                    (error_in-numbered (some (to_raw r.seq)) r (s.seq + 1) r.seq x e same_text)
                ∙ header_of-read_error r x e,
          ),
        ),
      )
