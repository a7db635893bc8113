-- ===== src/JsonCodec/Pairing.antt =====
-- The sequence numbers and the ids of requests in the server codec of json_codec.go.
use byterpc.Common.{
  ℕ, suc, ◌+◌, ◌%◌, ◌<◌, ◌≤◌, ◌≡◌, ◌≢◌, ◌∙◌, refl, ap, sym, subst, List, [], ◌∷◌, Option, none,
  some, ==_iff, Text, codes, lookup, erase, lookup-insert, lookup-erase, nat_eq, arith, Error,
  message, ◌⊎◌, inl, inr,
}
use byterpc.Client.{RpcResponse, u64}
use byterpc.JsonCodec.{
  ServerRequest, ServerResponse, JsonServerCodec, read_request_header, answer_pending, response_to,
  write_response,
}

-- The calls of a codec, by the loop that reads and by the goroutines that answer.
pub data Op : Type 0 where
  reads : Error ⊎ ServerRequest → Op
  writes : RpcResponse → Text → Op

unfoldable pub step : JsonServerCodec → Op → JsonServerCodec
step c (reads m) = (read_request_header c m).0
step c (writes r x) = (write_response c r x).0

unfoldable pub run : JsonServerCodec → List Op → JsonServerCodec
unfolding step
run c [] = c
run c (o ∷ os) = run (step c o) os

-- No response of a history is for a given sequence number.
abbrev pub Avoids : ℕ → List Op → Type 0
Avoids s [] = Unit
Avoids s (reads m ∷ os) = Avoids s os
Avoids s (writes r x ∷ os) = (r.seq ≢ s) × Avoids s os

-- The requests that a history reads; a message that cannot be read takes no number.
abbrev pub requests_in : List Op → ℕ
requests_in [] = 0
requests_in (reads (inl e) ∷ os) = requests_in os
requests_in (reads (inr q) ∷ os) = suc (requests_in os)
requests_in (writes r x ∷ os) = requests_in os

-- A number that was given stays with its id, while there are more numbers.
abbrev Holds : ℕ → Option Text → ℕ → JsonServerCodec → Type 0
Holds s id room c = (s ≤ c.seq) × (c.seq + room < u64) × (lookup s c.pending ≡ some id)

write_response-Holds :
    (s : ℕ) (id : Option Text) (room : ℕ) (c : JsonServerCodec) (r : RpcResponse) (x : Text)
    (o : Option (Option Text))
    → r.seq ≢ s
    → Holds s id room c
    → Holds s id room (answer_pending c r x o).0
write_response-Holds s id room c r x none other h = h
write_response-Holds s id room c r x (some b) other (le, small, at_s) =
    (le, small, ground (arith, lookup-erase s r.seq c.pending, ==_iff s r.seq))

read_bad-Holds :
    (s : ℕ) (id : Option Text) (room : ℕ) (c : JsonServerCodec) (e : Error)
    → Holds s id room c
    → Holds s id room (read_request_header c (inl e)).0
unfolding read_request_header
read_bad-Holds s id room c e h = h

read-Holds :
    (s : ℕ) (id : Option Text) (room : ℕ) (c : JsonServerCodec) (q : ServerRequest)
    → Holds s id (suc room) c
    → Holds s id room (read_request_header c (inr q)).0
unfolding read_request_header
read-Holds s id room c q (le, small, at_s) = (
  omega arith,
  omega arith,
  lookup-insert s ((c.seq + 1) % u64) q.id c.pending ∙ ground (arith, ==_iff s ((c.seq + 1) % u64)),
)

run-Holds :
    (s : ℕ) (id : Option Text) (c : JsonServerCodec) (os : List Op)
    → Avoids s os
    → Holds s id (requests_in os) c
    → Holds s id 0 (run c os)
unfolding run write_response
run-Holds s id c [] out h = h
run-Holds s id c (reads (inl e) ∷ os) out h =
    run-Holds s id (read_request_header c (inl e)).0 os out
      (read_bad-Holds s id (requests_in os) c e h)
run-Holds s id c (reads (inr q) ∷ os) out h =
    run-Holds s id (read_request_header c (inr q)).0 os out (read-Holds s id (requests_in os) c q h)
run-Holds s id c (writes r x ∷ os) out h =
    run-Holds s id (write_response c r x).0 os out.1
      (write_response-Holds s id (requests_in os) c r x (lookup r.seq c.pending) out.0 h)

read-starts :
    (c : JsonServerCodec) (q : ServerRequest) (room : ℕ)
    → c.seq + 1 + room < u64
    → Holds (c.seq + 1) q.id room (read_request_header c (inr q)).0
unfolding read_request_header
read-starts c q room small = (
  omega arith,
  omega arith,
  lookup-insert (c.seq + 1) ((c.seq + 1) % u64) q.id c.pending
      ∙ ground (arith, ==_iff (c.seq + 1) ((c.seq + 1) % u64)),
)

pub write_response_known :
    (c : JsonServerCodec) (r : RpcResponse) (x : Text) (b : Option Text)
    → lookup r.seq c.pending ≡ some b
    → write_response c r x ≡ (record c { pending = erase r.seq c.pending }, inr (response_to b r x))
unfolding write_response
write_response_known c r x b e = ap (answer_pending c r x) e

write_response_again :
    (c : JsonServerCodec) (r : RpcResponse) (x : Text)
    → let c' : JsonServerCodec = record c { pending = erase r.seq c.pending } in
      write_response c' r x ≡ (c', inl (message (codes "invalid sequence number in response")))
unfolding write_response
write_response_again c r x =
    let gone : lookup r.seq (erase r.seq c.pending) ≡ none =
      lookup-erase r.seq r.seq c.pending ∙ rw ((==_iff r.seq r.seq).1 refl) refl in
    ap (answer_pending (record c { pending = erase r.seq c.pending }) r x) gone

pub read_request_header_number :
    (c : JsonServerCodec) (q : ServerRequest)
    → c.seq + 1 < u64
    → (read_request_header c (inr q)).1
      ≡ inr (record { service_method = q.method; seq = c.seq + 1 })
unfolding read_request_header
read_request_header_number c q small =
    let e : (c.seq + 1) % u64 ≡ c.seq + 1 = omega arith in
    ap (λ n. inr (record { service_method = q.method; seq = n })) e

-- A request that is read gets the next sequence number. After any further requests and responses to
-- other numbers, while the sequence number stays below 2^64 with every request read, the response to that number bears the id of
-- the request, null if it had none, with the result or the error; a second response to it is
-- refused and changes nothing.
pub write_response-run :
    (c : JsonServerCodec) (q : ServerRequest) (os : List Op) (r : RpcResponse) (x : Text)
    → c.seq + 1 + requests_in os < u64
    → r.seq ≡ c.seq + 1
    → Avoids (c.seq + 1) os
    → let (c', header) = read_request_header c (inr q) in
      let (c'', sent) = write_response (run c' os) r x in
      (header ≡ inr (record { service_method = q.method; seq = c.seq + 1 }))
      × (sent ≡ inr (response_to q.id r x))
      × (write_response c'' r x
          ≡ (c'', inl (message (codes "invalid sequence number in response"))))
write_response-run c q os r x small same_seq out =
    let c' : JsonServerCodec = run (read_request_header c (inr q)).0 os in
    let (_, _, kept) =
      run-Holds (c.seq + 1) q.id (read_request_header c (inr q)).0 os out
        (read-starts c q (requests_in os) small) in
    let answered =
      write_response_known c' r x q.id (ap (λ n. lookup n c'.pending) same_seq ∙ kept) in
    (
      read_request_header_number c q (omega arith),
      ap (λ (y : JsonServerCodec × (Error ⊎ ServerResponse)). y.1) answered,
      subst
          (λ (y : JsonServerCodec).
            write_response y r x ≡ (y, inl (message (codes "invalid sequence number in response"))))
          (sym (ap (λ (y : JsonServerCodec × (Error ⊎ ServerResponse)). y.0) answered))
          (write_response_again c' r x),
    )
