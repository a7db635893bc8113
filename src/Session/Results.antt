-- ===== src/Session/Results.antt =====
-- What the invariant says of the responses that a client gets and of the calls that are left.
use byterpc.Common.{
  ℕ, ◌<◌, ◌≡◌, ◌≢◌, ◌∙◌, refl, ap, sym, subst, List, [], ◌∷◌, ◌++◌, map, Option, none, some, ==_iff,
  same_iff, Dict, lookup, nat_eq, All, All-append, arith, Error, panic, inl, inr, Option-cases,
  length,
}
use byterpc.Plugin.Server.{do_pre_read_request, do_post_read_request}
use byterpc.Service.{Service, Method}
use byterpc.Client.{Call, Receiver, reading, broken, ended, RpcResponse, u64}
use byterpc.Client.Tally.{held, finished_of, present}
use byterpc.Client.Safety.{calls_conserved, calls_settled}
use byterpc.Server.{RpcRequest, Server}
use byterpc.Server.Loop.{Event, serve_codec}
use byterpc.Server.Answers.{respond, tag, serve_codec_answers}
use byterpc.Session.{
  Session, Step, sends, reaches, writes, fails, serves, answers, loses, receives, breaks, ends,
  closes, Reach, start, next, underway, request,
}
use byterpc.Session.Tally.{one, tally}
use byterpc.Session.Calls.{call_method}
use byterpc.Session.Underway.{at, other}
use byterpc.Session.Counting.{unsent-idle, count_underway, Reach-Client}
use byterpc.Session.Invariant.{Reach-Sound}

-- A list with one tag is of one item.
single :
    {A B : Type 0} (f : A → B) (xs : List A) (b : B)
    → map f xs ≡ b ∷ []
    → (x : A) × (xs ≡ x ∷ []) × (f x ≡ b)
single f [] b h = cc
single f (x ∷ []) b h = (x, refl, ground arith)
single f (x ∷ y ∷ xs) b h = cc

All-left : {A : Type 0} (P : A → Type 0) (xs ys : List A) → All P (xs ++ ys) → All P xs
All-left P [] ys h = tt
All-left P (x ∷ xs) ys h = (h.0, All-left P xs ys h.1)

All-split :
    {A : Type 0} (P : A → Type 0) (xs ys : List A) (x : A)
    → All P (xs ++ (x ∷ ys))
    → P x × All P (xs ++ ys)
All-split P [] ys x h = (h.0, h.1)
All-split P (y ∷ xs) ys x h = let (here, rest) = All-split P xs ys x h.1 in (here, (h.0, rest))

module _ {ℓ} {A : Type ℓ} (run : Service → Method → RpcRequest → A × Option Error) (server : Server)
    (pre : do_pre_read_request server.plugin_manager ≢ panic)
    (post : do_post_read_request server.plugin_manager ≢ panic) where
  -- An event is what the server's loop makes of a request; a response is what an event leads to.
  abbrev Handles : Event → Type 0
  Handles e =
      (r : RpcRequest) × ((body : Option Error) × ((serve_codec server ((inr r, body) ∷ [])).0
          ≡ e ∷ []))

  abbrev IsAnswer : RpcResponse → Type 0
  IsAnswer x = (e : Event) × (Handles e × (x ≡ respond run e))

  pub served_once :
      (r : RpcRequest) (body : Option Error)
      → (e : Event) × ((serve_codec server ((inr r, body) ∷ [])).0 ≡ e ∷ [])
        × (tag run (respond run e) ≡ (r.service_method, r.seq))
  served_once r body =
      single (λ e. tag run (respond run e)) _ _
        (serve_codec_answers run server ((inr r, body) ∷ []) pre post).0

  step-Handles :
      {s t : Session}
      → Step run server s t
      → All Handles s.jobs × All IsAnswer s.to_client
      → All Handles t.jobs × All IsAnswer t.to_client
  step-Handles (sends s id method room call new idle made) h = h
  step-Handles (reaches s seq busy fresh open_yet) h = h
  step-Handles (writes s seq busy out) h = h
  step-Handles (fails s seq e busy) h = h
  step-Handles (serves s r rest body q) h =
      let (e, made, _) = served_once r body in
      (
        All-append Handles s.jobs _ h.0 (subst (All Handles) (sym made) ((r, (body, made)), tt)),
        h.1,
      )
  step-Handles (answers s before after e q open_yet) h =
      let (here, rest) = All-split Handles before after e (subst (All Handles) q h.0) in
      (rest, All-append IsAnswer s.to_client (respond run e ∷ []) h.1 ((e, (here, refl)), tt))
  step-Handles (loses s before after e q) h =
      ((All-split Handles before after e (subst (All Handles) q h.0)).1, h.1)
  step-Handles (receives s r rest body reads q) h = (h.0, (subst (All IsAnswer) q h.1).1)
  step-Handles (breaks s e reads) h = h
  step-Handles (ends s e q idle) h = h
  step-Handles (closes s answer buffered rest q first) h =
      (h.0, All-left IsAnswer buffered rest (subst (All IsAnswer) q h.1))

  Reach-Handles : {s : Session} → Reach run server s → All Handles s.jobs × All IsAnswer s.to_client
  Reach-Handles start = (tt, tt)
  Reach-Handles (next r st) = step-Handles st (Reach-Handles r)

  -- The response at the head of the wire carries the method of the call that waits for its number.
  right_method :
      {s : Session} (x : RpcResponse) (rest : List RpcResponse) (id : ℕ) (call : Call)
      → Reach run server s
      → length s.client.calls < u64
      → s.to_client ≡ x ∷ rest
      → lookup x.seq s.client.pending ≡ some id
      → lookup id s.client.calls ≡ some call
      → x.service_method ≡ call.service_method
  right_method {s} x rest id call r room head waits known =
      let (m, m_known, none_other) =
        (Reach-Sound run server pre post r room).right x.seq id waits in
      let counted : tally (other x.seq m) (underway run server s) ≡ 0 = none_other in
      let here : one (other x.seq m) (tag run x) ≡ 0 = omega (
        arith,
        count_underway run server (other x.seq m) s,
        ap (λ l. tally (other x.seq m) (map (tag run) l)) head,
      ) in
      let method : call.service_method ≡ m = ground (arith, m_known, ap call_method known) in
      (same_iff x.service_method m).0 (ground (arith, (==_iff x.seq x.seq).1 refl)) ∙ sym method

  -- If no plugin panics and the client has had fewer than 2^64 calls, in every state that a
  -- connection gets to, the next response that the client reads, where a call waits for its number,
  -- is what the server makes of a request with the method of that call and that number.
  pub response-request :
      {s : Session} (x : RpcResponse) (rest : List RpcResponse) (id : ℕ) (call : Call)
      → Reach run server s
      → length s.client.calls < u64
      → s.to_client ≡ x ∷ rest
      → lookup x.seq s.client.pending ≡ some id
      → lookup id s.client.calls ≡ some call
      → (body : Option Error) × ((e : Event) × ((serve_codec server
              ((inr (request call.service_method x.seq), body) ∷ [])).0
            ≡ e ∷ [])
          × (x ≡ respond run e))
  response-request {s} x rest id call r room head waits known =
      let (e, ((q, (body, made)), is)) = (subst (All IsAnswer) head (Reach-Handles r).1).0 in
      let (e', made', tagged) = served_once q body in
      let same_event : e ≡ e' = cc in
      let x_tag : tag run x ≡ (q.service_method, q.seq) =
        ap (tag run) is ∙ ap (λ e. tag run (respond run e)) same_event ∙ tagged in
      let q_method : q.service_method ≡ call.service_method =
        sym (ap (λ t. t.0) x_tag) ∙ right_method x rest id call r room head waits known in
      let q_seq : q.seq ≡ x.seq = sym (ap (λ t. t.1) x_tag) in
      let asked : q ≡ request call.service_method x.seq = λ i. request (q_method i) (q_seq i) in
      (body, (e, subst (λ q. (serve_codec server ((inr q, body) ∷ [])).0 ≡ e ∷ []) asked made, is))

  unheld : (j : ℕ) (p : Dict ℕ ℕ) → ((n : ℕ) → lookup n p ≡ none) → held j p ≡ 0
  unheld j [] h = refl
  unheld j ((n, id) ∷ p) h = ground (arith, h n, ==_iff n n)

  -- If no plugin panics and the client has had fewer than 2^64 calls, in every state that a
  -- connection gets to in which no request is being sent, nothing is on the wire, the server has no
  -- job and no response is lost, no number is pending and every call that the client
  -- has been given is finished exactly once.
  pub quiet_settled :
      {s : Session}
      → Reach run server s
      → length s.client.calls < u64
      → s.client.in_flight ≡ none
      → s.to_server ≡ []
      → s.jobs ≡ []
      → s.to_client ≡ []
      → s.lost ≡ []
      → ((n : ℕ) → lookup n s.client.pending ≡ none)
        × ((id : ℕ) → finished_of (lookup id s.client.calls) ≡ present (lookup id s.client.calls))
  quiet_settled {s} r room idle no_request no_job no_response no_loss =
      (none_pending, λ id. by_receiver id s.client.receiver refl)
    where
      nothing : underway run server s ≡ []
      nothing =
          rw
            (
              unsent-idle s.on_wire s.client.in_flight idle,
              no_request,
              no_job,
              no_response,
              no_loss,
            )
            refl

      none_pending : (n : ℕ) → lookup n s.client.pending ≡ none
      none_pending n = elim (Option-cases (lookup n s.client.pending)) [
        | inl e ↦ e
        | inr (id, e) ↦ absurd (
            omega (
              arith,
              (Reach-Sound run server pre post r room).known n id e,
              ap (tally (at n)) nothing,
            ))
      ]

      open_settled :
          (id : ℕ)
          → s.client.receiver ≢ ended
          → finished_of (lookup id s.client.calls) ≡ present (lookup id s.client.calls)
      open_settled id open_yet = omega (
        arith,
        calls_conserved (Reach-Client run server r) room open_yet id,
        unheld id s.client.pending none_pending,
      )

      by_receiver :
          (id : ℕ) (x : Receiver)
          → s.client.receiver ≡ x
          → finished_of (lookup id s.client.calls) ≡ present (lookup id s.client.calls)
      by_receiver id reading e = open_settled id (λ q. cc)
      by_receiver id (broken y) e = open_settled id (λ q. cc)
      by_receiver id ended e = calls_settled (Reach-Client run server r) room e id
