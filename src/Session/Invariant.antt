-- ===== src/Session/Invariant.antt =====
-- The requests of a session are sound in every state that it gets to.
use byterpc.Common.{
  ℕ, ◌+◌, ◌<◌, ◌≡◌, ◌≢◌, refl, ap, Bool, List, ◌∷◌, ◌++◌, map, Option, ==_iff, Text, lookup, nat_eq,
  arith, Error, ok, panic, inl, inr, length,
}
use byterpc.Plugin.Server.{do_pre_read_request, do_post_read_request}
use byterpc.Service.{Service, Method}
use byterpc.Client.{Client, RpcResponse, receive_one, terminate, u64}
use byterpc.Client.Invariant.{Inv}
use byterpc.Client.Rounds.{close_cases}
use byterpc.Client.Safety.{register-length, Reach-Inv}
use byterpc.Server.{RpcRequest, Server}
use byterpc.Server.Answers.{tag}
use byterpc.Session.{
  Session, Step, sends, reaches, writes, fails, serves, answers, loses, receives, breaks, ends,
  closes, Reach, start, next, in_hand, unsent, underway,
}
use byterpc.Session.Tally.{one, tally}
use byterpc.Session.Calls.{call_method, receive_one-Dropped, fail_all-method}
use byterpc.Session.Underway.{at, Sound, moved-Sound, Dropped-Sound}
use byterpc.Session.Counting.{count_underway, Reach-Client, calls_grow}
use byterpc.Session.Requests.{
  sends-Sound, serves-Sound, answers-Sound, loses-Sound, reaches-Sound, writes-Sound, fails-Sound,
  unread-Sound,
}

module _ {ℓ} {A : Type ℓ} (run : Service → Method → RpcRequest → A × Option Error)
    (server : Server) where
  receives-Sound :
      (s : Session) (r : RpcResponse) (rest : List RpcResponse) (body : Option Error)
      → Inv s.client
      → s.to_client ≡ r ∷ rest
      → Sound s.client (underway run server s)
      → let t = record s { client = receive_one s.client (ok r) body; to_client = rest } in
        Sound t.client (underway run server t)
  receives-Sound s r rest body v h good =
      let (drop, still) = receive_one-Dropped s.client r body v.no_plugins in
      let t : Session = record s { client = receive_one s.client (ok r) body; to_client = rest } in
      let arrived : (p : Text × ℕ → Bool)
          → tally p (map (tag run) s.to_client) ≡ one p (tag run r) + tally p (map (tag run) rest) =
        λ p. ap (λ l. tally p (map (tag run) l)) h in
      Dropped-Sound s.client t.client r.seq (underway run server s) (underway run server t)
        (λ p. omega (
          arith,
          count_underway run server p s,
          count_underway run server p t,
          arrived p,
          ap (λ f. tally p (in_hand (unsent s.on_wire f) s.service_method)) still,
        ))
        (λ n kept. ground (
          arith,
          count_underway run server (at n) s,
          count_underway run server (at n) t,
          arrived (at n),
          ap (λ f. tally (at n) (in_hand (unsent s.on_wire f) s.service_method)) still,
          ==_iff n r.seq,
          ==_iff r.seq n,
        ))
        drop good

  -- A step of the client that leaves its map, the methods and the request in hand alone.
  quiet-Sound :
      (s : Session) (c : Client)
      → ((n : ℕ) → lookup n c.pending ≡ lookup n s.client.pending)
      → ((j : ℕ) → call_method (lookup j c.calls) ≡ call_method (lookup j s.client.calls))
      → c.seq ≡ s.client.seq
      → c.in_flight ≡ s.client.in_flight
      → Sound s.client (underway run server s)
      → Sound c (underway run server (record s { client = c }))
  quiet-Sound s c pending methods same_seq still good =
      moved-Sound s.client c (underway run server s) (underway run server (record s { client = c }))
        (λ p.
          ap
            (λ f.
              tally p
                (underway run server (record s { client = record s.client { in_flight = f } })))
            still)
        pending methods same_seq good

  step-Sound :
      {s t : Session}
      → do_pre_read_request server.plugin_manager ≢ panic
      → do_post_read_request server.plugin_manager ≢ panic
      → Inv s.client
      → length t.client.calls < u64
      → Step run server s t
      → Sound s.client (underway run server s)
      → Sound t.client (underway run server t)
  unfolding receive_one terminate
  step-Sound pre post v room (sends s id method cap call new idle made) good =
      sends-Sound run server s id call new idle v
        (omega (arith, register-length s.client id call new)) good
  step-Sound pre post v room (reaches s seq busy fresh open_yet) good =
      reaches-Sound run server s seq busy fresh good
  step-Sound pre post v room (writes s seq busy out) good = writes-Sound run server s seq out good
  step-Sound pre post v room (fails s seq e busy) good = fails-Sound run server s seq e busy good
  step-Sound pre post v room (serves s r rest body h) good =
      serves-Sound run server s r rest body pre post h good
  step-Sound pre post v room (answers s before after e h open_yet) good =
      answers-Sound run server s before after e h good
  step-Sound pre post v room (loses s before after e h) good =
      loses-Sound run server s before after e h good
  step-Sound pre post v room (receives s r rest body reads h) good =
      receives-Sound s r rest body v h good
  step-Sound pre post v room (breaks s e reads) good =
      quiet-Sound s _ (λ n. refl) (λ j. refl) refl refl good
  step-Sound pre post v room (ends s e h idle) good =
      quiet-Sound s _ (λ n. refl) (λ j. fail_all-method _ j s.client.pending s.client.calls) refl
        refl good
  step-Sound pre post v room (closes s answer buffered rest h first) good =
      let t = record s { to_client = buffered; lost = rest ++ s.lost } in
      let cut = unread-Sound run server s buffered rest h good in
      elim (close_cases s.client answer) [
        | inl unchanged ↦ rw unchanged cut
        | inr closed ↦ rw closed (quiet-Sound t _ (λ n. refl) (λ j. refl) refl refl cut)
      ]

  -- If no plugin panics and the client has had fewer than 2^64 calls, in every state that a
  -- connection gets to: no number is underway twice, counting the request that is being sent, the
  -- requests and responses on the wire, the jobs of the server and the lost
  -- responses, and none that has not been given; the number of a pending call is underway exactly
  -- once, with the method of that call.
  pub Reach-Sound :
      {s : Session}
      → do_pre_read_request server.plugin_manager ≢ panic
      → do_post_read_request server.plugin_manager ≢ panic
      → Reach run server s
      → length s.client.calls < u64
      → Sound s.client (underway run server s)
  Reach-Sound pre post start room = record {
    alone = λ n. omega arith;
    given = λ n h. refl;
    known = λ n id h. cc;
    right = λ n id h. cc;
  }
  Reach-Sound pre post (next {s} r st) room =
      let before : length s.client.calls < u64 = omega (arith, calls_grow run server r st) in
      step-Sound pre post (Reach-Inv (Reach-Client run server r) before) room st
        (Reach-Sound pre post r before)
