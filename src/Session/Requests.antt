-- ===== src/Session/Requests.antt =====
-- The requests of a session stay sound across the steps before a response is read.
use native.Mathlib.Nat.{mod-eq_of_lt}
use byterpc.Common.{
  insert, ℕ, ◌+◌, ◌%◌, ◌<◌, ◌≡◌, ◌≢◌, ◌||◌, ◌∙◌, refl, ap, true, false, List, [], ◌∷◌, ◌++◌, map,
  Option, none, some, ==_iff, lookup, nat_eq, arith, Error, panic, inl, inr, shutdown, Bool-cases,
  length,
}
use byterpc.Plugin.Server.{do_pre_read_request, do_post_read_request}
use byterpc.Service.{Service, Method}
use byterpc.Client.{Client, Call, RpcResponse, register, finish_write, fail, u64}
use byterpc.Client.Invariant.{Inv, register_refused, register_sent}
use byterpc.Server.{RpcRequest, Server}
use byterpc.Server.Loop.{Event, serve_codec}
use byterpc.Server.Answers.{respond, tag, serve_codec_answers}
use byterpc.Session.{Session, sent_tag, underway, request, unsent}
use byterpc.Session.Tally.{tally}
use byterpc.Session.Calls.{finish_write-Dropped}
use byterpc.Session.Underway.{at, Sound, moved-Sound, Dropped-Sound, refused-Sound, sent-Sound}
use byterpc.Session.Counting.{
  tally-map-append, tally-idle, tally-in_hand, tally-unsent, unsent-idle, count_underway,
}

module _ {ℓ} {A : Type ℓ} (run : Service → Method → RpcRequest → A × Option Error)
    (server : Server) where
  pub sends-Sound :
      (s : Session) (id : ℕ) (call : Call)
      → lookup id s.client.calls ≡ none
      → s.client.in_flight ≡ none
      → Inv s.client
      → length s.client.calls + 1 < u64
      → Sound s.client (underway run server s)
      → let t = record s {
        client = register s.client id call;
        service_method = call.service_method;
        on_wire = false;
      } in
        Sound t.client (underway run server t)
  sends-Sound s id call new idle v room good =
      elim (Bool-cases (s.client.is_shut_down || s.client.closing)) [
        | inl refused ↦ rw (register_refused s.client id call refused) (
            moved-Sound _ _ _ _
              (λ p. omega (
                arith,
                count_underway run server p s,
                tally-idle p (unsent s.on_wire s.client.in_flight) s.service_method
                    (unsent-idle s.on_wire s.client.in_flight idle),
                count_underway run server p (record s {
                  client = record s.client {
                    calls = insert id (fail shutdown call) s.client.calls;
                  };
                  service_method = call.service_method;
                  on_wire = false;
                }),
                tally-idle p s.client.in_flight call.service_method idle,
              ))
              (λ n. refl) (λ j. refl) refl
              (refused-Sound s.client
                (record s.client { calls = insert id (fail shutdown call) s.client.calls }) id
                (fail shutdown call) (underway run server s) new refl refl refl good))
        | inr sent ↦
            let no_wrap : (s.client.seq + 1) % u64 ≡ s.client.seq + 1 =
              mod-eq_of_lt (omega (arith, v.counted)) in
            let c : Client = record s.client {
              calls = insert id call s.client.calls;
              pending = insert s.client.seq id s.client.pending;
              in_flight = some s.client.seq;
              seq = (s.client.seq + 1) % u64;
            } in
            rw (register_sent s.client id call sent) (
              sent-Sound s.client c id call (underway run server s)
                (underway run server
                  (record s { client = c; service_method = call.service_method; on_wire = false }))
                new refl refl no_wrap
                (λ p. omega (
                  arith,
                  count_underway run server p s,
                  tally-idle p (unsent s.on_wire s.client.in_flight) s.service_method
                      (unsent-idle s.on_wire s.client.in_flight idle),
                  count_underway run server p (record s {
                    client = c;
                    service_method = call.service_method;
                    on_wire = false;
                  }),
                  tally-in_hand p c.in_flight call.service_method s.client.seq refl,
                ))
                good)
      ]

  pub serves-Sound :
      (s : Session) (r : RpcRequest) (rest : List RpcRequest) (body : Option Error)
      → do_pre_read_request server.plugin_manager ≢ panic
      → do_post_read_request server.plugin_manager ≢ panic
      → s.to_server ≡ r ∷ rest
      → Sound s.client (underway run server s)
      → let t = record s {
        to_server = rest;
        jobs = s.jobs ++ (serve_codec server ((inr r, body) ∷ [])).0;
      } in
        Sound t.client (underway run server t)
  serves-Sound s r rest body pre post h good =
      let events = (serve_codec server ((inr r, body) ∷ [])).0 in
      let t = record s { to_server = rest; jobs = s.jobs ++ events } in
      moved-Sound s.client s.client (underway run server s) (underway run server t)
        (λ p. omega (
          arith,
          count_underway run server p s,
          count_underway run server p t,
          ap (λ l. tally p (map sent_tag l)) h,
          tally-map-append p (λ e. tag run (respond run e)) s.jobs events,
          ap (tally p) (serve_codec_answers run server ((inr r, body) ∷ []) pre post).0,
        ))
        (λ n. refl) (λ j. refl) refl good

  pub answers-Sound :
      (s : Session) (before after : List Event) (e : Event)
      → s.jobs ≡ before ++ (e ∷ after)
      → Sound s.client (underway run server s)
      → let t = record s {
        jobs = before ++ after;
        to_client = s.to_client ++ (respond run e ∷ []);
      } in
        Sound t.client (underway run server t)
  answers-Sound s before after e h good =
      let t = record s {
        jobs = before ++ after;
        to_client = s.to_client ++ (respond run e ∷ []);
      } in
      moved-Sound s.client s.client (underway run server s) (underway run server t)
        (λ p. omega (
          arith,
          count_underway run server p s,
          count_underway run server p t,
          ap (λ l. tally p (map (λ e. tag run (respond run e)) l)) h,
          tally-map-append p (λ e. tag run (respond run e)) before (e ∷ after),
          tally-map-append p (λ e. tag run (respond run e)) before after,
          tally-map-append p (tag run) s.to_client (respond run e ∷ []),
        ))
        (λ n. refl) (λ j. refl) refl good

  pub loses-Sound :
      (s : Session) (before after : List Event) (e : Event)
      → s.jobs ≡ before ++ (e ∷ after)
      → Sound s.client (underway run server s)
      → let t = record s { jobs = before ++ after; lost = s.lost ++ (respond run e ∷ []) } in
        Sound t.client (underway run server t)
  loses-Sound s before after e h good =
      let t = record s { jobs = before ++ after; lost = s.lost ++ (respond run e ∷ []) } in
      moved-Sound s.client s.client (underway run server s) (underway run server t)
        (λ p. omega (
          arith,
          count_underway run server p s,
          count_underway run server p t,
          ap (λ l. tally p (map (λ e. tag run (respond run e)) l)) h,
          tally-map-append p (λ e. tag run (respond run e)) before (e ∷ after),
          tally-map-append p (λ e. tag run (respond run e)) before after,
          tally-map-append p (tag run) s.lost (respond run e ∷ []),
        ))
        (λ n. refl) (λ j. refl) refl good

  pub reaches-Sound :
      (s : Session) (seq : ℕ)
      → s.client.in_flight ≡ some seq
      → s.on_wire ≡ false
      → Sound s.client (underway run server s)
      → let t = record s {
        on_wire = true;
        to_server = s.to_server ++ (request s.service_method seq ∷ []);
      } in
        Sound t.client (underway run server t)
  reaches-Sound s seq busy fresh good =
      let t = record s {
        on_wire = true;
        to_server = s.to_server ++ (request s.service_method seq ∷ []);
      } in
      moved-Sound s.client s.client (underway run server s) (underway run server t)
        (λ p. omega (
          arith,
          count_underway run server p s,
          count_underway run server p t,
          tally-in_hand p (unsent s.on_wire s.client.in_flight) s.service_method seq
              (ap (λ w. unsent w s.client.in_flight) fresh ∙ busy),
          tally-map-append p sent_tag s.to_server (request s.service_method seq ∷ []),
        ))
        (λ n. refl) (λ j. refl) refl good

  pub writes-Sound :
      (s : Session) (seq : ℕ)
      → s.on_wire ≡ true
      → Sound s.client (underway run server s)
      → let t = record s { client = finish_write s.client seq none; on_wire = false } in
        Sound t.client (underway run server t)
  unfolding finish_write
  writes-Sound s seq out good =
      let t = record s { client = record s.client { in_flight = none }; on_wire = false } in
      moved-Sound s.client t.client (underway run server s) (underway run server t)
        (λ p. omega (
          arith,
          count_underway run server p s,
          count_underway run server p t,
          tally-idle p (unsent s.on_wire s.client.in_flight) s.service_method
              (ap (λ w. unsent w s.client.in_flight) out),
        ))
        (λ n. refl) (λ j. refl) refl good

  pub fails-Sound :
      (s : Session) (seq : ℕ) (e : Error)
      → s.client.in_flight ≡ some seq
      → Sound s.client (underway run server s)
      → let t = record s { client = finish_write s.client seq (some e); on_wire = false } in
        Sound t.client (underway run server t)
  fails-Sound s seq e busy good =
      let (drop, idle) = finish_write-Dropped s.client seq e in
      let t : Session = record s { client = finish_write s.client seq (some e); on_wire = false } in
      Dropped-Sound s.client t.client seq (underway run server s) (underway run server t)
        (λ p. ground (
          arith,
          count_underway run server p s,
          count_underway run server p t,
          tally-unsent p s.on_wire s.client.in_flight s.service_method seq busy,
          tally-idle p t.client.in_flight s.service_method idle,
        ))
        (λ n kept. ground (
          arith,
          count_underway run server (at n) s,
          count_underway run server (at n) t,
          tally-unsent (at n) s.on_wire s.client.in_flight s.service_method seq busy,
          tally-idle (at n) t.client.in_flight s.service_method idle,
          ==_iff n seq,
          ==_iff seq n,
        ))
        drop good

  -- Responses that are no longer to be read.
  pub unread-Sound :
      (s : Session) (buffered rest : List RpcResponse)
      → s.to_client ≡ buffered ++ rest
      → Sound s.client (underway run server s)
      → let t = record s { to_client = buffered; lost = rest ++ s.lost } in
        Sound t.client (underway run server t)
  unread-Sound s buffered rest h good =
      let t = record s { to_client = buffered; lost = rest ++ s.lost } in
      moved-Sound s.client s.client (underway run server s) (underway run server t)
        (λ p. omega (
          arith,
          count_underway run server p s,
          count_underway run server p t,
          ap (λ l. tally p (map (tag run) l)) h,
          tally-map-append p (tag run) buffered rest,
          tally-map-append p (tag run) rest s.lost,
        ))
        (λ n. refl) (λ j. refl) refl good
