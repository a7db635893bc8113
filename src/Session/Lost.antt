-- ===== src/Session/Lost.antt =====
-- A response that nobody reads: the call waits for the end of the connection.
use byterpc.Common.{
  ℕ, ◌+◌, ◌<◌, ◌≤◌, ◌≡◌, ◌≢◌, ◌∙◌, ◌||◌, refl, ap, sym, List, [], ◌∷◌, ◌++◌, map, Option, none,
  some, ==_iff, Dict, lookup, lookup-insert, nat_eq, arith, Error, panic, inl, inr, Bool-cases,
  length,
}
use byterpc.Plugin.Server.{do_pre_read_request, do_post_read_request}
use byterpc.Service.{Service, Method}
use byterpc.Client.{Call, ended, RpcResponse, register, finish_write, receive_one, terminate, u64}
use byterpc.Client.Tally.{held, finished_of, present}
use byterpc.Client.Invariant.{Inv, register_refused, register_sent}
use byterpc.Client.Rounds.{close_cases}
use byterpc.Client.Safety.{Reach-Inv, calls_conserved}
use byterpc.Server.{RpcRequest, Server}
use byterpc.Server.Answers.{respond, tag}
use byterpc.Session.{
  Session, Step, sends, reaches, writes, fails, serves, answers, loses, receives, breaks, ends,
  closes, Reach, next, underway,
}
use byterpc.Session.Tally.{tally}
use byterpc.Session.Calls.{receive_one-Dropped, finish_write-Dropped}
use byterpc.Session.Underway.{at, Sound}
use byterpc.Session.Counting.{count_underway, tally-map-append, Reach-Client, calls_grow}
use byterpc.Session.Invariant.{Reach-Sound}

module _ {ℓ} {A : Type ℓ} (run : Service → Method → RpcRequest → A × Option Error)
    (server : Server) where
  -- What later steps lead to.
  pub data Onward (s : Session) : Session → Type 0 where
    here : Onward s s
    further : {t u : Session} → Onward s t → Step run server t u → Onward s u

  -- A pending number whose request has been written and whose response is among the lost ones.
  pub record IsLost (n id : ℕ) (s : Session) : Type 0 where
    pub pending : lookup n s.client.pending ≡ some id
    pub returned : s.client.in_flight ≢ some n
    pub lost : 1 ≤ tally (at n) (map (tag run) s.lost)

  register-pending :
      (s : Session) (n id j : ℕ) (call : Call)
      → Sound s.client (underway run server s)
      → lookup n s.client.pending ≡ some id
      → lookup n (register s.client j call).pending ≡ some id
  register-pending s n id j call good h =
      elim (Bool-cases (s.client.is_shut_down || s.client.closing)) [
        | inl refused ↦ rw (register_refused s.client j call refused) h
        | inr sent ↦ rw (register_sent s.client j call sent) (
            ground (
              arith,
              lookup-insert n s.client.seq j s.client.pending,
              good.known n id h,
              good.given n,
              ==_iff n s.client.seq,
            ))
      ]

  register-in_flight :
      (s : Session) (n id j : ℕ) (call : Call)
      → Sound s.client (underway run server s)
      → IsLost n id s
      → (register s.client j call).in_flight ≢ some n
  register-in_flight s n id j call good h =
      elim (Bool-cases (s.client.is_shut_down || s.client.closing)) [
        | inl refused ↦ rw (register_refused s.client j call refused) h.returned
        | inr sent ↦
            rw (register_sent s.client j call sent)
              (λ e. ground (arith, good.known n id h.pending, good.given n))
      ]

  step-IsLost :
      {s t : Session} (n id : ℕ)
      → Inv s.client
      → Sound s.client (underway run server s)
      → Step run server s t
      → IsLost n id s
      → IsLost n id t
  unfolding finish_write receive_one terminate
  step-IsLost n id v good (sends s j method room call new idle made) h = record {
    pending = register-pending s n id j call good h.pending;
    returned = register-in_flight s n id j call good h;
    lost = h.lost;
  }
  step-IsLost n id v good (reaches s seq busy fresh open_yet) h = record {
    pending = h.pending;
    returned = h.returned;
    lost = h.lost;
  }
  step-IsLost n id v good (writes s seq busy out) h = record {
    pending = h.pending;
    returned = λ e. cc;
    lost = h.lost;
  }
  step-IsLost n id v good (fails s seq e busy) h =
      let (drop, idle) = finish_write-Dropped s.client seq e in
      let other : n ≢ seq = λ q. h.returned (busy ∙ ap some (sym q)) in
      record {
        pending = drop.pending n ∙ ground (arith, h.pending, other, ==_iff n seq);
        returned = λ q. cc (idle, q);
        lost = h.lost;
      }
  step-IsLost n id v good (serves s r rest body q) h = record {
    pending = h.pending;
    returned = h.returned;
    lost = h.lost;
  }
  step-IsLost n id v good (answers s before after e q open_yet) h = record {
    pending = h.pending;
    returned = h.returned;
    lost = h.lost;
  }
  step-IsLost n id v good (loses s before after e q) h = record {
    pending = h.pending;
    returned = h.returned;
    lost = omega (arith, h.lost, tally-map-append (at n) (tag run) s.lost (respond run e ∷ []));
  }
  step-IsLost n id v good (receives s r rest body reads q) h =
      let (drop, still) = receive_one-Dropped s.client r body v.no_plugins in
      record {
        pending =
            drop.pending n
            ∙ ground (
              arith,
              h.pending,
              h.lost,
              good.alone n,
              count_underway run server (at n) s,
              ap (λ l. tally (at n) (map (tag run) l)) q,
              ==_iff n r.seq,
              ==_iff r.seq n,
            );
        returned = λ e. h.returned (sym still ∙ e);
        lost = h.lost;
      }
  step-IsLost n id v good (breaks s e reads) h = record {
    pending = h.pending;
    returned = h.returned;
    lost = h.lost;
  }
  step-IsLost n id v good (ends s e q idle) h = record {
    pending = h.pending;
    returned = h.returned;
    lost = h.lost;
  }
  step-IsLost n id v good (closes s answer buffered rest q first) h =
      let more : 1 ≤ tally (at n) (map (tag run) (rest ++ s.lost)) =
        omega (arith, h.lost, tally-map-append (at n) (tag run) rest s.lost) in
      elim (close_cases s.client answer) [
        | inl unchanged ↦
            rw unchanged (record { pending = h.pending; returned = h.returned; lost = more })
        | inr closed ↦
            rw closed (record { pending = h.pending; returned = h.returned; lost = more })
      ]

  Onward-Reach : {s t : Session} → Reach run server s → Onward s t → Reach run server t
  Onward-Reach r here = r
  Onward-Reach r (further o st) = next (Onward-Reach r o) st

  Onward-IsLost :
      {s t : Session} (n id : ℕ)
      → do_pre_read_request server.plugin_manager ≢ panic
      → do_post_read_request server.plugin_manager ≢ panic
      → Reach run server s
      → Onward s t
      → length t.client.calls < u64
      → IsLost n id s
      → IsLost n id t
  Onward-IsLost n id pre post r here room h = h
  Onward-IsLost n id pre post r (further {t} o st) room h =
      let before : length t.client.calls < u64 =
        omega (arith, calls_grow run server (Onward-Reach r o) st) in
      step-IsLost n id (Reach-Inv (Reach-Client run server (Onward-Reach r o)) before)
        (Reach-Sound run server pre post (Onward-Reach r o) before) st
        (Onward-IsLost n id pre post r o before h)

  held_pending : (n id : ℕ) (p : Dict ℕ ℕ) → lookup n p ≡ some id → 1 ≤ held id p
  held_pending n id [] h = cc
  held_pending n id ((m, j) ∷ p) h = ground (arith, held_pending n id p, ==_iff id j)

  -- If no plugin panics, and in a state that a connection gets to the response to a pending call,
  -- whose own write has returned, is lost, since the server could not write it or the client closed
  -- the connection before it read it, then after any further steps, as long as `receive` has not
  -- ended and the client has had fewer than 2^64 calls, the call is still pending and not finished.
  pub lost_waits :
      {s t : Session} (id : ℕ) (x : RpcResponse) (before after : List RpcResponse)
      → do_pre_read_request server.plugin_manager ≢ panic
      → do_post_read_request server.plugin_manager ≢ panic
      → Reach run server s
      → s.lost ≡ before ++ (x ∷ after)
      → lookup x.seq s.client.pending ≡ some id
      → s.client.in_flight ≢ some x.seq
      → Onward s t
      → length t.client.calls < u64
      → t.client.receiver ≢ ended
      → (lookup x.seq t.client.pending ≡ some id) × (finished_of (lookup id t.client.calls) ≡ 0)
  lost_waits {s} {t} id x before after pre post r lost waits returned o room open_yet =
      let counted : 1 ≤ tally (at x.seq) (map (tag run) s.lost) = ground (
        arith,
        ap (λ l. tally (at x.seq) (map (tag run) l)) lost,
        tally-map-append (at x.seq) (tag run) before (x ∷ after),
        ==_iff x.seq x.seq,
      ) in
      let h =
        Onward-IsLost x.seq id pre post r o room
          (record { pending = waits; returned = returned; lost = counted }) in
      (
        h.pending,
        still_open (lookup id t.client.calls)
            (calls_conserved (Reach-Client run server (Onward-Reach r o)) room open_yet id)
            (held_pending x.seq id t.client.pending h.pending),
      )
    where
      still_open :
          (c : Option Call)
          → held id t.client.pending + finished_of c ≡ present c
          → 1 ≤ held id t.client.pending
          → finished_of c ≡ 0
      still_open none e one_held = refl
      still_open (some c) e one_held = omega arith
