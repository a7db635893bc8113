-- ===== src/Session/Tests.antt =====
-- A connection with one call, which the server answers; the theorems there.
use byterpc.Common.{
  ℕ, ◌+◌, ◌≡◌, ◌≢◌, refl, true, false, [], ◌∷◌, Option, none, some, codes, lookup, nat_eq, arith,
  Error, ok, inr,
}
use byterpc.Plugin.Server.{do_pre_read_request, do_post_read_request}
use byterpc.Plugin.Client.{do_pre_read_response, do_post_read_response}
use byterpc.Client.{receive_one, Call, reading, ended, go_call, register, finish_write}
use byterpc.Client.Tally.{finished_of, present}
use byterpc.Server.Loop.{Event, calls, serve_codec, call}
use byterpc.Server.Answers.{respond}
use byterpc.Server.Tests.{
  times, arith_service, one_service, results, no_panic_before, no_panic_after,
}
use byterpc.Session.{
  Session, sends, reaches, writes, serves, answers, loses, receives, Reach, start, next,
  new_session, request, underway,
}
use byterpc.Session.Calls.{call_method}
use byterpc.Session.Underway.{Sound}
use byterpc.Session.Invariant.{Reach-Sound}
use byterpc.Session.Results.{response-request, quiet_settled}
use byterpc.Session.Lost.{Onward, lost_waits}
use byterpc.Session.Carrying.{Carried, stay, then_step}
use byterpc.Session.Draining.{steps, work, CanGo, calls_drain}

abbrev multiplies : Call
multiplies = record {
  service_method = codes "Arith.Multiply";
  error = none;
  room = 10;
  delivered = 0;
  discarded = 0;
}

made : go_call (codes "Arith.Multiply") none ≡ ok multiplies
unfolding go_call
made = refl

abbrev sent : Session
sent = record new_session {
  client = register new_session.client 7 multiplies;
  service_method = codes "Arith.Multiply";
}

in_flight-sent : sent.client.in_flight ≡ some 0
unfolding register
in_flight-sent = refl

-- The request is on the wire, and then `WriteRequest` returns.
abbrev out : Session
out = record sent { on_wire = true; to_server = request (codes "Arith.Multiply") 0 ∷ [] }

abbrev asked : Session
asked = record out { client = finish_write sent.client 0 none; on_wire = false }

abbrev job : Event
job = calls arith_service times (request (codes "Arith.Multiply") 0)

job_made :
    (serve_codec one_service ((inr (request (codes "Arith.Multiply") 0), none) ∷ [])).0 ≡ job ∷ []
unfolding serve_codec do_pre_read_request do_post_read_request
job_made = refl

abbrev served : Session
served = record asked {
  to_server = [];
  jobs = (serve_codec one_service ((inr (request (codes "Arith.Multiply") 0), none) ∷ [])).0;
}

abbrev answered : Session
answered = record served { jobs = []; to_client = respond results job ∷ [] }

out-Reach : Reach results one_service out
unfolding register
out-Reach =
    next (next start (sends new_session 7 (codes "Arith.Multiply") none multiplies refl refl made))
      (reaches sent 0 in_flight-sent refl refl)

asked-Reach : Reach results one_service asked
asked-Reach = next out-Reach (writes out 0 in_flight-sent refl)

open-asked : asked.client.closing ≡ false
unfolding register finish_write
open-asked = refl

answered-Reach : Reach results one_service answered
answered-Reach =
    next (next asked-Reach (serves asked (request (codes "Arith.Multiply") 0) [] none refl))
      (answers served [] [] job job_made open-asked)

seq-answer : (respond results job).seq ≡ 0
unfolding call
seq-answer = refl

Reach-Sound_example : Sound answered.client (underway results one_service answered)
unfolding register finish_write
Reach-Sound_example =
    Reach-Sound results one_service no_panic_before no_panic_after answered-Reach (omega arith)

response-request_example :
    (body : Option Error) × ((e : Event) × ((serve_codec one_service
          ((inr (request (codes "Arith.Multiply") 0), body) ∷ [])).0
        ≡ e ∷ [])
      × (respond results job ≡ respond results e))
unfolding register finish_write call
response-request_example =
    response-request results one_service no_panic_before no_panic_after (respond results job) [] 7
      multiplies answered-Reach (omega arith) refl refl refl

abbrev finished : Session
finished = record answered {
  client = receive_one answered.client (ok (respond results job)) none;
  to_client = [];
}

reads-answered : answered.client.receiver ≡ reading
unfolding register finish_write
reads-answered = refl

in_flight-finished : finished.client.in_flight ≡ none
unfolding register finish_write receive_one call do_pre_read_response do_post_read_response
in_flight-finished = refl

finished-Reach : Reach results one_service finished
finished-Reach =
    next answered-Reach (receives answered (respond results job) [] none reads-answered refl)

quiet_settled_example :
    ((n : ℕ) → lookup n finished.client.pending ≡ none)
    × ((id : ℕ)
        → finished_of (lookup id finished.client.calls) ≡ present (lookup id finished.client.calls))
unfolding register finish_write receive_one call do_pre_read_response do_post_read_response
quiet_settled_example =
    quiet_settled results one_service no_panic_before no_panic_after finished-Reach (omega arith)
      in_flight-finished refl refl refl refl

-- The write has returned; the server, its job and the client have three steps to make.
abbrev returned : Carried results one_service out asked
returned = then_step stay (writes out 0 in_flight-sent refl) tt

calls_drain_example :
    (steps results one_service returned + work asked ≡ work out)
    × (work asked ≢ 0 → CanGo results one_service asked)
    × (work asked ≡ 0
        → (asked.client.receiver ≡ reading)
          × ((id : ℕ)
              → (call_method (lookup id asked.client.calls)
                  ≡ call_method (lookup id out.client.calls))
                × (finished_of (lookup id asked.client.calls)
                    ≡ present (lookup id out.client.calls))))
unfolding register
calls_drain_example =
    calls_drain results one_service no_panic_before no_panic_after out-Reach (omega arith) refl refl
      refl returned

work-asked : work asked ≡ 3
unfolding register finish_write
work-asked = refl

-- The response is lost, and the connection goes on.
abbrev unheard : Session
unheard = record served { jobs = []; lost = respond results job ∷ [] }

unheard-Reach : Reach results one_service unheard
unheard-Reach =
    next (next asked-Reach (serves asked (request (codes "Arith.Multiply") 0) [] none refl))
      (loses served [] [] job job_made)

receiver-unheard : unheard.client.receiver ≢ ended
unfolding register finish_write
receiver-unheard h = cc

returned-unheard : unheard.client.in_flight ≢ some (respond results job).seq
unfolding register finish_write
returned-unheard h = cc

lost_waits_example :
    (lookup (respond results job).seq unheard.client.pending ≡ some 7)
    × (finished_of (lookup 7 unheard.client.calls) ≡ 0)
unfolding register finish_write call
lost_waits_example =
    lost_waits results one_service 7 (respond results job) [] [] no_panic_before no_panic_after
      unheard-Reach refl refl returned-unheard Onward.here (omega arith) receiver-unheard
