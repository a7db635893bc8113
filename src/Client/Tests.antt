-- ===== src/Client/Tests.antt =====
-- A client that sends a call, gets its response and meets the end of the stream; the theorems there.
use byterpc.Common.{
  ◌+◌, ◌≡◌, refl, true, [], ◌∷◌, none, some, if◌then◌else◌, ◌==◌, codes, arith, lookup, nat_eq, eof,
  unexpected_eof, shutdown, ok, err, length,
}
use byterpc.Client.{
  Client, Call, reading, broken, RpcResponse, new_client, go_call, sync_result, register,
  finish_write, receive_one, terminate, done,
}
use byterpc.Client.Steps.{goes, writes, receives, ends, Reach, start, next}
use byterpc.Client.Tally.{held, finished_of, present}
use byterpc.Client.Safety.{calls_conserved, calls_settled}
use mathlib.Core.List.{Permᴰ}
use byterpc.Client.Order.{terminate-order}
use byterpc.Client.Delivery.{calls_delivered}
use byterpc.Client.Answers.{terminate_errors}

abbrev fresh_call : Call
fresh_call = record {
  service_method = codes "A.B";
  error = none;
  room = 1;
  delivered = 0;
  discarded = 0;
}

abbrev sent : Client
sent = register new_client 7 fresh_call

abbrev written : Client
written = finish_write sent 0 none

go_call-one : go_call (codes "A.B") (some 1) ≡ ok fresh_call
unfolding go_call
go_call-one = refl

in_flight-sent : sent.in_flight ≡ some 0
unfolding register
in_flight-sent = refl

written-Reach : Reach written
written-Reach =
    next (next start (goes new_client 7 (codes "A.B") (some 1) fresh_call refl refl go_call-one))
      (writes sent 0 none in_flight-sent)

abbrev reply : RpcResponse
reply = record { service_method = codes "A.B"; seq = 0; error = [] }

-- The stream ends before the response.
abbrev cut : Client
cut = receive_one written (err eof) none

receiver-written : written.receiver ≡ reading
unfolding register finish_write
receiver-written = refl

receiver-cut : cut.receiver ≡ broken eof
unfolding receive_one
receiver-cut = refl

in_flight-cut : cut.in_flight ≡ none
unfolding receive_one finish_write
in_flight-cut = refl

dead-Reach : Reach (terminate cut eof)
dead-Reach =
    next (next written-Reach (receives written (err eof) none receiver-written))
      (ends cut eof receiver-cut in_flight-cut)

calls_conserved_example :
    held 7 written.pending + finished_of (lookup 7 written.calls) ≡ present (lookup 7 written.calls)
unfolding register finish_write
calls_conserved_example = calls_conserved written-Reach (omega arith) (λ e. cc) 7

calls_settled_example :
    finished_of (lookup 7 (terminate cut eof).calls) ≡ present (lookup 7 (terminate cut eof).calls)
unfolding terminate receive_one register finish_write done
calls_settled_example = calls_settled dead-Reach (omega arith) refl 7

terminate_errors_example :
    (call' : Call) × (lookup 7 (terminate written eof).calls ≡ some call')
    × (call'.error ≡ (
        if held 7 written.pending == 0
        then none
        else some (if written.closing then shutdown else unexpected_eof)))
    × ((terminate written eof).is_shut_down ≡ true)
unfolding register finish_write
terminate_errors_example = terminate_errors written eof 7 fresh_call refl

abbrev failed_call : Call
failed_call = record fresh_call { error = some unexpected_eof; room = 0; delivered = 1 }

call-dead : lookup 7 (terminate cut eof).calls ≡ some failed_call
unfolding terminate receive_one register finish_write done
call-dead = refl

length-dead : length (terminate cut eof).calls ≡ 1
unfolding terminate receive_one register finish_write done
length-dead = refl

calls_delivered_example :
    (failed_call.delivered ≡ 1)
    × (failed_call.discarded ≡ 0)
    × (sync_result failed_call ≡ some (some unexpected_eof))
calls_delivered_example =
    calls_delivered dead-Reach (omega (arith, length-dead)) 7 failed_call call-dead (omega arith)

-- A client with two calls, whose map is visited from either end.
abbrev two_pending : Client
two_pending = record new_client {
  pending = (0, 7) ∷ (1, 8) ∷ [];
  calls = (7, fresh_call) ∷ (8, fresh_call) ∷ [];
}

terminate-order_example :
    lookup 8 (terminate two_pending eof).calls
    ≡ lookup 8 (terminate (record two_pending { pending = (1, 8) ∷ (0, 7) ∷ [] }) eof).calls
terminate-order_example =
    terminate-order two_pending ((1, 8) ∷ (0, 7) ∷ []) eof 8 (Permᴰ.swap refl refl)
