-- ===== src/Client.antt =====
-- client.go: the client's fields, and one function for each method or part of one that runs
-- without a break. What the codec answers is an argument. A panic of a codec or a plugin ends the
-- process: the state after it means nothing. `request` is only scratch space under
-- `reqMutex` and is left out.
pub mod Steps
pub mod Tally
pub mod Invariant
pub mod Sending
pub mod Rounds
pub mod Safety
pub mod Answers
pub mod Delivery
pub mod Order
mod Tests
use byterpc.Common.{
  ℕ, ◌+◌, ◌-◌, ◌%◌, ◌^◌, ◌≡◌, Bool, true, false, ◌||◌, List, [], ◌∷◌, ◌++◌, Option, none, some,
  if◌then◌else◌, ◌==◌, length, Text, codes, Dict, lookup, insert, erase, nat_eq, Error, eof,
  unexpected_eof, shutdown, server_error, message, Result, ok, err, panic,
}
use byterpc.Utils.{error_text}
use byterpc.Plugin.{Manager, new_manager}
use byterpc.Plugin.Client.{do_pre_read_response, do_post_read_response}

-- `room` is the free space of the channel `Done`; `delivered` and `discarded` count the calls of
-- `done` that found space and those that did not.
pub record Call : Type 0 where
  pub service_method : Text
  pub error : Option Error
  pub room : ℕ
  pub delivered : ℕ
  pub discarded : ℕ

-- The goroutine of `receive`: in its loop, past it with an error, or at its end.
pub data Receiver : Type 0 where
  reading : Receiver
  broken : Error → Receiver
  ended : Receiver

-- The calls are kept by a number that stands for the pointer. `in_flight` is the sequence number
-- that `send` is writing while it holds `reqMutex`.
pub record Client : Type 0 where
  pub plugin_manager : Manager
  pub seq : ℕ
  pub pending : Dict ℕ ℕ
  pub closing : Bool
  pub is_shut_down : Bool
  pub calls : Dict ℕ Call
  pub in_flight : Option ℕ
  pub receiver : Receiver

pub record RpcResponse : Type 0 where
  pub service_method : Text
  pub seq : ℕ
  pub error : Text

-- `NewClientWithCodec`.
abbrev pub new_client : Client
new_client = record {
  plugin_manager = new_manager;
  seq = 0;
  pending = [];
  closing = false;
  is_shut_down = false;
  calls = [];
  in_flight = none;
  receiver = reading;
}

-- `call.done()`
unfoldable pub done : Call → Call
done c =
    if c.room == 0
    then record c { discarded = c.discarded + 1 }
    else record c { room = c.room - 1; delivered = c.delivered + 1 }

-- `call.Error = err; call.done()`
abbrev pub fail : Error → Call → Call
fail e c = done (record c { error = some e })

-- A write through the pointer to a call.
abbrev pub update_call : ℕ → (Call → Call) → Dict ℕ Call → Dict ℕ Call
update_call id f d = elim (lookup id d) [ none ↦ d | some c ↦ insert id (f c) d ]

abbrev pub u64 : ℕ
u64 = 2 ^ 64

-- The call that `Go` makes: a nil `done` is a channel with room for ten, and an unbuffered one
-- panics.
unfoldable pub go_call : Text → Option ℕ → Result Call
go_call method none =
    ok (record { service_method = method; error = none; room = 10; delivered = 0; discarded = 0 })
go_call method (some cap) =
    if cap == 0
    then panic
    else ok
        (record { service_method = method; error = none; room = cap; delivered = 0; discarded = 0 })

-- `Call`: the call that it makes, and what it returns once that is on its channel.
unfoldable pub sync_call : Text → Result Call
unfolding go_call
sync_call method = go_call method (some 1)

unfoldable pub sync_result : Call → Option (Option Error)
sync_result c = if c.delivered == 0 then none else some c.error

-- `send` up to the call of `WriteRequest`, for a call that stands under `id`.
unfoldable pub register : Client → ℕ → Call → Client
register c id call =
    if c.is_shut_down || c.closing
    then record c { calls = insert id (fail shutdown call) c.calls }
    else record c {
      calls = insert id call c.calls;
      pending = insert c.seq id c.pending;
      in_flight = some c.seq;
      seq = (c.seq + 1) % u64;
    }

-- `send` after `WriteRequest`, which returned an error or none.
abbrev pub drop_pending : Client → ℕ → (Call → Call) → Client
drop_pending c seq f = elim (lookup seq c.pending) [
  | none ↦ record c { pending = erase seq c.pending }
  | some id ↦ record c { pending = erase seq c.pending; calls = update_call id f c.calls }
]

unfoldable pub finish_write : Client → ℕ → Option Error → Client
finish_write c seq none = record c { in_flight = none }
finish_write c seq (some e) = drop_pending (record c { in_flight = none }) seq (fail e)

abbrev pub prefixed : Text → Error → Error
prefixed s e = message (s ++ error_text e)

abbrev pub receiver_after : Option Error → Receiver
receiver_after none = reading
receiver_after (some e) = broken e

-- The answers of the codec and of the plugins within one round of `receive`.
abbrev pub body_error : Option Error → Option Error
body_error none = none
body_error (some e) = some (prefixed (codes "reading error body: ") e)

abbrev pub set_body_error : Option Error → Call → Call
set_body_error none c = c
set_body_error (some e) c = record c { error = some (prefixed (codes "reading body ") e) }

abbrev pub post_error : Result (Unit {0}) → Option Error
post_error (ok _) = none
post_error (err e) = some (prefixed (codes "execute client PostReadResponse error:") e)
post_error panic = none

-- The switch of `receive`, after the call with the response's number has left the map.
abbrev pub dispatch : Client → Option ℕ → RpcResponse → Option Error → Client
dispatch c none r body = record c { receiver = receiver_after (body_error body) }
dispatch c (some id) r body =
    if length r.error == 0
    then record c {
      calls = update_call id (λ call. done (set_body_error body call)) c.calls;
      receiver = receiver_after (post_error (do_post_read_response c.plugin_manager));
    }
    else record c {
      calls = update_call id (fail (server_error r.error)) c.calls;
      receiver = receiver_after (body_error body);
    }

-- One round of the loop of `receive`: the header, and the answer of `ReadResponseBody`.
unfoldable pub receive_one : Client → Result RpcResponse → Option Error → Client
receive_one c (err e) body = record c { receiver = broken e }
receive_one c panic body = c
receive_one c (ok r) body =
    let found = lookup r.seq c.pending in
    let c' = record c { pending = erase r.seq c.pending } in
    elim (do_pre_read_response c.plugin_manager) [
      | ok _ ↦ dispatch c' found r body
      | err e ↦ record c' { receiver = broken e }
      | panic ↦ c'
    ]

-- `err == io.EOF` at the end of `receive`.
abbrev pub final_error : Bool → Error → Error
final_error closing eof = if closing then shutdown else unexpected_eof
final_error closing e = e

unfoldable pub fail_all : Error → Dict ℕ ℕ → Dict ℕ Call → Dict ℕ Call
fail_all e [] calls = calls
fail_all e ((s, id) ∷ pending) calls = fail_all e pending (update_call id (fail e) calls)

-- The end of `receive`, under both mutexes.
unfoldable pub terminate : Client → Error → Client
unfolding fail_all
terminate c e = record c {
  is_shut_down = true;
  calls = fail_all (final_error c.closing e) c.pending c.calls;
  receiver = ended;
}

-- `Close`, with the answer of the codec's `Close`.
unfoldable pub close : Client → Result (Unit {0}) → Client × Result (Unit {0})
close c answer = if c.closing then (c, err shutdown) else (record c { closing = true }, answer)
