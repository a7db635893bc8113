-- ===== src/Client/Rounds.antt =====
-- The invariant of a client across a round of `receive`, its end, and `Close`.
use byterpc.Common.{
  ℕ, ◌+◌, ◌≡◌, ◌∙◌, refl, fun_ext, true, false, Option, none, some, if◌then◌else◌, ◌==◌, lookup,
  erase, nat_eq, arith, Error, length, inl, inr, Bool-cases, ◌⊎◌, Result, ok, err, panic,
  server_error,
}
use byterpc.Plugin.{new_manager}
use byterpc.Plugin.Client.{do_pre_read_response, do_post_read_response}
use byterpc.Client.{
  Client, Call, Receiver, reading, broken, RpcResponse, done, fail, update_call, drop_pending,
  receive_one, dispatch, body_error, set_body_error, receiver_after, final_error, terminate, close,
}
use byterpc.Client.Tally.{finished, finished-done, finished-fail, fail_all-Settled}
use byterpc.Client.Invariant.{
  Inv, Runs, Runs-Conserved, Conserved-Runs, Runs-AtEnd, length-fail_all,
}
use byterpc.Client.Sending.{drop_pending-receiver, drop_pending-Inv}

-- Another point of `receive`, before its end.
turn-Inv :
    (c : Client) (r : Receiver) → Runs c.receiver → Runs r → Inv c → Inv (record c { receiver = r })
turn-Inv c r runs runs' v = record {
  no_plugins = v.no_plugins;
  accounts = Conserved-Runs r _ _ runs' (Runs-Conserved c.receiver _ _ runs v.accounts);
  at_end = Runs-AtEnd r _ _ runs';
  distinct = v.distinct;
  below = v.below;
  counted = v.counted;
}

receiver_after-Runs : (e : Option Error) → Runs (receiver_after e)
receiver_after-Runs none = tt
receiver_after-Runs (some x) = tt

-- How a round finishes the call that it has found.
abbrev pub finish_with : RpcResponse → Option Error → Call → Call
finish_with r body call =
    if length r.error == 0
    then done (set_body_error body call)
    else fail (server_error r.error) call

finished-set_body_error :
    (body : Option Error) (call : Call) → finished (set_body_error body call) ≡ finished call
finished-set_body_error none call = refl
finished-set_body_error (some e) call = refl

finish_with-adds_one :
    (r : RpcResponse) (body : Option Error) (call : Call)
    → finished (finish_with r body call) ≡ finished call + 1
finish_with-adds_one r body call = elim (Bool-cases (length r.error == 0)) [
  | inl good ↦
      rw good
        (omega (arith, finished-done (set_body_error body call), finished-set_body_error body call))
  | inr bad ↦ rw bad (finished-fail (server_error r.error) call)
]

-- Where a round leaves `receive`. After a good response it goes on, whatever the body was.
abbrev pub round_receiver : Option ℕ → RpcResponse → Option Error → Receiver
round_receiver none r body = receiver_after (body_error body)
round_receiver (some id) r body =
    if length r.error == 0 then reading else receiver_after (body_error body)

round_receiver-Runs :
    (o : Option ℕ) (r : RpcResponse) (body : Option Error) → Runs (round_receiver o r body)
round_receiver-Runs none r body = receiver_after-Runs (body_error body)
round_receiver-Runs (some id) r body = elim (Bool-cases (length r.error == 0)) [
  | inl good ↦ rw good tt
  | inr bad ↦ rw bad (receiver_after-Runs (body_error body))
]

finish_with_good :
    (r : RpcResponse) (body : Option Error)
    → (length r.error == 0) ≡ true
    → finish_with r body ≡ (λ call. done (set_body_error body call))
finish_with_good r body good = fun_ext (λ call. rw good refl)

finish_with_bad :
    (r : RpcResponse) (body : Option Error)
    → (length r.error == 0) ≡ false
    → finish_with r body ≡ fail (server_error r.error)
finish_with_bad r body bad = fun_ext (λ call. rw bad refl)

bare_pre :
    (c : Client) → c.plugin_manager ≡ new_manager → do_pre_read_response c.plugin_manager ≡ ok tt
unfolding do_pre_read_response
bare_pre c bare = rw bare refl

bare_post :
    (c : Client) → c.plugin_manager ≡ new_manager → do_post_read_response c.plugin_manager ≡ ok tt
unfolding do_post_read_response
bare_post c bare = rw bare refl

receive_one-dispatch :
    (c : Client) (r : RpcResponse) (body : Option Error)
    → c.plugin_manager ≡ new_manager
    → receive_one c (ok r) body
      ≡ dispatch (record c { pending = erase r.seq c.pending }) (lookup r.seq c.pending) r body
unfolding receive_one
receive_one-dispatch c r body bare = rw (bare_pre c bare, receive_one) refl

dispatch_good :
    (c : Client) (id : ℕ) (r : RpcResponse) (body : Option Error)
    → c.plugin_manager ≡ new_manager
    → (length r.error == 0) ≡ true
    → dispatch c (some id) r body
      ≡ record c { calls = update_call id (finish_with r body) c.calls; receiver = reading }
dispatch_good c id r body bare good =
    rw (good, dispatch) (rw (bare_post c bare) (rw (finish_with_good r body good) refl))

dispatch_bad :
    (c : Client) (id : ℕ) (r : RpcResponse) (body : Option Error)
    → (length r.error == 0) ≡ false
    → dispatch c (some id) r body ≡ record c {
      calls = update_call id (finish_with r body) c.calls;
      receiver = receiver_after (body_error body);
    }
dispatch_bad c id r body bad = rw (bad, dispatch) (rw (finish_with_bad r body bad) refl)

-- Without plugins a round takes the call of the response's number out of the map and finishes it,
-- and no other.
pub receive_one-drop_pending :
    (c : Client) (r : RpcResponse) (body : Option Error)
    → c.plugin_manager ≡ new_manager
    → receive_one c (ok r) body ≡ record (drop_pending c r.seq (finish_with r body)) {
      receiver = round_receiver (lookup r.seq c.pending) r body;
    }
receive_one-drop_pending c r body bare =
    receive_one-dispatch c r body bare ∙ by_call (lookup r.seq c.pending) refl
  where
    round : Option ℕ → Client
    round o = record (drop_pending c r.seq (finish_with r body)) {
      receiver = round_receiver o r body;
    }

    by_call :
        (o : Option ℕ)
        → lookup r.seq c.pending ≡ o
        → dispatch (record c { pending = erase r.seq c.pending }) o r body ≡ round o
    by_call none e = rw (e, drop_pending) refl
    by_call (some id) e = elim (Bool-cases (length r.error == 0)) [
      | inl good ↦
          dispatch_good (record c { pending = erase r.seq c.pending }) id r body bare good
          ∙ rw (e, drop_pending) (rw good refl)
      | inr bad ↦
          dispatch_bad (record c { pending = erase r.seq c.pending }) id r body bad
          ∙ rw (e, drop_pending) (rw bad refl)
    ]

pub receive_one-Inv :
    (c : Client) (r : Result RpcResponse) (body : Option Error)
    → c.receiver ≡ reading
    → Inv c
    → Inv (receive_one c r body)
unfolding receive_one
receive_one-Inv c (err e) body h v = turn-Inv c (broken e) (rw h tt) tt v
receive_one-Inv c panic body h v = v
receive_one-Inv c (ok r) body h v = rw (receive_one-drop_pending c r body v.no_plugins) (
    turn-Inv _ _ (rw (drop_pending-receiver c r.seq (finish_with r body)) (rw h tt))
      (round_receiver-Runs (lookup r.seq c.pending) r body)
      (drop_pending-Inv c r.seq (finish_with r body) (finish_with-adds_one r body) (rw h tt) v))

pub terminate-Inv :
    (c : Client) (e : Error) → Runs c.receiver → c.in_flight ≡ none → Inv c → Inv (terminate c e)
unfolding terminate
terminate-Inv c e runs idle v = record {
  no_plugins = v.no_plugins;
  accounts =
      fail_all-Settled (final_error c.closing e) c.pending c.calls
        (Runs-Conserved c.receiver _ _ runs v.accounts);
  at_end = (refl, idle);
  distinct = v.distinct;
  below = v.below;
  counted = omega (arith, v.counted, length-fail_all (final_error c.closing e) c.pending c.calls);
}

closing-Inv : (c : Client) → Inv c → Inv (record c { closing = true })
closing-Inv c v = record {
  no_plugins = v.no_plugins;
  accounts = v.accounts;
  at_end = v.at_end;
  distinct = v.distinct;
  below = v.below;
  counted = v.counted;
}

pub close_cases :
    (c : Client) (answer : Result (Unit {0}))
    → ((close c answer).0 ≡ c) ⊎ ((close c answer).0 ≡ record c { closing = true })
unfolding close
close_cases c answer = elim (Bool-cases c.closing) [
  | inl again ↦ inl (ground arith)
  | inr first_time ↦ inr (ground arith)
]

pub close-Inv : (c : Client) (answer : Result (Unit {0})) → Inv c → Inv (close c answer).0
close-Inv c answer v = elim (close_cases c answer) [
  | inl same ↦ rw same v
  | inr closed ↦ rw closed (closing-Inv c v)
]
