-- ===== src/Client/Delivery.antt =====
-- A call that is finished has been put on its channel: `Go` makes room for it.
use byterpc.Common.{
  ℕ, ◌+◌, ◌≡◌, ◌<◌, ◌≤◌, ◌⊎◌, refl, [], ◌∷◌, Option, none, some, ◌==◌, ==_iff, ◌||◌, Text, Dict,
  lookup, nat_eq, AllEntries, AllEntries-insert, AllEntries-lookup, arith, Error, shutdown, length,
  inl, inr, Bool-cases, Option-cases, ok, err, panic,
}
use byterpc.Plugin.{new_manager}
use byterpc.Client.{
  Client, Call, Receiver, reading, broken, ended, RpcResponse, u64, done, fail, update_call,
  go_call, sync_result, register, drop_pending, finish_write, set_body_error, receive_one, fail_all,
  terminate,
}
use byterpc.Client.Steps.{Step, goes, writes, receives, ends, closes, Reach, start, next}
use byterpc.Client.Tally.{finished, finished_of, present}
use byterpc.Client.Invariant.{register_refused, register_sent}
use byterpc.Client.Rounds.{receive_one-drop_pending, finish_with, close_cases}
use byterpc.Client.Safety.{Reach-plugins, calls_conserved, calls_settled}

-- There is room on the channel, or the call has been put there; it is thrown away only after that.
abbrev IsHeard : Call → Type 0
IsHeard c = (1 ≤ c.room + c.delivered) × ((c.discarded ≡ 0) ⊎ (1 ≤ c.delivered))

abbrev AllHeard : Dict ℕ Call → Type 0
AllHeard d = AllEntries (λ (id : ℕ) (c : Call). IsHeard c) d

done-IsHeard : (c : Call) → IsHeard c → IsHeard (done c)
unfolding done
done-IsHeard c h = elim (Bool-cases (c.room == 0)) [
  | inl full ↦ rw full (ground (arith, ==_iff c.room 0), inr (ground (arith, ==_iff c.room 0)))
  | inr free ↦ rw free (ground (arith, ==_iff c.room 0), inr (omega arith))
]

fail-IsHeard : (e : Error) (c : Call) → IsHeard c → IsHeard (fail e c)
fail-IsHeard e c h = done-IsHeard (record c { error = some e }) h

finish_with-IsHeard :
    (r : RpcResponse) (body : Option Error) (c : Call) → IsHeard c → IsHeard (finish_with r body c)
finish_with-IsHeard r body c h = elim (Bool-cases (length r.error == 0)) [
  | inl good ↦ rw good (read body)
  | inr bad ↦ rw bad (fail-IsHeard _ c h)
]
  where
    read : (body : Option Error) → IsHeard (done (set_body_error body c))
    read none = done-IsHeard c h
    read (some e) = done-IsHeard (set_body_error (some e) c) h

update_call-AllHeard :
    (id : ℕ) (f : Call → Call) (d : Dict ℕ Call)
    → ((c : Call) → IsHeard c → IsHeard (f c))
    → AllHeard d
    → AllHeard (update_call id f d)
update_call-AllHeard id f d keeps h = elim (Option-cases (lookup id d)) [
  | inl missing ↦ rw (missing, update_call) h
  | inr (c, found) ↦
      rw (found, update_call)
        (AllEntries-insert (λ (id : ℕ) (c : Call). IsHeard c) id (f c) d
          (keeps c (AllEntries-lookup (λ (id : ℕ) (c : Call). IsHeard c) id c d h found)) h)
]

drop_pending-AllHeard :
    (c : Client) (seq : ℕ) (f : Call → Call)
    → ((c : Call) → IsHeard c → IsHeard (f c))
    → AllHeard c.calls
    → AllHeard (drop_pending c seq f).calls
drop_pending-AllHeard c seq f keeps h = elim (Option-cases (lookup seq c.pending)) [
  | inl missing ↦ rw (missing, drop_pending) h
  | inr (id, found) ↦ rw (found, drop_pending) (update_call-AllHeard id f c.calls keeps h)
]

fail_all-AllHeard :
    (e : Error) (p : Dict ℕ ℕ) (d : Dict ℕ Call) → AllHeard d → AllHeard (fail_all e p d)
unfolding fail_all
fail_all-AllHeard e [] d h = h
fail_all-AllHeard e ((s, id) ∷ p) d h =
    fail_all-AllHeard e p (update_call id (fail e) d)
      (update_call-AllHeard id (fail e) d (fail-IsHeard e) h)

go_call-IsHeard :
    (method : Text) (cap : Option ℕ) (call : Call) → go_call method cap ≡ ok call → IsHeard call
unfolding go_call
go_call-IsHeard method none call h = ground arith
go_call-IsHeard method (some cap) call h = ground (arith, ==_iff cap 0)

register-AllHeard :
    (c : Client) (id : ℕ) (call : Call)
    → IsHeard call
    → AllHeard c.calls
    → AllHeard (register c id call).calls
register-AllHeard c id call new h = elim (Bool-cases (c.is_shut_down || c.closing)) [
  | inl refused ↦ rw (register_refused c id call refused) (
      AllEntries-insert (λ (id : ℕ) (c : Call). IsHeard c) id (fail shutdown call) c.calls
        (fail-IsHeard shutdown call new) h)
  | inr sent ↦
      rw (register_sent c id call sent)
        (AllEntries-insert (λ (id : ℕ) (c : Call). IsHeard c) id call c.calls new h)
]

step-AllHeard :
    {c d : Client} → c.plugin_manager ≡ new_manager → Step c d → AllHeard c.calls → AllHeard d.calls
unfolding finish_write receive_one terminate
step-AllHeard bare (goes c id method cap call e idle made) h =
    register-AllHeard c id call (go_call-IsHeard method cap call made) h
step-AllHeard bare (writes c seq none f) h = h
step-AllHeard bare (writes c seq (some x) f) h =
    drop_pending-AllHeard (record c { in_flight = none }) seq (fail x) (fail-IsHeard x) h
step-AllHeard bare (receives c (err e) body q) h = h
step-AllHeard bare (receives c panic body q) h = h
step-AllHeard bare (receives c (ok r) body q) h =
    rw (receive_one-drop_pending c r body bare)
      (drop_pending-AllHeard c r.seq (finish_with r body) (finish_with-IsHeard r body) h)
step-AllHeard bare (ends c e q f) h = fail_all-AllHeard _ c.pending c.calls h
step-AllHeard bare (closes c answer) h = elim (close_cases c answer) [
  | inl same ↦ rw same h
  | inr closed ↦ rw closed h
]

Reach-AllHeard : {c : Client} → Reach c → AllHeard c.calls
Reach-AllHeard start = tt
Reach-AllHeard (next r st) = step-AllHeard (Reach-plugins r) st (Reach-AllHeard r)

finished_once :
    {c : Client}
    → Reach c
    → length c.calls < u64
    → (id : ℕ) → finished_of (lookup id c.calls) ≤ present (lookup id c.calls)
finished_once {c} r room id = by_receiver c.receiver refl
  where
    by_receiver :
        (x : Receiver)
        → c.receiver ≡ x
        → finished_of (lookup id c.calls) ≤ present (lookup id c.calls)
    by_receiver reading e = omega (arith, calls_conserved r room (λ q. cc) id)
    by_receiver (broken x) e = omega (arith, calls_conserved r room (λ q. cc) id)
    by_receiver ended e = omega (arith, calls_settled r room e id)

-- For a client that has had fewer than 2^64 calls, each with a channel of its own, without plugins,
-- under every interleaving: a call that has been finished has been put on its channel exactly once,
-- has never been thrown away for want of room, and a `Call` that waits for it returns its error.
pub calls_delivered :
    {c : Client}
    → Reach c
    → length c.calls < u64
    → (id : ℕ) (call : Call) → lookup id c.calls ≡ some call
    → 1 ≤ finished call
    → (call.delivered ≡ 1) × (call.discarded ≡ 0) × (sync_result call ≡ some call.error)
unfolding sync_result
calls_delivered {c} r room id call known once =
    let heard =
      AllEntries-lookup (λ (id : ℕ) (c : Call). IsHeard c) id call c.calls (Reach-AllHeard r)
        known in
    let at_most : finished call ≤ 1 = ground (arith, finished_once r room id, known) in ground arith
