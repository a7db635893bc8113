-- ===== src/Client/Safety.antt =====
-- What the invariant says of every state that a client can get to.
use byterpc.Common.{
  length-insert_new, ℕ, ◌+◌, ◌≡◌, ◌≢◌, ◌<◌, ◌≤◌, ◌∙◌, refl, subst, none, some, ◌||◌, lookup, nat_eq,
  arith, length, inl, inr, Bool-cases, Option-cases, ok, err, panic,
}
use byterpc.Plugin.{new_manager}
use byterpc.Client.{
  Client, Call, Receiver, reading, broken, ended, u64, register, finish_write, drop_pending,
  receive_one, terminate, fail,
}
use byterpc.Client.Steps.{Step, goes, writes, receives, ends, closes, Reach, start, next}
use byterpc.Client.Tally.{held, finished_of, present, Conserved, Settled}
use byterpc.Client.Invariant.{
  Inv, Accounts, new_client-Inv, register-Inv, length-update_call, length-fail_all,
  go_call-finished,
}
use byterpc.Client.Rounds.{
  receive_one-Inv, terminate-Inv, close-Inv, close_cases, receive_one-drop_pending,
}
use byterpc.Client.Sending.{finish_write-Inv}

-- No step forgets a call.
pub register-length :
    (c : Client) (id : ℕ) (call : Call)
    → lookup id c.calls ≡ none
    → length (register c id call).calls ≡ length c.calls + 1
unfolding register
register-length c id call e = elim (Bool-cases (c.is_shut_down || c.closing)) [
  | inl refused ↦ rw refused (length-insert_new id _ c.calls e)
  | inr sent ↦ rw sent (length-insert_new id call c.calls e)
]

pub drop_pending-length :
    (c : Client) (seq : ℕ) (f : Call → Call) → length (drop_pending c seq f).calls ≡ length c.calls
drop_pending-length c seq f = elim (Option-cases (lookup seq c.pending)) [
  | inl missing ↦ rw (missing, drop_pending) refl
  | inr (id, found) ↦ rw (found, drop_pending) (length-update_call id f c.calls)
]

pub step-length :
    {c d : Client} → c.plugin_manager ≡ new_manager → Step c d → length c.calls ≤ length d.calls
unfolding finish_write receive_one terminate
step-length v (goes c id method cap call e idle made) = omega (arith, register-length c id call e)
step-length v (writes c seq none f) = omega arith
step-length v (writes c seq (some x) f) =
    omega (arith, drop_pending-length (record c { in_flight = none }) seq (fail x))
step-length v (receives c (err e) body h) = omega arith
step-length v (receives c panic body h) = omega arith
step-length v (receives c (ok r) body h) =
    rw (receive_one-drop_pending c r body v) (omega (arith, drop_pending-length c r.seq _))
step-length v (ends c e h f) = omega (arith, length-fail_all _ c.pending c.calls)
step-length v (closes c answer) = elim (close_cases c answer) [
  | inl same ↦ rw same (omega arith)
  | inr closed ↦ rw closed (omega arith)
]

drop_pending-plugins :
    (c : Client) (seq : ℕ) (f : Call → Call)
    → (drop_pending c seq f).plugin_manager ≡ c.plugin_manager
drop_pending-plugins c seq f = ground arith

step-plugins :
    {c d : Client} → Step c d → c.plugin_manager ≡ new_manager → d.plugin_manager ≡ new_manager
unfolding register finish_write receive_one terminate
step-plugins (goes c id method cap call e idle made) v = ground arith
step-plugins (writes c seq none f) v = v
step-plugins (writes c seq (some x) f) v =
    drop_pending-plugins (record c { in_flight = none }) seq (fail x) ∙ v
step-plugins (receives c (err e) body h) v = v
step-plugins (receives c panic body h) v = v
step-plugins (receives c (ok r) body h) v =
    rw (receive_one-drop_pending c r body v) (drop_pending-plugins c r.seq _ ∙ v)
step-plugins (ends c e h f) v = v
step-plugins (closes c answer) v = elim (close_cases c answer) [
  | inl same ↦ rw same v
  | inr closed ↦ rw closed v
]

pub Reach-plugins : {c : Client} → Reach c → c.plugin_manager ≡ new_manager
Reach-plugins start = refl
Reach-plugins (next r st) = step-plugins st (Reach-plugins r)

Step-Inv : {c d : Client} → length d.calls < u64 → Step c d → Inv c → Inv d
Step-Inv room (goes c id method cap call e idle made) v =
    register-Inv c id call v e (go_call-finished method cap call made)
      (omega (arith, register-length c id call e))
Step-Inv room (writes c seq answer f) v = finish_write-Inv c seq answer f v
Step-Inv room (receives c r body h) v = receive_one-Inv c r body h v
Step-Inv room (ends c e h f) v = terminate-Inv c e (rw h tt) f v
Step-Inv room (closes c answer) v = close-Inv c answer v

-- Every state that a client gets to with fewer than 2^64 calls is sound.
pub Reach-Inv : {c : Client} → Reach c → length c.calls < u64 → Inv c
Reach-Inv start room = new_client-Inv
Reach-Inv (next r st) room =
    Step-Inv room st (Reach-Inv r (omega (arith, step-length (Reach-plugins r) st)))

-- For a client that has had fewer than 2^64 calls, without plugins, under every interleaving of
-- sends, write results, responses and closes: until the end of `receive` a call that the client has
-- is pending under one sequence number and not finished, or finished once and pending under none.
pub calls_conserved :
    {c : Client}
    → Reach c
    → length c.calls < u64
    → c.receiver ≢ ended
    → (id : ℕ) → held id c.pending + finished_of (lookup id c.calls) ≡ present (lookup id c.calls)
unfolding Conserved
calls_conserved {c} r room open_yet id = by_receiver c.receiver refl (Reach-Inv r room).accounts
  where
    by_receiver :
        (x : Receiver)
        → c.receiver ≡ x
        → Accounts x c.pending c.calls
        → held id c.pending + finished_of (lookup id c.calls) ≡ present (lookup id c.calls)
    by_receiver reading e a = a id
    by_receiver (broken y) e a = a id
    by_receiver ended e a = absurd (open_yet e)

-- For a client that has had fewer than 2^64 calls, without plugins, under every interleaving: once
-- `receive` has ended, every call that the client has been given is finished exactly once; none is
-- left waiting, and none is finished twice, also those that are sent later.
pub calls_settled :
    {c : Client}
    → Reach c
    → length c.calls < u64
    → c.receiver ≡ ended
    → (id : ℕ) → finished_of (lookup id c.calls) ≡ present (lookup id c.calls)
unfolding Settled
calls_settled {c} r room over id =
    subst (λ x. Accounts x c.pending c.calls) over (Reach-Inv r room).accounts id
