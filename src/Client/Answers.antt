-- ===== src/Client/Answers.antt =====
-- What becomes of the calls in a round of `receive`, at its end, and in a `send` that is refused.
use byterpc.Common.{
  ℕ, ◌+◌, ◌≡◌, ◌∙◌, refl, ap, subst, true, false, [], ◌∷◌, ◌++◌, Option, none, some, if◌then◌else◌,
  ◌==◌, ==_iff, ◌||◌, Dict, lookup, nat_eq, lookup-insert, lookup-erase, arith, Error, eof,
  unexpected_eof, shutdown, server_error, message, length, inl, inr, Bool-cases, Option-cases,
  codes, ok,
}
use byterpc.Utils.{error_text}
use byterpc.Plugin.{new_manager}
use byterpc.Client.{
  Client, Call, reading, update_call, register, drop_pending, done, set_body_error, receive_one,
  fail_all, final_error, terminate, fail, RpcResponse,
}
use byterpc.Client.Tally.{held, finished, finished-fail}
use byterpc.Client.Rounds.{receive_one-drop_pending, finish_with}

-- In a client without plugins a response to a pending call takes its sequence number, and no other,
-- out of the map, and changes the call that was pending under it, and no other: with an error text
-- the call fails with that error, without one it is finished, with the error of reading its body if
-- there is one.
pub receive_one_answers :
    (c : Client) (r : RpcResponse) (body : Option Error) (id : ℕ) (call : Call)
    → c.plugin_manager ≡ new_manager
    → lookup r.seq c.pending ≡ some id
    → lookup id c.calls ≡ some call
    → let d = receive_one c (ok r) body in
      ((s : ℕ) → lookup s d.pending ≡ (if s == r.seq then none else lookup s c.pending))
      × ((j : ℕ)
          → lookup j d.calls ≡ (
              if j == id
              then some (
                  if length r.error == 0
                  then done (set_body_error body call)
                  else fail (server_error r.error) call)
              else lookup j c.calls))
receive_one_answers c r body id call bare found known =
    rw (receive_one-drop_pending c r body bare) (
      rw (found, drop_pending)
        (
          (λ s. lookup-erase s r.seq c.pending),
          (λ j. rw (known, update_call) (lookup-insert j id (finish_with r body call) c.calls)),
        ))

-- A response that no call waits for changes no call.
pub receive_one_stray :
    (c : Client) (r : RpcResponse) (body : Option Error)
    → c.plugin_manager ≡ new_manager
    → lookup r.seq c.pending ≡ none
    → ((receive_one c (ok r) body).calls ≡ c.calls)
      × ((s : ℕ) → lookup s (receive_one c (ok r) body).pending ≡ lookup s c.pending)
receive_one_stray c r body bare missing = rw (receive_one-drop_pending c r body bare) (
    rw (missing, drop_pending)
      (refl, λ s. ground (arith, lookup-erase s r.seq c.pending, ==_iff s r.seq)))

-- In a client without plugins, where the body of a good response to a pending call cannot be read,
-- the call is given the error, and `receive` goes on all the same.
pub receive_one_reads_on :
    (c : Client) (r : RpcResponse) (e : Error) (id : ℕ) (call : Call)
    → c.plugin_manager ≡ new_manager
    → lookup r.seq c.pending ≡ some id
    → lookup id c.calls ≡ some call
    → r.error ≡ []
    → let d = receive_one c (ok r) (some e) in
      (d.receiver ≡ reading)
      × (lookup id d.calls
          ≡ some (
              done
                (record call { error = some (message (codes "reading body " ++ error_text e)) })))
receive_one_reads_on c r e id call bare found known good =
    let (_, calls) = receive_one_answers c r (some e) id call bare found known in
    (on_receiver, calls id ∙ rw ((==_iff id id).1 refl, good) refl)
  where
    on_receiver : (receive_one c (ok r) (some e)).receiver ≡ reading
    on_receiver = rw (receive_one-drop_pending c r (some e) bare) (rw (found, good) refl)

-- The error that a call has been given.
abbrev pub error_of : Option Call → Option Error
error_of none = none
error_of (some c) = c.error

error-fail : (e : Error) (c : Call) → (fail e c).error ≡ some e
unfolding done
error-fail e c = ground arith

error-update_call :
    (e : Error) (j id : ℕ) (d : Dict ℕ Call) (call : Call)
    → lookup j d ≡ some call
    → (call' : Call) × (lookup j (update_call id (fail e) d) ≡ some call')
      × (call'.error ≡ (if j == id then some e else call.error))
error-update_call e j id d call known = elim (Bool-cases (j == id)) [
  | inl same ↦
      let one : j ≡ id = (==_iff j id).0 same in
      let there : lookup id d ≡ some call = subst (λ k. lookup k d ≡ some call) one known in
      (
        fail e call,
        rw (there, update_call) (lookup-insert j id (fail e call) d ∙ rw same refl),
        rw same (error-fail e call),
      )
  | inr other ↦ (call, not_touched other, rw other refl)
]
  where
    not_touched : (j == id) ≡ false → lookup j (update_call id (fail e) d) ≡ some call
    not_touched other = elim (Option-cases (lookup id d)) [
      | inl missing ↦ rw (missing, update_call) known
      | inr (x, found) ↦ rw (found, update_call) (lookup-insert j id (fail e x) d ∙ rw other known)
    ]

fail_all-error :
    (e : Error) (j : ℕ) (p : Dict ℕ ℕ) (d : Dict ℕ Call) (call : Call)
    → lookup j d ≡ some call
    → (call' : Call) × (lookup j (fail_all e p d) ≡ some call')
      × (call'.error ≡ (if held j p == 0 then call.error else some e))
unfolding fail_all
fail_all-error e j [] d call known = (call, known, refl)
fail_all-error e j ((s, id) ∷ p) d call known =
    let (mid, at_mid, mid_error) = error-update_call e j id d call known in
    let (last, at_last, last_error) = fail_all-error e j p (update_call id (fail e) d) mid at_mid in
    (last, at_last, last_error ∙ ground arith)

-- At the end of `receive` every pending call is given the error that ended it, where the end of the
-- stream reads as a shutdown if the client was closing and as an unexpected end if not; a call that
-- is not pending keeps its error, and the client is shut down.
pub terminate_errors :
    (c : Client) (e : Error) (id : ℕ) (call : Call)
    → lookup id c.calls ≡ some call
    → (call' : Call) × (lookup id (terminate c e).calls ≡ some call')
      × (call'.error ≡ (
          if held id c.pending == 0
          then call.error
          else some (
              if c.closing
              then (elim e [ eof ↦ shutdown | x ↦ x ])
              else (elim e [ eof ↦ unexpected_eof | x ↦ x ]))))
      × ((terminate c e).is_shut_down ≡ true)
unfolding terminate
terminate_errors c e id call known =
    let (call', there, err_eq) =
      fail_all-error (final_error c.closing e) id c.pending c.calls call known in
    (
      call',
      there,
      err_eq
          ∙ ap (λ (x : Error). if held id c.pending == 0 then call.error else some x) (by_error e),
      refl,
    )
  where
    by_error :
        (x : Error)
        → final_error c.closing x ≡ (
            if c.closing
            then (elim x [ eof ↦ shutdown | y ↦ y ])
            else (elim x [ eof ↦ unexpected_eof | y ↦ y ]))
    by_error eof = refl
    by_error x = ground arith

-- A call that is sent when the client is closing or shut down is finished at once with the shutdown
-- error; nothing is written, and no sequence number is used.
pub register_shutdown :
    (c : Client) (id : ℕ) (call : Call)
    → (c.is_shut_down || c.closing) ≡ true
    → let d = register c id call in
      (lookup id d.calls ≡ some (fail shutdown call))
      × (finished (fail shutdown call) ≡ finished call + 1)
      × (d.pending ≡ c.pending)
      × (d.seq ≡ c.seq)
      × (d.in_flight ≡ c.in_flight)
unfolding register
register_shutdown c id call h = rw h (
  lookup-insert id id (fail shutdown call) c.calls ∙ rw ((==_iff id id).1 refl) refl,
  finished-fail shutdown call,
  refl,
  refl,
  refl,
)
