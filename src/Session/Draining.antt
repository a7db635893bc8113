-- ===== src/Session/Draining.antt =====
-- What is underway gets home: writes that succeed, the server's loop, its calls and the client's
-- `receive` empty the connection, in whatever order.
use byterpc.Common.{
  ℕ, ◌+◌, ◌*◌, ◌⊎◌, ap, Bool, if◌then◌else◌, length-append, ◌<◌, ◌≡◌, ◌≢◌, ◌∙◌, refl, Bool-cases,
  false, List, [], ◌∷◌, Option, none, some, lookup, nat_eq, arith, Error, panic, inl, inr,
  Option-cases, length,
}
use byterpc.Plugin.{new_manager}
use byterpc.Plugin.Server.{do_pre_read_request, do_post_read_request}
use byterpc.Service.{Service, Method}
use byterpc.Client.{Call, reading, finish_write, u64}
use byterpc.Client.Tally.{finished_of, present}
use byterpc.Server.{RpcRequest, Server}
use byterpc.Server.Loop.{serve_codec}
use byterpc.Server.Answers.{respond}
use byterpc.Session.{
  Session, Step, sends, reaches, writes, fails, serves, answers, loses, receives, breaks, ends,
  closes, Reach, request,
}
use byterpc.Session.Calls.{call_method, receive_one-Dropped}
use byterpc.Session.Results.{quiet_settled, served_once}
use byterpc.Session.Carrying.{
  Carries, Carried, stay, then_step, Carried-Reach, bare_at, Carried-Keeps,
}

-- The steps that the request in the hands of `send` has still to make: it goes out, `WriteRequest`
-- returns, the server takes it up and answers, and the client reads the response.
abbrev pub hand_work : Bool → Option ℕ → ℕ
hand_work w none = 0
hand_work w (some seq) = if w then 1 else 5

abbrev pub work : Session → ℕ
work s =
    hand_work s.on_wire s.client.in_flight
    + (3 * length s.to_server + (2 * length s.jobs + length s.to_client))

List-cases :
    {A : Type 0} (xs : List A) → (xs ≡ []) ⊎ ((x : A) × ((rest : List A) × (xs ≡ x ∷ rest)))
List-cases [] = inl refl
List-cases (x ∷ xs) = inr (x, (xs, refl))

length_none : {A : Type 0} (xs : List A) → length xs ≡ 0 → xs ≡ []
length_none [] h = refl
length_none (x ∷ xs) h = absurd (omega arith)

present_method : (a b : Option Call) → call_method a ≡ call_method b → present a ≡ present b
present_method none none h = refl
present_method none (some c) h = cc
present_method (some c) none h = cc
present_method (some c) (some d) h = refl

module _ {ℓ} {A : Type ℓ} (run : Service → Method → RpcRequest → A × Option Error)
    (server : Server) where
  -- Every such step does one unit of the work.
  step-work :
      {s t : Session}
      → do_pre_read_request server.plugin_manager ≢ panic
      → do_post_read_request server.plugin_manager ≢ panic
      → s.client.plugin_manager ≡ new_manager
      → (st : Step run server s t) → Carries run server st
      → work s ≡ work t + 1
  unfolding finish_write
  step-work pre post bare (sends s id method room call new idle made) h = absurd h
  step-work pre post bare (reaches s seq busy fresh open_yet) h =
      ground (arith, length-append s.to_server (request s.service_method seq ∷ []))
  step-work pre post bare (writes s seq busy out) h = ground arith
  step-work pre post bare (fails s seq e busy) h = absurd h
  step-work pre post bare (serves s r rest body q) h =
      let events = (serve_codec server ((inr r, body) ∷ [])).0 in
      let (e, one_event, _) = served_once run server pre post r body in
      omega (arith, length-append s.jobs events, ap length one_event, ap length q)
  step-work pre post bare (answers s before after e q open_yet) h = omega (
    arith,
    length-append before (e ∷ after),
    length-append before after,
    length-append s.to_client (respond run e ∷ []),
    ap length q,
  )
  step-work pre post bare (loses s before after e q) h = absurd h
  step-work pre post bare (receives s r rest body reads q) h =
      omega
        (arith, ap length q, ap (hand_work s.on_wire) (receive_one-Dropped s.client r body bare).1)
  step-work pre post bare (breaks s e reads) h = absurd h
  step-work pre post bare (ends s e q idle) h = absurd h
  step-work pre post bare (closes s answer buffered rest q first) h = absurd h

  abbrev pub steps : {s t : Session} → Carried run server s t → ℕ
  steps stay = 0
  steps (then_step c st h) = steps c + 1

  steps-work :
      {s t : Session}
      → do_pre_read_request server.plugin_manager ≢ panic
      → do_post_read_request server.plugin_manager ≢ panic
      → Reach run server s
      → (c : Carried run server s t) → steps c + work t ≡ work s
  steps-work pre post r stay = omega arith
  steps-work pre post r (then_step c st h) =
      omega (arith, steps-work pre post r c, step-work pre post (bare_at run server r c) st h)

  -- While there is work left, one of the steps can be taken.
  abbrev pub CanGo : Session → Type 0
  CanGo t = (u : Session) × ((st : Step run server t u) × Carries run server st)

  hand_step :
      (t : Session) (seq : ℕ) → t.client.in_flight ≡ some seq → t.client.closing ≡ false → CanGo t
  hand_step t seq busy open_yet = elim (Bool-cases t.on_wire) [
    | inl out ↦ (_, (writes t seq busy out, tt))
    | inr fresh ↦ (_, (reaches t seq busy fresh open_yet, tt))
  ]

  next_step :
      (t : Session) → t.client.closing ≡ false → t.client.receiver ≡ reading → work t ≢ 0 → CanGo t
  next_step t open_yet reads left = elim (Option-cases t.client.in_flight) [
    | inr (seq, busy) ↦ hand_step t seq busy open_yet
    | inl idle ↦ elim (List-cases t.to_server) [
      | inr (r, (rest, h)) ↦ (_, (serves t r rest none h, refl))
      | inl served ↦ elim (List-cases t.jobs) [
        | inr (e, (rest, h)) ↦ (_, (answers t [] rest e h open_yet, tt))
        | inl answered ↦ elim (List-cases t.to_client) [
          | inr (r, (rest, h)) ↦ (_, (receives t r rest none reads h, refl))
          | inl received ↦ absurd (left (rw (idle, served, answered, received) refl))
        ]
      ]
    ]
  ]

  work_done :
      (t : Session)
      → work t ≡ 0
      → (t.client.in_flight ≡ none) × (t.to_server ≡ []) × (t.jobs ≡ []) × (t.to_client ≡ [])
  work_done t h = (
    elim (Option-cases t.client.in_flight) [ inl idle ↦ idle | inr (seq, busy) ↦ ground arith ],
    length_none t.to_server (omega arith),
    length_none t.jobs (omega arith),
    length_none t.to_client (omega arith),
  )

  -- If no plugin panics and the client has had fewer than 2^64 calls: from every state that a
  -- connection gets to, in which `receive` reads, the client has not been closed and no response is
  -- lost, take only writes that succeed, rounds of the server's loop on good bodies, answers of its
  -- jobs and rounds of `receive` on good bodies, in any order. Each such step does one unit of the
  -- work that the state has, and while there is work left such a step can be taken. When none is
  -- left, `receive` still reads, every call has the method that it had, and every call is finished
  -- exactly once.
  pub calls_drain :
      {s t : Session}
      → do_pre_read_request server.plugin_manager ≢ panic
      → do_post_read_request server.plugin_manager ≢ panic
      → Reach run server s
      → length s.client.calls < u64
      → s.client.receiver ≡ reading
      → s.client.closing ≡ false
      → s.lost ≡ []
      → (c : Carried run server s t)
      → (steps c + work t ≡ work s)
        × (work t ≢ 0 → CanGo t)
        × (work t ≡ 0
            → (t.client.receiver ≡ reading)
              × ((id : ℕ)
                  → (call_method (lookup id t.client.calls)
                      ≡ call_method (lookup id s.client.calls))
                    × (finished_of (lookup id t.client.calls)
                        ≡ present (lookup id s.client.calls))))
  calls_drain {s} {t} pre post r room reads open_yet no_loss c =
      let kept = Carried-Keeps run server r c in
      (
        steps-work pre post r c,
        next_step t (kept.same_closing ∙ open_yet) (kept.reads reads),
        λ ended.
            let (idle, served, answered, received) = work_done t ended in
            let settled =
              quiet_settled run server pre post (Carried-Reach run server r c)
                (omega (arith, kept.same_length)) idle served answered received
                (kept.same_lost ∙ no_loss) in
            (
              kept.reads reads,
              λ id. (kept.methods id, settled.1 id ∙ present_method _ _ (kept.methods id)),
            ),
      )
