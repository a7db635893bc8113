-- ===== src/Session/Counting.antt =====
-- Counting the requests of a session that are underway, and the steps of its client.
use mathlib.Core.List.{map-append}
use byterpc.Common.{
  ℕ, ◌+◌, ◌≤◌, ◌≡◌, ◌∙◌, ◌⊎◌, refl, ap, subst, Bool, true, false, List, ◌++◌, map, Option, none,
  some, if◌then◌else◌, Text, nat_eq, arith, Error, ok, err, inl, inr, length,
}
use byterpc.Service.{Service, Method}
use byterpc.Client.Steps
use byterpc.Client.Safety.{step-length, Reach-plugins}
use byterpc.Server.{RpcRequest, Server}
use byterpc.Server.Answers.{respond, tag}
use byterpc.Session.{
  Session, Step, sends, reaches, writes, fails, serves, answers, loses, receives, breaks, ends,
  closes, Reach, start, next, in_hand, sent_tag, underway, unsent,
}
use byterpc.Session.Tally.{one, tally, tally-append}

pub tally-map-append :
    {A : Type 0} (p : Text × ℕ → Bool) (f : A → Text × ℕ) (xs ys : List A)
    → tally p (map f (xs ++ ys)) ≡ tally p (map f xs) + tally p (map f ys)
tally-map-append p f xs ys =
    ap (tally p) (map-append f xs ys) ∙ tally-append p (map f xs) (map f ys)

pub tally-idle :
    (p : Text × ℕ → Bool) (f : Option ℕ) (m : Text) → f ≡ none → tally p (in_hand f m) ≡ 0
tally-idle p f m idle = rw idle refl

pub tally-in_hand :
    (p : Text × ℕ → Bool) (f : Option ℕ) (m : Text) (n : ℕ)
    → f ≡ some n
    → tally p (in_hand f m) ≡ one p (m, n)
tally-in_hand p f m n busy = rw busy (omega arith)

pub unsent-idle : (w : Bool) (f : Option ℕ) → f ≡ none → unsent w f ≡ none
unsent-idle true f idle = refl
unsent-idle false f idle = idle

pub tally-unsent :
    (p : Text × ℕ → Bool) (w : Bool) (f : Option ℕ) (m : Text) (n : ℕ)
    → f ≡ some n
    → tally p (in_hand (unsent w f) m) ≡ (if w then 0 else one p (m, n))
tally-unsent p true f m n busy = refl
tally-unsent p false f m n busy = tally-in_hand p f m n busy

module _ {ℓ} {A : Type ℓ} (run : Service → Method → RpcRequest → A × Option Error)
    (server : Server) where
  -- A step of a session is a step of its client, or leaves it alone.
  pub client_step :
      {s t : Session} → Step run server s t → Steps.Step s.client t.client ⊎ (s.client ≡ t.client)
  client_step (sends s id method room call new idle made) =
      inl (Steps.goes s.client id method room call new idle made)
  client_step (reaches s seq busy fresh open_yet) = inr refl
  client_step (writes s seq busy out) = inl (Steps.writes s.client seq none busy)
  client_step (fails s seq e busy) = inl (Steps.writes s.client seq (some e) busy)
  client_step (serves s r rest body h) = inr refl
  client_step (answers s before after e h open_yet) = inr refl
  client_step (loses s before after e h) = inr refl
  client_step (receives s r rest body reads h) = inl (Steps.receives s.client (ok r) body reads)
  client_step (breaks s e reads) = inl (Steps.receives s.client (err e) none reads)
  client_step (ends s e h idle) = inl (Steps.ends s.client e h idle)
  client_step (closes s answer buffered rest h first) = inl (Steps.closes s.client answer)

  pub Reach-Client : {s : Session} → Reach run server s → Steps.Reach s.client
  Reach-Client start = Steps.start
  Reach-Client (next r st) = elim (client_step st) [
    | inl moves ↦ Steps.next (Reach-Client r) moves
    | inr same ↦ subst Steps.Reach same (Reach-Client r)
  ]

  pub calls_grow :
      {s t : Session}
      → Reach run server s
      → Step run server s t
      → length s.client.calls ≤ length t.client.calls
  calls_grow r st = elim (client_step st) [
    | inl moves ↦ step-length (Reach-plugins (Reach-Client r)) moves
    | inr same ↦ rw same (omega arith)
  ]

  pub count_underway :
      (p : Text × ℕ → Bool) (s : Session)
      → tally p (underway run server s)
        ≡ tally p (in_hand (unsent s.on_wire s.client.in_flight) s.service_method)
          + (tally p (map sent_tag s.to_server)
              + (tally p (map (λ e. tag run (respond run e)) s.jobs)
                  + (tally p (map (tag run) s.to_client) + tally p (map (tag run) s.lost))))
  count_underway p s =
      let back = map (tag run) s.to_client ++ map (tag run) s.lost in
      let served = map (λ e. tag run (respond run e)) s.jobs ++ back in
      omega (
        arith,
        tally-append p (in_hand (unsent s.on_wire s.client.in_flight) s.service_method)
            (map sent_tag s.to_server ++ served),
        tally-append p (map sent_tag s.to_server) served,
        tally-append p (map (λ e. tag run (respond run e)) s.jobs) back,
        tally-append p (map (tag run) s.to_client) (map (tag run) s.lost),
      )
