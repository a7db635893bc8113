-- ===== src/Session/Carrying.antt =====
-- The steps of a connection on which nothing goes wrong: they carry every request to its answer.
use byterpc.Common.{ℕ, ◌≡◌, ◌∙◌, refl, Option, none, some, lookup, nat_eq, arith, Error, ok, length}
use byterpc.Plugin.{new_manager}
use byterpc.Service.{Service, Method}
use byterpc.Client.{Client, reading, RpcResponse, receive_one, finish_write}
use byterpc.Client.Rounds.{receive_one-drop_pending, finish_with, round_receiver}
use byterpc.Client.Safety.{drop_pending-length, Reach-plugins}
use byterpc.Server.{RpcRequest, Server}
use byterpc.Session.{
  Session, Step, sends, reaches, writes, fails, serves, answers, loses, receives, breaks, ends,
  closes, Reach, next,
}
use byterpc.Session.Calls.{call_method, receive_one-Dropped}
use byterpc.Session.Counting.{Reach-Client}

round_receiver_reads : (o : Option ℕ) (r : RpcResponse) → round_receiver o r none ≡ reading
round_receiver_reads none r = refl
round_receiver_reads (some id) r = ground arith

receive_one-reads :
    (c : Client) (r : RpcResponse)
    → c.plugin_manager ≡ new_manager
    → (receive_one c (ok r) none).receiver ≡ reading
receive_one-reads c r bare =
    rw (receive_one-drop_pending c r none bare) (round_receiver_reads (lookup r.seq c.pending) r)

receive_one-length :
    (c : Client) (r : RpcResponse) (body : Option Error)
    → c.plugin_manager ≡ new_manager
    → length (receive_one c (ok r) body).calls ≡ length c.calls
receive_one-length c r body bare =
    rw (receive_one-drop_pending c r body bare) (drop_pending-length c r.seq (finish_with r body))

receive_one-closing :
    (c : Client) (r : RpcResponse) (body : Option Error)
    → c.plugin_manager ≡ new_manager
    → (receive_one c (ok r) body).closing ≡ c.closing
receive_one-closing c r body bare = rw (receive_one-drop_pending c r body bare) (ground arith)

module _ {ℓ} {A : Type ℓ} (run : Service → Method → RpcRequest → A × Option Error)
    (server : Server) where
  -- The steps that carry a request to its answer, when nothing breaks.
  abbrev pub Carries : {s t : Session} → Step run server s t → Type 0
  Carries (sends s id method room call new idle made) = ⊥
  Carries (reaches s seq busy fresh open_yet) = Unit
  Carries (writes s seq busy out) = Unit
  Carries (fails s seq e busy) = ⊥
  Carries (serves s r rest body h) = body ≡ none
  Carries (answers s before after e h open_yet) = Unit
  Carries (loses s before after e h) = ⊥
  Carries (receives s r rest body reads h) = body ≡ none
  Carries (breaks s e reads) = ⊥
  Carries (ends s e h idle) = ⊥
  Carries (closes s answer buffered rest h first) = ⊥

  pub data Carried (s : Session) : Session → Type 0 where
    stay : Carried s s
    then_step :
        {t u : Session} → Carried s t → (st : Step run server t u) → Carries st → Carried s u

  -- What such a step leaves alone.
  pub record Keeps (s t : Session) : Type 0 where
    pub reads : s.client.receiver ≡ reading → t.client.receiver ≡ reading
    pub methods :
        (j : ℕ) → call_method (lookup j t.client.calls) ≡ call_method (lookup j s.client.calls)
    pub same_lost : t.lost ≡ s.lost
    pub same_closing : t.client.closing ≡ s.client.closing
    pub same_length : length t.client.calls ≡ length s.client.calls

  step-Keeps :
      {s t : Session}
      → s.client.plugin_manager ≡ new_manager
      → (st : Step run server s t) → Carries st
      → Keeps s t
  unfolding finish_write
  step-Keeps bare (sends s id method room call new idle made) h = absurd h
  step-Keeps bare (reaches s seq busy fresh open_yet) h = record {
    reads = λ e. e;
    methods = λ j. refl;
    same_lost = refl;
    same_closing = refl;
    same_length = refl;
  }
  step-Keeps bare (writes s seq busy out) h = record {
    reads = λ e. e;
    methods = λ j. refl;
    same_lost = refl;
    same_closing = refl;
    same_length = refl;
  }
  step-Keeps bare (fails s seq e busy) h = absurd h
  step-Keeps bare (serves s r rest body q) h = record {
    reads = λ e. e;
    methods = λ j. refl;
    same_lost = refl;
    same_closing = refl;
    same_length = refl;
  }
  step-Keeps bare (answers s before after e q open_yet) h = record {
    reads = λ e. e;
    methods = λ j. refl;
    same_lost = refl;
    same_closing = refl;
    same_length = refl;
  }
  step-Keeps bare (loses s before after e q) h = absurd h
  step-Keeps bare (receives s r rest body reads q) h = record {
    reads = λ e. rw h (receive_one-reads s.client r bare);
    methods = (receive_one-Dropped s.client r body bare).0.methods;
    same_lost = refl;
    same_closing = receive_one-closing s.client r body bare;
    same_length = receive_one-length s.client r body bare;
  }
  step-Keeps bare (breaks s e reads) h = absurd h
  step-Keeps bare (ends s e q idle) h = absurd h
  step-Keeps bare (closes s answer buffered rest q first) h = absurd h

  module _ {s : Session} (reachable : Reach run server s) where
    pub Carried-Reach : {t : Session} → Carried s t → Reach run server t
    Carried-Reach stay = reachable
    Carried-Reach (then_step c st h) = next (Carried-Reach c) st

    pub bare_at : {t : Session} → Carried s t → t.client.plugin_manager ≡ new_manager
    bare_at c = Reach-plugins (Reach-Client run server (Carried-Reach c))

    pub Carried-Keeps : {t : Session} → Carried s t → Keeps s t
    Carried-Keeps stay = record {
      reads = λ e. e;
      methods = λ j. refl;
      same_lost = refl;
      same_closing = refl;
      same_length = refl;
    }
    Carried-Keeps (then_step c st h) =
        let before = Carried-Keeps c in
        let last = step-Keeps (bare_at c) st h in
        record {
          reads = λ e. last.reads (before.reads e);
          methods = λ j. last.methods j ∙ before.methods j;
          same_lost = last.same_lost ∙ before.same_lost;
          same_closing = last.same_closing ∙ before.same_closing;
          same_length = last.same_length ∙ before.same_length;
        }
