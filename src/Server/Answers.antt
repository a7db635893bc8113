-- ===== src/Server/Answers.antt =====
-- The requests of a connection and the responses to them, for `serveCodec` of server.go.
use byterpc.Common.{
  ℕ, ◌+◌, ◌≡◌, ◌≢◌, refl, ap, sym, subst, true, List, [], ◌∷◌, map, Option, none, some, Text,
  lookup, text_eq, Error, Result, ok, err, panic, ◌⊎◌, inl, inr, drop, take,
}
use byterpc.Plugin.Server.{do_pre_read_request, do_post_read_request}
use byterpc.Plugin.{Manager}
use byterpc.Client.{RpcResponse}
use byterpc.Utils.{error_text}
use byterpc.Service.{Service, Method}
use byterpc.Server.{
  RpcRequest, Server, Read, last_index, with_dot, with_service, with_method, hooked, read_body,
  after_header, read_request_header, read_request,
}
use byterpc.Server.Loop.{
  Event, answers, calls, End, closed, waiting, serve_read, serve_codec, send_response, call,
}

abbrev found : Service → Method → RpcRequest → Read
found svc m r = record {
  svc = some svc;
  method = some m;
  req = some r;
  keep_reading = true;
  error = none;
}

abbrev refused : Option Service → Option Method → RpcRequest → Error → Read
refused svc m r e = record {
  svc = svc;
  method = m;
  req = some r;
  keep_reading = true;
  error = some e;
}

-- A request that was read is to be called, or to be answered with an error.
abbrev Outcome : RpcRequest → Result Read → Type 0
Outcome r x =
    ((svc : Service) × ((m : Method) × (x ≡ ok (found svc m r))))
    ⊎ ((svc : Option Service) × ((m : Option Method) × ((e : Error) × (x
              ≡ ok (refused svc m r e)))))

abbrev NoPanic : Manager → Type 0
NoPanic pm = (do_pre_read_request pm ≢ panic) × (do_post_read_request pm ≢ panic)

hooked-Outcome :
    (r : RpcRequest) (svc : Service) (m : Method) (x : Result (Unit {0}))
    → x ≢ panic
    → Outcome r (hooked r svc m x)
hooked-Outcome r svc m (ok _) h = inl (svc, (m, refl))
hooked-Outcome r svc m (err e) h = inr (some svc, (some m, (e, refl)))
hooked-Outcome r svc m panic h = elim (h refl) [ ]

with_method-Outcome :
    (s : Server) (r : RpcRequest) (svc : Service) (m : Option Method)
    → NoPanic s.plugin_manager
    → Outcome r (with_method s r svc m)
with_method-Outcome s r svc none h = inr (some svc, (none, (_, refl)))
with_method-Outcome s r svc (some m) h = hooked-Outcome r svc m _ h.0

with_service-Outcome :
    (s : Server) (r : RpcRequest) (name : Text) (svc : Option Service)
    → NoPanic s.plugin_manager
    → Outcome r (with_service s r name svc)
with_service-Outcome s r name none h = inr (none, (none, (_, refl)))
with_service-Outcome s r name (some svc) h = with_method-Outcome s r svc _ h

with_dot-Outcome :
    (s : Server) (r : RpcRequest) (dot : Option ℕ)
    → NoPanic s.plugin_manager
    → Outcome r (with_dot s r dot)
with_dot-Outcome s r none h = inr (none, (none, (_, refl)))
with_dot-Outcome s r (some dot) h =
    with_service-Outcome s r (drop (dot + 1) r.service_method)
      (lookup (take dot r.service_method) s.service_map) h

posted-Outcome :
    (s : Server) (r : RpcRequest) (svc : Service) (m : Method) (x : Result (Unit {0}))
    → do_post_read_request s.plugin_manager ≡ x
    → x ≢ panic
    → Outcome r (read_body s none (found svc m r))
posted-Outcome s r svc m (ok _) e h = inl (svc, (m, rw (e, read_body) refl))
posted-Outcome s r svc m (err x) e h = inr (some svc, (some m, (x, rw (e, read_body) refl)))
posted-Outcome s r svc m panic e h = elim (h refl) [ ]

read_body-Outcome :
    (s : Server) (r : RpcRequest) (svc : Service) (m : Method) (body : Option Error)
    → NoPanic s.plugin_manager
    → Outcome r (read_body s body (found svc m r))
read_body-Outcome s r svc m (some e) h = inr (some svc, (some m, (e, refl)))
read_body-Outcome s r svc m none h = posted-Outcome s r svc m _ refl h.1

read_request-Outcome :
    (s : Server) (r : RpcRequest) (body : Option Error)
    → NoPanic s.plugin_manager
    → Outcome r (read_request s (inr r) body)
unfolding read_request read_request_header
read_request-Outcome s r body h = elim (with_dot-Outcome s r (last_index b'.' r.service_method) h) [
  | inl (svc, (m, e)) ↦
      subst (Outcome r) (sym (ap (after_header s body) e)) (read_body-Outcome s r svc m body h)
  | inr (svc, (m, (x, e))) ↦ inr (svc, (m, (x, ap (after_header s body) e)))
]

-- The requests up to the first header that cannot be read, and how the loop ends.
abbrev pub decoded : List ((Error ⊎ RpcRequest) × Option Error) → List RpcRequest
decoded [] = []
decoded ((inl e, body) ∷ inputs) = []
decoded ((inr r, body) ∷ inputs) = r ∷ decoded inputs

abbrev pub ending : List ((Error ⊎ RpcRequest) × Option Error) → End
ending [] = waiting
ending ((inl e, body) ∷ inputs) = closed
ending ((inr r, body) ∷ inputs) = ending inputs

module _ {ℓ} {A : Type ℓ} (run : Service → Method → RpcRequest → A × Option Error) where
  -- The response that an event leads to, with what the methods return.
  abbrev pub respond : Event → RpcResponse
  respond (answers r t) = (send_response {A = A} r none t).0
  respond (calls svc m r) = let (reply, e) = run svc m r in (call r reply e).0

  abbrev pub tag : RpcResponse → Text × ℕ
  tag x = (x.service_method, x.seq)

  tag-call :
      (r : RpcRequest) (reply : A) (e : Option Error)
      → tag (call r reply e).0 ≡ (r.service_method, r.seq)
  unfolding call
  tag-call r reply none = refl
  tag-call r reply (some e) = refl

  tag-answer : (r : RpcRequest) (t : Text) → tag (respond (answers r t)) ≡ (r.service_method, r.seq)
  unfolding send_response
  tag-answer r t = refl

  abbrev Served : Server → List ((Error ⊎ RpcRequest) × Option Error) → List Event × End → Type 0
  Served s inputs (es, end) =
      (map (λ e. tag (respond e)) es
        ≡ map (λ (r : RpcRequest). (r.service_method, r.seq)) (decoded inputs))
      × (end ≡ ending inputs)

  serve_read-Served :
      (s : Server) (r : RpcRequest) (body : Option Error)
      (inputs : List ((Error ⊎ RpcRequest) × Option Error)) (x : Result Read)
      (rest : List Event × End)
      → Outcome r x
      → Served s inputs rest
      → Served s ((inr r, body) ∷ inputs) (serve_read x rest)
  serve_read-Served s r body inputs x (es, end) (inl (svc, (m, e))) (tags, same_end) =
      subst (λ y. Served s ((inr r, body) ∷ inputs) (serve_read y (es, end))) (sym e)
        (
          rw (tag-call r (run svc m r).0 (run svc m r).1)
              (ap (λ l. (r.service_method, r.seq) ∷ l) tags),
          same_end,
        )
  serve_read-Served s r body inputs x (es, end) (inr (svc, (m, (f, e)))) (tags, same_end) =
      subst (λ y. Served s ((inr r, body) ∷ inputs) (serve_read y (es, end))) (sym e)
        (rw (tag-answer r (error_text f)) (ap (λ l. (r.service_method, r.seq) ∷ l) tags), same_end)

  undecoded :
      (s : Server) (e : Error) (body : Option Error)
      (inputs : List ((Error ⊎ RpcRequest) × Option Error)) (rest : List Event × End)
      → Served s ((inl e, body) ∷ inputs) (serve_read (read_request s (inl e) body) rest)
  unfolding read_request read_request_header
  undecoded s e body inputs rest = (refl, refl)

  -- If no plugin panics, every request of a connection up to the first header that cannot be read
  -- leads to exactly one response, at once or by a call of its method, which echoes its method and
  -- sequence number, whether the service, the method and the body are good or not; at such a header
  -- the loop ends and closes the codec, and without one it waits for more.
  pub serve_codec_answers :
      (s : Server) (inputs : List ((Error ⊎ RpcRequest) × Option Error))
      → do_pre_read_request s.plugin_manager ≢ panic
      → do_post_read_request s.plugin_manager ≢ panic
      → let (events, end) = serve_codec s inputs in
        (map (λ e. tag (respond e)) events
          ≡ map (λ (r : RpcRequest). (r.service_method, r.seq)) (decoded inputs))
        × (end ≡ ending inputs)
  unfolding serve_codec
  serve_codec_answers s [] h k = (refl, refl)
  serve_codec_answers s ((inl e, body) ∷ inputs) h k =
      undecoded s e body inputs (serve_codec s inputs)
  serve_codec_answers s ((inr r, body) ∷ inputs) h k =
      serve_read-Served s r body inputs (read_request s (inr r) body) (serve_codec s inputs)
        (read_request-Outcome s r body (h, k)) (serve_codec_answers s inputs h k)
