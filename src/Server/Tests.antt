-- ===== src/Server/Tests.antt =====
-- A server with one service, and the connection of a client that asks for it.
use byterpc.Common.{
  ℕ, ◌<◌, ◌≡◌, ◌≢◌, ◌⊎◌, inl, inr, refl, true, false, List, [], ◌∷◌, ◌++◌, map, Option, none, some,
  Text, codes, lookup, text_eq, nat_eq, Error, eof, message, service_already_defined, ok, err,
  panic, arith,
}
use byterpc.Utils.{error_text}
use byterpc.Plugin.{new_manager}
use byterpc.Plugin.Server.{do_pre_read_request, do_post_read_request, do_register_service}
use byterpc.Service.{Service, named, pointer, Method, register_methods}
use byterpc.Service.Tests.{multiply, upper_case}
use byterpc.Server.{RpcRequest, Server, rejected, read_request_header}
use byterpc.Server.Loop.{serve_codec, answers, calls, closed}
use byterpc.Server.Registration.{register, endpoint_of}
use byterpc.Server.Pool.{get_request, new_pool, zeroed, Pool, free_request}
use byterpc.Server.Pool.Chain.{copies, removed}
use byterpc.Server.Pool.Histories.{unused, takes, frees, get_request-Uses}
use byterpc.Server.Routing.{read_request_header_routes}
use byterpc.Server.Answers.{decoded, ending, respond, tag, serve_codec_answers}
use byterpc.Server.Registering.{Registers, register-Registers, register-register}

abbrev pub times : Method
times = record {
  method = multiply;
  arg_type = named (codes "Args") (codes "main");
  reply_type = pointer (named (codes "int") []);
}

abbrev pub arith_service : Service
arith_service = record { name = codes "Arith"; methods = (codes "Multiply", times) ∷ [] }

abbrev pub bare : Server
bare = record {
  service_map = [];
  plugin_manager = new_manager;
  psm = codes "p.s.m";
  address = codes "h:1";
}

abbrev pub one_service : Server
one_service = record bare { service_map = (codes "Arith", arith_service) ∷ [] }

abbrev asks : Text → ℕ → RpcRequest
asks t n = record { service_method = t; seq = n }

passes : do_pre_read_request new_manager ≡ ok tt
unfolding do_pre_read_request
passes = refl

pub no_panic_before : do_pre_read_request new_manager ≢ panic
no_panic_before h = cc (h, passes)

pub no_panic_after : do_post_read_request new_manager ≢ panic
unfolding do_post_read_request
no_panic_after h = cc h

no_panic_registering : (do_register_service new_manager).1 ≢ panic
unfolding do_register_service
no_panic_registering h = cc h

path_of_endpoint : (endpoint_of bare arith_service).path ≡ codes "/p.s.m/Arith/h:1"
unfolding endpoint_of
path_of_endpoint = refl

read_request_header_routes_example :
    let r = asks (codes "Arith" ++ (b'.' ∷ codes "Multiply")) 7 in
    ((m : Method)
      → lookup (codes "Multiply") arith_service.methods ≡ some m
      → read_request_header one_service (inr r)
        ≡ ok (record {
          svc = some arith_service;
          method = some m;
          req = some r;
          keep_reading = true;
          error = none;
        }))
    × (lookup (codes "Multiply") arith_service.methods ≡ none
        → read_request_header one_service (inr r)
          ≡ ok (
              rejected r
                (some arith_service)
                (message (codes "can't find method " ++ r.service_method))))
read_request_header_routes_example =
    read_request_header_routes one_service (codes "Arith") (codes "Multiply") 7 arith_service refl
      refl passes

-- A good request, one for an unknown service, one whose body cannot be read, and the end.
abbrev inputs : List ((Error ⊎ RpcRequest) × Option Error)
inputs =
    (inr (asks (codes "Arith.Multiply") 1), none)
    ∷ (inr (asks (codes "Other.Multiply") 2), none)
    ∷ (inr (asks (codes "Arith.Multiply") 3), some (message (codes "bad")))
    ∷ (inl eof, none)
    ∷ (inr (asks (codes "Arith.Multiply") 4), none)
    ∷ []

served : serve_codec one_service inputs ≡ (
  calls arith_service times (asks (codes "Arith.Multiply") 1)
      ∷ answers (asks (codes "Other.Multiply") 2) (codes "can't find service Other.Multiply")
      ∷ answers (asks (codes "Arith.Multiply") 3) (codes "bad")
      ∷ [],
  closed,
)
unfolding serve_codec error_text do_pre_read_request do_post_read_request
served = refl

abbrev pub results : Service → Method → RpcRequest → ℕ × Option Error
results svc m r = (6, none)

serve_codec_answers_example :
    let (events, end) = serve_codec one_service inputs in
    (map (λ e. tag results (respond results e)) events
      ≡ map (λ (r : RpcRequest). (r.service_method, r.seq)) (decoded inputs))
    × (end ≡ ending inputs)
serve_codec_answers_example =
    serve_codec_answers results one_service inputs no_panic_before no_panic_after

register-Registers_example :
    Registers bare
      (codes "Arith")
      (register upper_case bare (codes "Arith") (multiply ∷ []) [] false)
register-Registers_example =
    register-Registers upper_case bare (codes "Arith") [] (multiply ∷ []) false no_panic_registering

registered :
    register upper_case bare (codes "Arith") (multiply ∷ []) [] false ≡ (one_service, ok tt)
unfolding register register_methods do_register_service
registered = refl

good : register_methods upper_case false [] ≡ ok []
unfolding register_methods
good = refl

-- Another type under the alias that the first one is called by.
register-register_example :
    ((n : Text) → n ≢ codes "Arith" → lookup n one_service.service_map ≡ lookup n bare.service_map)
    × (register upper_case one_service (codes "other") [] (codes "Arith") true
        ≡ (one_service, err service_already_defined))
register-register_example =
    register-register upper_case bare one_service (codes "Arith") [] (multiply ∷ []) false
      (codes "other") (codes "Arith") [] true [] no_panic_registering registered refl good

-- Two requests at once, one of which is given back.
abbrev two_taken : Pool RpcRequest
two_taken = (get_request (asks [] 0) (get_request (asks [] 0) new_pool).0).0

abbrev ids : List ℕ
ids =
    (get_request (asks [] 0) (get_request (asks [] 0) new_pool).0).1
    ∷ (get_request (asks [] 0) new_pool).1
    ∷ []

first_used : 0 < copies 0 ids
unfolding get_request
first_used = omega arith

get_request-Uses_example :
    let p = free_request two_taken 0 in
    (copies (get_request (asks [] 0) p).1 (removed 0 ids) ≡ 0)
    × (lookup (get_request (asks [] 0) p).1 (get_request (asks [] 0) p).0.store
        ≡ some (zeroed (asks [] 0)))
get_request-Uses_example =
    get_request-Uses (asks [] 0) (free_request two_taken 0) (removed 0 ids)
      (frees 0 first_used (takes (takes unused)))
