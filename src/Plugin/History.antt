-- ===== src/Plugin/History.antt =====
-- Whole histories of a manager, from the state that `newServerPluginManager` and
-- `newClientPluginManager` make.
use byterpc.Common.{ℕ, ◌≡◌, refl, Bool, List, [], ◌∷◌, ok, nat_eq}
use byterpc.Plugin.{Plugin, Manager, new_manager, add, remove, set_disabled}
use byterpc.Plugin.Server.{
  do_pre_read_request, do_post_read_request, do_pre_write_response, do_post_write_response,
  do_handle_conn_close, do_handle_conn_accept, do_register_service,
}
use byterpc.Plugin.Client.{
  do_pre_write_request, do_post_write_request, do_pre_read_response, do_post_read_response,
}

pub data Op : Type 0 where
  adds removes : Plugin → Op
  sets_disabled : Bool → Plugin → Op

pub step : Manager → Op → Manager
step pm (adds p) = add pm p
step pm (removes p) = remove pm p
step pm (sets_disabled flag p) = (set_disabled flag pm p).0

unfoldable pub run : Manager → List Op → Manager
unfolding step
run pm [] = pm
run pm (o ∷ os) = run (step pm o) os

step_new : (o : Op) → step new_manager o ≡ new_manager
unfolding step add remove set_disabled
step_new (adds p) = refl
step_new (removes p) = refl
step_new (sets_disabled flag p) = refl

-- A manager keeps no plugin: after any calls of `Add`, `Remove`, `Disable` and `Enable` on a new
-- manager it is as new.
pub run_new : (os : List Op) → run new_manager os ≡ new_manager
unfolding run
run_new [] = refl
run_new (o ∷ os) = rw (step_new o) (run_new os)

-- After any calls of `Add`, `Remove`, `Disable` and `Enable` on a new manager every hook that a
-- server or a client has passes without an error and without a call to a plugin, and a connection is
-- kept as it was accepted.
pub hooks-run_new :
    (os : List Op) (conn : ℕ)
    → let pm = run new_manager os in
      (do_pre_read_request pm ≡ ok tt)
      × (do_post_read_request pm ≡ ok tt)
      × (do_pre_write_response pm ≡ ok tt)
      × (do_post_write_response pm ≡ ok tt)
      × (do_handle_conn_accept pm conn ≡ (conn, ok tt))
      × (do_handle_conn_close pm ≡ ok tt)
      × (do_register_service pm ≡ ([], ok tt))
      × (do_pre_write_request pm ≡ ok tt)
      × (do_post_write_request pm ≡ ok tt)
      × (do_pre_read_response pm ≡ ok tt)
      × (do_post_read_response pm ≡ ok tt)
unfolding do_pre_read_request do_post_read_request do_pre_write_response do_post_write_response
    do_handle_conn_close do_handle_conn_accept do_register_service do_pre_write_request
    do_post_write_request do_pre_read_response do_post_read_response
hooks-run_new os conn =
    rw (run_new os) (refl, refl, refl, refl, refl, refl, refl, refl, refl, refl, refl)
