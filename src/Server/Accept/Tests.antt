-- ===== src/Server/Accept/Tests.antt =====
-- A server that takes two connections and is told to stop; the theorems there.
use byterpc.Common.{
  panic, ◌≢◌, ℕ, ◌≡◌, refl, true, false, [], ◌∷◌, ◌++◌, none, some, codes, lookup, nat_eq, length,
  ok,
}
use byterpc.Config.{default_config}
use byterpc.Plugin.{new_manager}
use byterpc.Plugin.Server.{do_handle_conn_accept, do_handle_conn_close}
use byterpc.Server.Accept.{
  Acceptor, serving, served, forgotten, selecting, waiting, accepting, not_started, has_codec,
  new_rpc_server_with_options, start, on_stop, accept_conn, end_serving, forget_conn, finish_conn,
}
use byterpc.Server.Accept.Steps.{
  starts, waits, passes, turns, ends, forgets, finishes, Reach, init, next, member,
}
use byterpc.Server.Accept.Tables.{in_table, is_tracked}
use byterpc.Server.Accept.Stopping.{Left, stop_ends}
use byterpc.Server.Accept.Safety.{connections_counted, on_stop-connections}

abbrev listening : Acceptor
listening = record {
  server_config = default_config;
  ln = some (codes "h:1");
  plugin_manager = new_manager;
  active_conn = none;
  serve_wg = 0;
  stop_listeners = 9 ∷ [];
  position = not_started;
  handlers = [];
  established = [];
  closed = [];
  stopped = [];
}

made :
    new_rpc_server_with_options default_config (ok (codes "h:1"))
    ≡ ok (record listening { stop_listeners = [] })
unfolding new_rpc_server_with_options
made = refl

abbrev started : Acceptor
started = record listening { active_conn = some []; position = selecting }

start-listening : start listening ≡ ok started
unfolding start
start-listening = refl

abbrev taken : Acceptor
taken = record started {
  active_conn = some ((4, tt) ∷ []);
  serve_wg = 1;
  handlers = (4, serving) ∷ [];
  established = 4 ∷ [];
}

abbrev ready : Acceptor
ready = record started { position = accepting }

new_conn : member (do_handle_conn_accept new_manager 4).0 [] ≡ false
unfolding do_handle_conn_accept
new_conn = refl

accept_conn-ready : accept_conn ready (ok 4) ≡ ok taken
unfolding accept_conn do_handle_conn_accept
accept_conn-ready = refl

taken-Reach : Reach taken
taken-Reach =
    next
      (next
        (next (init default_config (ok (codes "h:1")) new_manager (9 ∷ []) _ made)
          (starts listening started refl start-listening))
        (passes started refl))
      (turns ready taken (ok 4) refl new_conn accept_conn-ready)

abbrev gone : Acceptor
gone = record taken { active_conn = some []; serve_wg = 0; handlers = []; closed = 4 ∷ [] }

abbrev halfway : Acceptor
halfway = forget_conn (end_serving taken 4) 4

finish_conn-halfway : finish_conn halfway 4 ≡ ok gone
unfolding finish_conn forget_conn end_serving do_handle_conn_close default_config
finish_conn-halfway = refl

phase-served : lookup 4 (end_serving taken 4).handlers ≡ some served
unfolding end_serving
phase-served = refl

phase-forgotten : lookup 4 halfway.handlers ≡ some forgotten
unfolding forget_conn end_serving
phase-forgotten = refl

gone-Reach : Reach gone
gone-Reach =
    next
      (next (next taken-Reach (ends taken 4 refl)) (forgets (end_serving taken 4) 4 phase-served))
      (finishes halfway gone 4 phase-forgotten finish_conn-halfway)

stopping-Reach : Reach (record gone { position = waiting })
stopping-Reach = next gone-Reach (waits gone refl)

connections_counted_example :
    (1 ≡ length taken.handlers)
    × ((conn : ℕ) → in_table conn taken.active_conn ≡ is_tracked (lookup conn taken.handlers))
connections_counted_example = connections_counted taken-Reach

on_stop-connections_example :
    let s = record gone { position = waiting } in
    let t = on_stop s in
    (t.stopped ≡ s.stopped ++ s.stop_listeners)
    × ((conn : ℕ)
        → (in_table conn t.active_conn ≡ false)
          × (lookup conn t.handlers ≡ none)
          × (has_codec t.server_config ≡ true
              → member conn t.established ≡ true
              → member conn t.closed ≡ true))
on_stop-connections_example = on_stop-connections stopping-Reach refl refl

passes_all : (do_handle_conn_accept new_manager 5).1 ≡ ok tt
unfolding do_handle_conn_accept
passes_all = refl

closing_passes : do_handle_conn_close new_manager ≢ panic
unfolding do_handle_conn_close
closing_passes h = cc

stop_ends_example :
    (t : Acceptor) × (Left (record taken { position = waiting }) t
      × ((t.position ≡ waiting) × (t.serve_wg ≡ 0)))
stop_ends_example = stop_ends (next taken-Reach (waits taken refl)) refl closing_passes
