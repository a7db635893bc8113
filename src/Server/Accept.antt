-- ===== src/Server/Accept.antt =====
-- The connections of a server: `NewServer`, `Start`, `acceptLoop`, `handleConn` and `onStop` of
-- server.go. A connection is known by a number; what `net.Listen` and `ln.Accept` answer is an
-- argument. The requests on a connection are in Loop.
pub mod Steps
pub mod Tables
pub mod Invariant
pub mod Safety
pub mod Stopping
pub mod Single
mod Tests
use byterpc.Common.{
  ℕ, ◌+◌, ◌-◌, Bool, true, false, List, [], ◌∷◌, ◌++◌, Option, none, some, if◌then◌else◌, ◌==◌,
  Text, codes, Dict, lookup, insert, erase, nat_eq, same, Error, Result, ok, err, panic,
}
use byterpc.Config.{ServerConfig, check}
use byterpc.Plugin.{Manager, new_manager}
use byterpc.Plugin.Server.{do_handle_conn_accept, do_handle_conn_close}

-- Where the goroutine of a connection stands: in `serveCodec`, past it, or past the deletion of the
-- connection from the table.
pub data Phase : Type 0 where
  serving served forgotten : Phase

-- Where the goroutine of `Start` stands: before it, at the `select`, in `serveWG.Wait`, or at
-- `Accept`.
pub data Position : Type 0 where
  not_started selecting waiting accepting : Position

-- `ln` is the address that is listened at. `active_conn` is nil before `Start`. `stop_listeners` are
-- known by numbers. `handlers` are the goroutines of `handleConn`; `established` is what the loop
-- has logged, `closed` are the connections that a codec has closed, `stopped` the listeners that
-- have been called.
pub record Acceptor : Type 0 where
  pub server_config : ServerConfig
  pub ln : Option Text
  pub plugin_manager : Manager
  pub active_conn : Option (Dict ℕ (Unit {0}))
  pub serve_wg : ℕ
  pub stop_listeners : List ℕ
  pub position : Position
  pub handlers : Dict ℕ Phase
  pub established : List ℕ
  pub closed : List ℕ
  pub stopped : List ℕ

-- `initListener`, with the answer of `net.Listen`.
unfoldable pub init_listener : Acceptor → Result Text → Result Acceptor
init_listener s (ok address) = ok (record s { ln = some address })
init_listener s (err e) = panic
init_listener s panic = panic

-- `check` and `init` of the server.
unfoldable pub init : Acceptor → Result Text → Result Acceptor
unfolding check init_listener
init s listened = elim (check s.server_config) [
  | ok _ ↦ init_listener s listened
  | err e ↦ panic
  | panic ↦ panic
]

unfoldable pub new_rpc_server_with_options : ServerConfig → Result Text → Result Acceptor
unfolding init
new_rpc_server_with_options conf listened =
    init
      (record {
        server_config = conf;
        ln = none;
        plugin_manager = new_manager;
        active_conn = none;
        serve_wg = 0;
        stop_listeners = [];
        position = not_started;
        handlers = [];
        established = [];
        closed = [];
        stopped = [];
      })
      listened

-- `serverInstance` and `serverOnce`.
pub record Singleton : Type 0 where
  pub instance : Option Acceptor
  pub once_done : Bool

-- `NewServer`. A `Once` whose function panics is done all the same.
abbrev pub first_server : Singleton → Result Acceptor → Singleton × Result (Option Acceptor)
first_server g (ok s) = (record { instance = some s; once_done = true }, ok (some s))
first_server g (err e) = (record g { once_done = true }, panic)
first_server g panic = (record g { once_done = true }, panic)

unfoldable pub new_server :
    Singleton → ServerConfig → Result Text → Singleton × Result (Option Acceptor)
unfolding new_rpc_server_with_options
new_server g conf listened =
    if g.once_done
    then (g, ok g.instance)
    else first_server g (new_rpc_server_with_options conf listened)

-- `Start` up to the loop.
abbrev pub made_table : Option (Dict ℕ (Unit {0})) → Option (Dict ℕ (Unit {0}))
made_table none = some []
made_table (some d) = some d

unfoldable pub start : Acceptor → Result Acceptor
start s = elim s.ln [
  | none ↦ panic
  | some address ↦ ok (record s { active_conn = made_table s.active_conn; position = selecting })
]

-- The end of `onStop`, after `serveWG.Wait`; the loop goes on to `Accept`.
unfoldable pub on_stop : Acceptor → Acceptor
on_stop s = record s { stopped = s.stopped ++ s.stop_listeners; position = accepting }

-- A round of the loop after `Accept`, with the connection or the error that it returned. A write to
-- the nil table panics.
abbrev pub add_conn : Acceptor → ℕ → Option (Dict ℕ (Unit {0})) → Result Acceptor
add_conn s conn none = panic
add_conn s conn (some d) = ok (record s {
  active_conn = some (insert conn tt d);
  serve_wg = s.serve_wg + 1;
  handlers = insert conn serving s.handlers;
  established = s.established ++ (conn ∷ []);
  position = selecting;
})

abbrev pub plugged_in : Acceptor → ℕ × Result (Unit {0}) → Result Acceptor
plugged_in s (conn, ok _) = add_conn s conn s.active_conn
plugged_in s (conn, err e) = ok (record s { position = selecting })
plugged_in s (conn, panic) = panic

unfoldable pub accept_conn : Acceptor → Result ℕ → Result Acceptor
accept_conn s (ok conn) = plugged_in s (do_handle_conn_accept s.plugin_manager conn)
accept_conn s (err e) = ok (record s { position = selecting })
accept_conn s panic = panic

-- The codec of `handleConn`: whether there is one.
unfoldable pub has_codec : ServerConfig → Bool
has_codec c = if same c.codec_type (codes "json") then true else same c.codec_type (codes "gob")

-- `handleConn`: the end of `serveCodec`, which closes the codec with its connection; the deletion
-- from the table; and the hook and `serveWG.Done`, which panics below zero.
unfoldable pub end_serving : Acceptor → ℕ → Acceptor
unfolding has_codec
end_serving s conn = record s {
  handlers = insert conn served s.handlers;
  closed = if has_codec s.server_config then s.closed ++ (conn ∷ []) else s.closed;
}

abbrev pub without : ℕ → Option (Dict ℕ (Unit {0})) → Option (Dict ℕ (Unit {0}))
without conn none = none
without conn (some d) = some (erase conn d)

unfoldable pub forget_conn : Acceptor → ℕ → Acceptor
forget_conn s conn = record s {
  active_conn = without conn s.active_conn;
  handlers = insert conn forgotten s.handlers;
}

abbrev pub wait_group_done : Acceptor → ℕ → Result Acceptor
wait_group_done s conn =
    if s.serve_wg == 0
    then panic
    else ok (record s { serve_wg = s.serve_wg - 1; handlers = erase conn s.handlers })

unfoldable pub finish_conn : Acceptor → ℕ → Result Acceptor
finish_conn s conn = elim (do_handle_conn_close s.plugin_manager) [
  | ok _ ↦ wait_group_done s conn
  | err e ↦ wait_group_done s conn
  | panic ↦ panic
]
