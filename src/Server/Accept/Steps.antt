-- ===== src/Server/Accept/Steps.antt =====
-- The interleavings of the accept loop and the goroutines of the connections.
use byterpc.Common.{
  ℕ, ◌≡◌, Bool, false, ◌||◌, ◌==◌, List, [], ◌∷◌, some, lookup, nat_eq, Result, ok, err, panic,
  Text,
}
use byterpc.Config.{ServerConfig}
use byterpc.Plugin.{Manager}
use byterpc.Plugin.Server.{do_handle_conn_accept}
use byterpc.Server.Accept.{
  Acceptor, serving, served, forgotten, not_started, selecting, waiting, accepting,
  new_rpc_server_with_options, start, on_stop, accept_conn, end_serving, forget_conn, finish_conn,
}

abbrev pub member : ℕ → List ℕ → Bool
member n [] = false
member n (m ∷ l) = n == m || member n l

-- The connection that the plugins make of an accepted one is not one that the server has had.
abbrev pub IsNew : Acceptor → Result ℕ → Type 0
IsNew s (ok conn) = member (do_handle_conn_accept s.plugin_manager conn).0 s.established ≡ false
IsNew s (err e) = Unit
IsNew s panic = Unit

-- `waits` is a receive from `stopChan`, and `turns` the rest of a round after `Accept`.
pub data Step : Acceptor → Acceptor → Type 0 where
  starts : (s t : Acceptor) → s.position ≡ not_started → start s ≡ ok t → Step s t
  waits : (s : Acceptor) → s.position ≡ selecting → Step s (record s { position = waiting })
  passes : (s : Acceptor) → s.position ≡ selecting → Step s (record s { position = accepting })
  stops : (s : Acceptor) → s.position ≡ waiting → s.serve_wg ≡ 0 → Step s (on_stop s)
  turns :
      (s t : Acceptor) (conn : Result ℕ)
      → s.position ≡ accepting
      → IsNew s conn
      → accept_conn s conn ≡ ok t
      → Step s t
  ends :
      (s : Acceptor) (conn : ℕ)
      → lookup conn s.handlers ≡ some serving
      → Step s (end_serving s conn)
  forgets :
      (s : Acceptor) (conn : ℕ) → lookup conn s.handlers ≡ some served → Step s (forget_conn s conn)
  finishes :
      (s t : Acceptor) (conn : ℕ)
      → lookup conn s.handlers ≡ some forgotten
      → finish_conn s conn ≡ ok t
      → Step s t

-- The states that a new server can get to, with any plugins and any listeners.
pub data Reach : Acceptor → Type 0 where
  init :
      (conf : ServerConfig) (listened : Result Text) (pm : Manager) (listeners : List ℕ)
      (s : Acceptor)
      → new_rpc_server_with_options conf listened ≡ ok s
      → Reach (record s { plugin_manager = pm; stop_listeners = listeners })
  next : {s t : Acceptor} → Reach s → Step s t → Reach t
