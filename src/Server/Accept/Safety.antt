-- ===== src/Server/Accept/Safety.antt =====
-- What the invariant says of the table, the wait group and the end of a server's connections.
use byterpc.Common.{
  ℕ, ◌≡◌, ◌≢◌, ◌∙◌, inl, inr, refl, ap, true, false, ==_iff, List, [], ◌∷◌, ◌++◌, Option, none,
  some, Dict, lookup, lookup-insert, nat_eq, length, Result, ok, err, panic, arith,
}
use byterpc.Plugin.{Manager}
use byterpc.Plugin.Server.{do_handle_conn_accept, do_handle_conn_close}
use byterpc.Server.Accept.{
  Acceptor, Phase, serving, waiting, accepting, has_codec, on_stop, accept_conn, finish_conn,
  wait_group_done, add_conn, plugged_in,
}
use byterpc.Server.Accept.Steps.{
  Step, starts, waits, passes, stops, turns, ends, forgets, finishes, Reach, init, next, member,
}
use byterpc.Server.Accept.Tables.{in_table, is_tracked, Inv, has_table}
use byterpc.Server.Accept.Invariant.{
  init-Inv, moved-Inv, start-Inv, ends-Inv, forgets-Inv, finishes-Inv, turns-Inv,
}

setting-Inv :
    (s : Acceptor) (pm : Manager) (listeners : List ℕ)
    → Inv s
    → Inv (record s { plugin_manager = pm; stop_listeners = listeners })
setting-Inv s pm listeners v = record {
  counted = v.counted;
  distinct = v.distinct;
  ready = v.ready;
  table = v.table;
  logged = v.logged;
  known = v.known;
  still_open = v.still_open;
  ended = v.ended;
}

step-Inv : {s t : Acceptor} → Step s t → Inv s → Inv t
unfolding on_stop
step-Inv (starts s t p h) v = start-Inv s t h v
step-Inv (waits s p) v =
    moved-Inv s waiting s.stopped (has_table s.position s.active_conn (λ e. cc) v.ready) v
step-Inv (passes s p) v =
    moved-Inv s accepting s.stopped (has_table s.position s.active_conn (λ e. cc) v.ready) v
step-Inv (stops s p idle) v =
    moved-Inv s accepting _ (has_table s.position s.active_conn (λ e. cc) v.ready) v
step-Inv (turns s t conn p new made) v =
    turns-Inv s t conn (has_table s.position s.active_conn (λ e. cc) v.ready) new made v
step-Inv (ends s conn h) v = ends-Inv s conn h v
step-Inv (forgets s conn h) v = forgets-Inv s conn h v
step-Inv (finishes s t conn h made) v = finishes-Inv s t conn h made v

pub Reach-Inv : {s : Acceptor} → Reach s → Inv s
Reach-Inv (init conf listened pm listeners s h) =
    setting-Inv s pm listeners (init-Inv conf listened s h)
Reach-Inv (next r st) = step-Inv st (Reach-Inv r)

-- In every state that a server gets to, with any plugins, under every interleaving of its accept
-- loop and its connections, if no connection that it has had comes again: the wait group counts the
-- goroutines of connections, and a connection is in the table exactly while such a goroutine has it
-- and has not deleted it.
pub connections_counted :
    {s : Acceptor}
    → Reach s
    → (s.serve_wg ≡ length s.handlers)
      × ((conn : ℕ) → in_table conn s.active_conn ≡ is_tracked (lookup conn s.handlers))
connections_counted r = let v = Reach-Inv r in (v.counted, v.table)

no_handlers : (d : Dict ℕ Phase) → length d ≡ 0 → (conn : ℕ) → lookup conn d ≡ none
no_handlers [] h conn = refl
no_handlers (x ∷ d) h conn = absurd (omega (arith, h))

-- In every state that a server gets to, if no connection that it has had comes again, when it was
-- told to stop and its wait group is at zero: it calls its stop listeners in their order, no
-- connection is in its table or has a goroutine, and with a codec type that there is, every
-- connection that was established has been closed.
pub on_stop-connections :
    {s : Acceptor}
    → Reach s
    → s.position ≡ waiting
    → s.serve_wg ≡ 0
    → let t = on_stop s in
      (t.stopped ≡ s.stopped ++ s.stop_listeners)
      × ((conn : ℕ)
          → (in_table conn t.active_conn ≡ false)
            × (lookup conn t.handlers ≡ none)
            × (has_codec t.server_config ≡ true
                → member conn t.established ≡ true
                → member conn t.closed ≡ true))
unfolding on_stop
on_stop-connections {s} r p idle =
    let v = Reach-Inv r in
    let gone : (conn : ℕ) → lookup conn s.handlers ≡ none =
      no_handlers s.handlers (omega (arith, v.counted)) in
    (
      refl,
      λ conn. (
        v.table conn ∙ ap is_tracked (gone conn),
        gone conn,
        λ k m. elim (v.ended conn k m) [ inl e ↦ absurd (cc (e, gone conn)) | inr e ↦ e ],
      ),
    )

-- In every state that a server gets to, no connection that its goroutine is serving has been closed.
pub serving_open :
    {s : Acceptor} (conn : ℕ)
    → Reach s
    → lookup conn s.handlers ≡ some serving
    → member conn s.closed ≡ false
serving_open conn r h = (Reach-Inv r).still_open conn h

-- In every state that a server gets to, `Done` of the wait group does not panic for a connection
-- that its goroutine has, and a connection that `Accept` returns does not meet a nil table: what is
-- left to panic are the hooks of plugins.
pub no_panic :
    {s : Acceptor} (conn : ℕ)
    → Reach s
    → (lookup conn s.handlers ≢ none
        → do_handle_conn_close s.plugin_manager ≢ panic
        → finish_conn s conn ≢ panic)
      × (s.position ≡ accepting
          → (do_handle_conn_accept s.plugin_manager conn).1 ≢ panic
          → accept_conn s (ok conn) ≢ panic)
unfolding finish_conn accept_conn
no_panic {s} conn r = (
  λ h hook. by_close (do_handle_conn_close s.plugin_manager) hook (busy h),
  λ p hook.
      by_plugins (do_handle_conn_accept s.plugin_manager conn) s.active_conn hook
        (has_table s.position s.active_conn (λ e. cc) (Reach-Inv r).ready),
)
  where
    busy : lookup conn s.handlers ≢ none → s.serve_wg ≢ 0
    busy h e = h (no_handlers s.handlers (omega (arith, (Reach-Inv r).counted)) conn)

    by_close :
        (x : Result (Unit {0}))
        → x ≢ panic
        → s.serve_wg ≢ 0
        → (elim x [
          | ok _ ↦ wait_group_done s conn
          | err e ↦ wait_group_done s conn
          | panic ↦ panic
        ])
          ≢ panic
    by_close (ok _) hook busy e = ground (arith, ==_iff s.serve_wg 0)
    by_close (err x) hook busy e = ground (arith, ==_iff s.serve_wg 0)
    by_close panic hook busy e = hook refl

    by_plugins :
        (x : ℕ × Result (Unit {0})) (table : Option (Dict ℕ (Unit {0})))
        → x.1 ≢ panic
        → table ≢ none
        → plugged_in (record s { active_conn = table }) x ≢ panic
    by_plugins (c, ok _) none hook there e = there refl
    by_plugins (c, ok _) (some d) hook there e = cc
    by_plugins (c, err x) table hook there e = cc
    by_plugins (c, panic) table hook there e = hook refl

added_to_table :
    (s : Acceptor) (x : ℕ × Result (Unit {0})) (table : Option (Dict ℕ (Unit {0})))
    → s.active_conn ≡ table
    → table ≢ none
    → x.1 ≡ ok tt
    → (t : Acceptor) × ((plugged_in s x ≡ ok t) × (in_table x.0 t.active_conn ≡ true))
added_to_table s (conn, ok _) none e there h = absurd (there refl)
added_to_table s (conn, ok _) (some d) e there h =
    (_, (ap (add_conn s conn) e, ground (arith, lookup-insert conn conn tt d, ==_iff conn conn)))
added_to_table s (conn, err x) table e there h = cc
added_to_table s (conn, panic) table e there h = cc

-- A server that was told to stop, once it has called its stop listeners, enters the next connection
-- that the plugins let pass into its table as before.
pub accept_conn-on_stop :
    {s : Acceptor} (conn : ℕ)
    → Reach s
    → s.position ≡ waiting
    → (do_handle_conn_accept s.plugin_manager conn).1 ≡ ok tt
    → (t : Acceptor) × ((accept_conn (on_stop s) (ok conn) ≡ ok t)
        × (in_table (do_handle_conn_accept s.plugin_manager conn).0 t.active_conn ≡ true))
unfolding accept_conn on_stop
accept_conn-on_stop {s} conn r p h =
    added_to_table (on_stop s) (do_handle_conn_accept s.plugin_manager conn) s.active_conn refl
      (has_table s.position s.active_conn (λ e. cc) (Reach-Inv r).ready) h
