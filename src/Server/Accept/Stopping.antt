-- ===== src/Server/Accept/Stopping.antt =====
-- A server that was told to stop gets to the end of its wait once its connections end.
use byterpc.Common.{
  ℕ, zero, suc, ◌+◌, ◌-◌, ◌≡◌, ◌≢◌, ◌∙◌, refl, ap, sym, [], ◌∷◌, some, ==_iff, Dict, lookup, erase,
  lookup-insert, nat_eq, length, length-insert_old, length-erase, Result, ok, err, panic, arith,
}
use byterpc.Plugin.Server.{do_handle_conn_close}
use byterpc.Server.Accept.{
  Acceptor, Phase, serving, served, forgotten, waiting, end_serving, forget_conn, finish_conn,
  wait_group_done,
}
use byterpc.Server.Accept.Steps.{
  Step, starts, waits, passes, stops, turns, ends, forgets, finishes, Reach, next,
}
use byterpc.Server.Accept.Safety.{Reach-Inv}

-- The steps of the goroutines of connections.
abbrev pub Leaves : {s t : Acceptor} → Step s t → Type 0
Leaves (starts s t p h) = ⊥
Leaves (waits s p) = ⊥
Leaves (passes s p) = ⊥
Leaves (stops s p idle) = ⊥
Leaves (turns s t conn p new made) = ⊥
Leaves (ends s conn h) = Unit
Leaves (forgets s conn h) = Unit
Leaves (finishes s t conn h made) = Unit

pub data Left (s : Acceptor) : Acceptor → Type 0 where
  stay : Left s s
  then_step : {t u : Acceptor} → Left s t → (st : Step t u) → Leaves st → Left s u

-- Where the goroutine of one connection is gone.
record OneLess (s t u : Acceptor) : Type 0 where
  left : Left s u
  fewer : length u.handlers + 1 ≡ length t.handlers
  same_position : u.position ≡ t.position
  same_plugins : u.plugin_manager ≡ t.plugin_manager

module _ {s : Acceptor} (reachable : Reach s) where
  Left-Reach : {t : Acceptor} → Left s t → Reach t
  Left-Reach stay = reachable
  Left-Reach (then_step l st h) = next (Left-Reach l) st

  done_ok :
      (t : Acceptor) (conn : ℕ)
      → do_handle_conn_close t.plugin_manager ≢ panic
      → t.serve_wg ≢ 0
      → finish_conn t conn
        ≡ ok (record t { serve_wg = t.serve_wg - 1; handlers = erase conn t.handlers })
  unfolding finish_conn
  done_ok t conn hook busy = by_hook (do_handle_conn_close t.plugin_manager) hook
    where
      by_hook :
          (x : Result (Unit {0}))
          → x ≢ panic
          → (elim x [
            | ok _ ↦ wait_group_done t conn
            | err e ↦ wait_group_done t conn
            | panic ↦ panic
          ])
            ≡ ok (record t { serve_wg = t.serve_wg - 1; handlers = erase conn t.handlers })
      by_hook (ok _) h = ground (arith, ==_iff t.serve_wg 0)
      by_hook (err e) h = ground (arith, ==_iff t.serve_wg 0)
      by_hook panic h = absurd (h refl)

  forgotten_leaves :
      (t : Acceptor) (conn : ℕ)
      → Left s t
      → do_handle_conn_close t.plugin_manager ≢ panic
      → lookup conn t.handlers ≡ some forgotten
      → (u : Acceptor) × OneLess s t u
  forgotten_leaves t conn l hook h =
      let v = Reach-Inv (Left-Reach l) in
      let shorter = length-erase conn forgotten t.handlers v.distinct h in
      (
        _,
        record {
          left =
              then_step l
                (finishes t _ conn h (done_ok t conn hook (λ e. omega (arith, v.counted, shorter))))
                tt;
          fewer = shorter;
          same_position = refl;
          same_plugins = refl;
        },
      )

  served_leaves :
      (t : Acceptor) (conn : ℕ)
      → Left s t
      → do_handle_conn_close t.plugin_manager ≢ panic
      → lookup conn t.handlers ≡ some served
      → (u : Acceptor) × OneLess s t u
  unfolding forget_conn
  served_leaves t conn l hook h =
      let (u, less) =
        forgotten_leaves (forget_conn t conn) conn (then_step l (forgets t conn h) tt) hook
          (lookup-insert conn conn forgotten t.handlers ∙ rw ((==_iff conn conn).1 refl) refl) in
      (
        u,
        record {
          left = less.left;
          fewer = less.fewer ∙ length-insert_old conn forgotten served t.handlers h;
          same_position = less.same_position;
          same_plugins = less.same_plugins;
        },
      )

  serving_leaves :
      (t : Acceptor) (conn : ℕ)
      → Left s t
      → do_handle_conn_close t.plugin_manager ≢ panic
      → lookup conn t.handlers ≡ some serving
      → (u : Acceptor) × OneLess s t u
  unfolding end_serving
  serving_leaves t conn l hook h =
      let (u, less) =
        served_leaves (end_serving t conn) conn (then_step l (ends t conn h) tt) hook
          (lookup-insert conn conn served t.handlers ∙ rw ((==_iff conn conn).1 refl) refl) in
      (
        u,
        record {
          left = less.left;
          fewer = less.fewer ∙ length-insert_old conn served serving t.handlers h;
          same_position = less.same_position;
          same_plugins = less.same_plugins;
        },
      )

  first_leaves :
      (t : Acceptor) (conn : ℕ) (p : Phase)
      → Left s t
      → do_handle_conn_close t.plugin_manager ≢ panic
      → lookup conn t.handlers ≡ some p
      → (u : Acceptor) × OneLess s t u
  first_leaves t conn serving = serving_leaves t conn
  first_leaves t conn served = served_leaves t conn
  first_leaves t conn forgotten = forgotten_leaves t conn

  head_lookup :
      (d : Dict ℕ Phase) (n : ℕ)
      → length d ≡ suc n
      → (conn : ℕ) × ((p : Phase) × (lookup conn d ≡ some p))
  head_lookup [] n h = absurd (omega arith)
  head_lookup ((conn, p) ∷ d) n h = (conn, (p, rw ((==_iff conn conn).1 refl) refl))

  all_leave :
      (n : ℕ) (t : Acceptor)
      → length t.handlers ≡ n
      → Left s t
      → do_handle_conn_close t.plugin_manager ≢ panic
      → (u : Acceptor) × (Left s u × ((length u.handlers ≡ 0) × (u.position ≡ t.position)))
  all_leave zero t h l hook = (t, (l, (h, refl)))
  all_leave (suc n) t h l hook =
      let (conn, (p, found)) = head_lookup t.handlers n h in
      let (u, less) = first_leaves t conn p l hook found in
      let (last, (to_last, (none_left, at))) =
        all_leave n u (omega (arith, less.fewer)) less.left
          (λ e. hook (ap do_handle_conn_close (sym less.same_plugins) ∙ e)) in
      (last, (to_last, (none_left, at ∙ less.same_position)))

-- In every state that a server gets to, if no connection that it has had comes again and the
-- plugins do not panic at the end of a connection: after the server was told to stop, the ends of
-- its connections alone lead to a state in which it is still to stop and its wait group is at zero.
pub stop_ends :
    {s : Acceptor}
    → Reach s
    → s.position ≡ waiting
    → do_handle_conn_close s.plugin_manager ≢ panic
    → (t : Acceptor) × (Left s t × ((t.position ≡ waiting) × (t.serve_wg ≡ 0)))
stop_ends {s} r p hook =
    let (t, (l, (empty, at))) = all_leave r (length s.handlers) s refl stay hook in
    (t, (l, (at ∙ p, (Reach-Inv (Left-Reach r l)).counted ∙ empty)))
