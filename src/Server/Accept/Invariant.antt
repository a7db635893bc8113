-- ===== src/Server/Accept/Invariant.antt =====
-- The connections of a server stay well-formed across every step.
use byterpc.Common.{
  length-insert_new, length-insert_old, length-erase, ℕ, ◌+◌, ◌-◌, ◌≡◌, ◌≢◌, ◌∙◌, inl, inr, refl,
  ap, subst, false, ◌==◌, ==_iff, List, [], ◌∷◌, ◌++◌, Option, none, some, Option-cases, Bool-cases,
  Dict, lookup, insert, erase, insert-KeysDistinct, erase-KeysDistinct, lookup-insert, lookup-erase,
  nat_eq, Result, ok, err, panic, Text, arith,
}
use byterpc.Config.{ServerConfig}
use byterpc.Plugin.Server.{do_handle_conn_accept, do_handle_conn_close}
use byterpc.Server.Accept.{
  Acceptor, Position, serving, served, forgotten, not_started, selecting, waiting, accepting,
  new_rpc_server_with_options, made_table, start, accept_conn, end_serving, forget_conn,
  finish_conn, wait_group_done, add_conn, plugged_in,
}
use byterpc.Server.Accept.Steps.{member, IsNew}
use byterpc.Server.Accept.Tables.{
  member-append, in_table, IsReady, Inv, without-IsReady, in_table-without,
}

ok-Inv : {s t : Acceptor} → ok s ≡ ok t → Inv s → Inv t
ok-Inv h v = subst (λ r. elim r [ ok x ↦ Inv x | err e ↦ Unit | panic ↦ Unit ]) h v

pub init-Inv :
    (conf : ServerConfig) (listened : Result Text) (s : Acceptor)
    → new_rpc_server_with_options conf listened ≡ ok s
    → Inv s
unfolding new_rpc_server_with_options
init-Inv conf (ok address) s h = ok-Inv h (record {
  counted = omega arith;
  distinct = tt;
  ready = tt;
  table = λ conn. refl;
  logged = λ conn h. absurd (h refl);
  known = λ conn h. cc;
  still_open = λ conn h. cc;
  ended = λ conn c h. cc;
})
init-Inv conf (err e) s h = cc
init-Inv conf panic s h = cc

-- A position that the loop changes to, on a table that there is.
pub moved-Inv :
    (s : Acceptor) (p : Position) (stopped : List ℕ)
    → s.active_conn ≢ none
    → Inv s
    → Inv (record s { position = p; stopped = stopped })
moved-Inv s p stopped there v = record {
  counted = v.counted;
  distinct = v.distinct;
  ready = is_ready p;
  table = v.table;
  logged = v.logged;
  known = v.known;
  still_open = v.still_open;
  ended = v.ended;
}
  where
    is_ready : (p : Position) → IsReady p s.active_conn
    is_ready not_started = tt
    is_ready selecting = there
    is_ready waiting = there
    is_ready accepting = there

pub start_inverse :
    (s t : Acceptor)
    → start s ≡ ok t
    → t ≡ record s { active_conn = made_table s.active_conn; position = selecting }
unfolding start
start_inverse s t h = ground arith

pub start-Inv : (s t : Acceptor) → start s ≡ ok t → Inv s → Inv t
start-Inv s t h v = rw (start_inverse s t h) (record {
  counted = v.counted;
  distinct = v.distinct;
  ready = made s.active_conn;
  table = λ conn. same_table conn s.active_conn ∙ v.table conn;
  logged = v.logged;
  known = v.known;
  still_open = v.still_open;
  ended = v.ended;
})
  where
    made : (x : Option (Dict ℕ (Unit {0}))) → made_table x ≢ none
    made none h = cc
    made (some d) h = cc

    same_table :
        (conn : ℕ) (x : Option (Dict ℕ (Unit {0}))) → in_table conn (made_table x) ≡ in_table conn x
    same_table conn none = refl
    same_table conn (some d) = refl

pub added-Inv :
    (s : Acceptor) (conn : ℕ) (d : Dict ℕ (Unit {0}))
    → s.active_conn ≡ some d
    → member conn s.established ≡ false
    → Inv s
    → Inv (record s {
      active_conn = some (insert conn tt d);
      serve_wg = s.serve_wg + 1;
      handlers = insert conn serving s.handlers;
      established = s.established ++ (conn ∷ []);
      position = selecting;
    })
added-Inv s conn d open_table new v =
    let absent : lookup conn s.handlers ≡ none = elim (Option-cases (lookup conn s.handlers)) [
      | inl e ↦ e
      | inr (p, e) ↦ absurd (cc (v.logged conn (λ q. cc), new))
    ] in
    record {
      counted = omega (arith, v.counted, length-insert_new conn serving s.handlers absent);
      distinct = insert-KeysDistinct conn serving s.handlers v.distinct;
      ready = λ e. cc;
      table = λ c. ground (
        arith,
        v.table c,
        ap (in_table c) open_table,
        lookup-insert c conn tt d,
        lookup-insert c conn serving s.handlers,
        ==_iff c conn,
      );
      logged = λ c h. ground (
        arith,
        v.logged c,
        member-append c s.established (conn ∷ []),
        lookup-insert c conn serving s.handlers,
      );
      known = λ c h. ground (arith, v.known c h, member-append c s.established (conn ∷ []));
      still_open = λ c h. elim (Bool-cases (member c s.closed)) [
        | inl shut ↦ absurd (
            ground (
              arith,
              v.known c shut,
              v.still_open c,
              lookup-insert c conn serving s.handlers,
              ==_iff c conn,
            ))
        | inr kept ↦ kept
      ];
      ended = λ c k h. elim (Bool-cases (c == conn)) [
        | inl here ↦ inl (lookup-insert c conn serving s.handlers ∙ rw here refl)
        | inr there ↦
            elim (v.ended c k (ground (arith, member-append c s.established (conn ∷ [])))) [
              | inl e ↦ inl (lookup-insert c conn serving s.handlers ∙ rw there e)
              | inr e ↦ inr e
            ]
      ];
    }

pub ends-Inv :
    (s : Acceptor) (conn : ℕ)
    → lookup conn s.handlers ≡ some serving
    → Inv s
    → Inv (end_serving s conn)
unfolding end_serving
ends-Inv s conn h v = record {
  counted = omega (arith, v.counted, length-insert_old conn served serving s.handlers h);
  distinct = insert-KeysDistinct conn served s.handlers v.distinct;
  ready = v.ready;
  table = λ c.
      ground
        (arith, v.table c, v.table conn, lookup-insert c conn served s.handlers, ==_iff c conn);
  logged = λ c k.
      ground
        (arith, v.logged c, v.logged conn, lookup-insert c conn served s.handlers, ==_iff c conn);
  known = λ c k.
      ground (arith, v.known c, v.logged conn, member-append c s.closed (conn ∷ []), ==_iff c conn);
  still_open = λ c k. ground (
    arith,
    v.still_open c,
    member-append c s.closed (conn ∷ []),
    lookup-insert c conn served s.handlers,
    ==_iff c conn,
  );
  ended = λ c k m. elim (Bool-cases (c == conn)) [
    | inl here ↦ inr (rw k (member-append c s.closed (conn ∷ []) ∙ ground arith))
    | inr there ↦ elim (v.ended c k m) [
      | inl e ↦ inl (lookup-insert c conn served s.handlers ∙ rw there e)
      | inr e ↦ inr (rw k (ground (arith, member-append c s.closed (conn ∷ []))))
    ]
  ];
}

pub forgets-Inv :
    (s : Acceptor) (conn : ℕ)
    → lookup conn s.handlers ≡ some served
    → Inv s
    → Inv (forget_conn s conn)
unfolding forget_conn
forgets-Inv s conn h v = record {
  counted = omega (arith, v.counted, length-insert_old conn forgotten served s.handlers h);
  distinct = insert-KeysDistinct conn forgotten s.handlers v.distinct;
  ready = without-IsReady conn s.position s.active_conn v.ready;
  table = λ c. ground (
    arith,
    in_table-without c conn s.active_conn,
    v.table c,
    lookup-insert c conn forgotten s.handlers,
  );
  logged = λ c k.
      ground (
        arith,
        v.logged c,
        v.logged conn,
        lookup-insert c conn forgotten s.handlers,
        ==_iff c conn,
      );
  known = v.known;
  still_open = λ c k.
      ground (arith, v.still_open c, lookup-insert c conn forgotten s.handlers, ==_iff c conn);
  ended = λ c k m. elim (v.ended c k m) [
    | inl e ↦ inl (ground (arith, lookup-insert c conn forgotten s.handlers, ==_iff c conn))
    | inr e ↦ inr e
  ];
}

pub wait_group_done-Inv :
    (s t : Acceptor) (conn : ℕ)
    → lookup conn s.handlers ≡ some forgotten
    → wait_group_done s conn ≡ ok t
    → Inv s
    → Inv t
wait_group_done-Inv s t conn h made v = rw inverse (record {
  counted = omega (arith, v.counted, length-erase conn forgotten s.handlers v.distinct h);
  distinct = erase-KeysDistinct conn s.handlers v.distinct;
  ready = v.ready;
  table = λ c. ground (arith, v.table c, lookup-erase c conn s.handlers, ==_iff c conn);
  logged = λ c k. v.logged c (λ e. ground (arith, lookup-erase c conn s.handlers));
  known = v.known;
  still_open = λ c k. ground (arith, v.still_open c, lookup-erase c conn s.handlers, ==_iff c conn);
  ended = λ c k m. elim (v.ended c k m) [
    | inl e ↦ inl (ground (arith, lookup-erase c conn s.handlers, ==_iff c conn))
    | inr e ↦ inr e
  ];
})
  where
    inverse : t ≡ record s { serve_wg = s.serve_wg - 1; handlers = erase conn s.handlers }
    inverse = ground arith

pub finishes-Inv :
    (s t : Acceptor) (conn : ℕ)
    → lookup conn s.handlers ≡ some forgotten
    → finish_conn s conn ≡ ok t
    → Inv s
    → Inv t
unfolding finish_conn
finishes-Inv s t conn h made v = by_hook (do_handle_conn_close s.plugin_manager) made
  where
    by_hook :
        (x : Result (Unit {0}))
        → (elim x [
          | ok _ ↦ wait_group_done s conn
          | err e ↦ wait_group_done s conn
          | panic ↦ panic
        ])
          ≡ ok t
        → Inv t
    by_hook (ok _) e = wait_group_done-Inv s t conn h e v
    by_hook (err x) e = wait_group_done-Inv s t conn h e v
    by_hook panic e = cc

pub add_conn-Inv :
    (s t : Acceptor) (conn : ℕ) (x : Option (Dict ℕ (Unit {0})))
    → s.active_conn ≡ x
    → add_conn s conn x ≡ ok t
    → member conn s.established ≡ false
    → Inv s
    → Inv t
add_conn-Inv s t conn none e made new v = cc
add_conn-Inv s t conn (some d) e made new v = ok-Inv made (added-Inv s conn d e new v)

pub turns-Inv :
    (s t : Acceptor) (conn : Result ℕ)
    → s.active_conn ≢ none
    → IsNew s conn
    → accept_conn s conn ≡ ok t
    → Inv s
    → Inv t
unfolding accept_conn
turns-Inv s t (ok raw) there new made v =
    by_plugins (do_handle_conn_accept s.plugin_manager raw) new made
  where
    by_plugins :
        (x : ℕ × Result (Unit {0}))
        → member x.0 s.established ≡ false
        → plugged_in s x ≡ ok t
        → Inv t
    by_plugins (conn, ok _) new e = add_conn-Inv s t conn s.active_conn refl e new v
    by_plugins (conn, err x) new e = ok-Inv e (moved-Inv s selecting s.stopped there v)
    by_plugins (conn, panic) new e = cc
turns-Inv s t (err e) there new made v = ok-Inv made (moved-Inv s selecting s.stopped there v)
turns-Inv s t panic there new made v = cc
