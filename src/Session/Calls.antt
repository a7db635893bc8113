-- ===== src/Session/Calls.antt =====
-- The methods of a client's calls, which no step changes, and the numbers that leave its map.
use byterpc.Common.{
  ℕ, ◌≡◌, ◌∙◌, refl, [], ◌∷◌, Option, none, some, if◌then◌else◌, ◌==◌, ==_iff, Text, Dict, lookup,
  nat_eq, lookup-insert, lookup-erase, arith, Error, inl, inr, Option-cases, ok,
}
use byterpc.Plugin.{new_manager}
use byterpc.Client.{
  Client, Call, RpcResponse, done, fail, update_call, drop_pending, fail_all, receive_one,
  finish_write,
}
use byterpc.Client.Rounds.{receive_one-drop_pending, finish_with}

abbrev pub call_method : Option Call → Option Text
call_method none = none
call_method (some c) = some c.service_method

abbrev pub KeepsMethod : (Call → Call) → Type 0
KeepsMethod f = (c : Call) → (f c).service_method ≡ c.service_method

pub update_call-method :
    (f : Call → Call) (id j : ℕ) (d : Dict ℕ Call)
    → KeepsMethod f
    → call_method (lookup j (update_call id f d)) ≡ call_method (lookup j d)
update_call-method f id j d keeps = elim (Option-cases (lookup id d)) [
  | inl missing ↦ ground arith
  | inr (c, found) ↦ ground (arith, lookup-insert j id (f c) d, ==_iff j id, keeps c)
]

pub fail-KeepsMethod : (e : Error) → KeepsMethod (fail e)
unfolding done
fail-KeepsMethod e c = ground arith

pub finish_with-KeepsMethod :
    (r : RpcResponse) (body : Option Error) → KeepsMethod (finish_with r body)
unfolding done
finish_with-KeepsMethod r none c = ground arith
finish_with-KeepsMethod r (some e) c = ground arith

pub fail_all-method :
    (e : Error) (j : ℕ) (p : Dict ℕ ℕ) (d : Dict ℕ Call)
    → call_method (lookup j (fail_all e p d)) ≡ call_method (lookup j d)
unfolding fail_all
fail_all-method e j [] d = refl
fail_all-method e j ((s, id) ∷ p) d =
    fail_all-method e j p (update_call id (fail e) d)
    ∙ update_call-method (fail e) id j d (fail-KeepsMethod e)

-- What is left of a client when a number leaves the map.
pub record Dropped (k : ℕ) (c d : Client) : Type 0 where
  pub pending : (n : ℕ) → lookup n d.pending ≡ (if n == k then none else lookup n c.pending)
  pub methods : (j : ℕ) → call_method (lookup j d.calls) ≡ call_method (lookup j c.calls)
  pub same_seq : d.seq ≡ c.seq

pub drop_pending-Dropped :
    (c : Client) (k : ℕ) (f : Call → Call) → KeepsMethod f → Dropped k c (drop_pending c k f)
drop_pending-Dropped c k f keeps = elim (Option-cases (lookup k c.pending)) [
  | inl missing ↦
      rw (missing, drop_pending)
        (record { pending = λ n. lookup-erase n k c.pending; methods = λ j. refl; same_seq = refl })
  | inr (id, found) ↦
      rw (found, drop_pending)
        (record {
          pending = λ n. lookup-erase n k c.pending;
          methods = λ j. update_call-method f id j c.calls keeps;
          same_seq = refl;
        })
]

pub drop_pending-in_flight :
    (c : Client) (k : ℕ) (f : Call → Call) → (drop_pending c k f).in_flight ≡ c.in_flight
drop_pending-in_flight c k f = ground arith

pub receive_one-Dropped :
    (c : Client) (r : RpcResponse) (body : Option Error)
    → c.plugin_manager ≡ new_manager
    → Dropped r.seq c (receive_one c (ok r) body)
      × ((receive_one c (ok r) body).in_flight ≡ c.in_flight)
receive_one-Dropped c r body bare =
    let d = drop_pending-Dropped c r.seq (finish_with r body) (finish_with-KeepsMethod r body) in
    rw (receive_one-drop_pending c r body bare) (
      record { pending = d.pending; methods = d.methods; same_seq = d.same_seq },
      drop_pending-in_flight c r.seq (finish_with r body),
    )

pub finish_write-Dropped :
    (c : Client) (k : ℕ) (e : Error)
    → Dropped k c (finish_write c k (some e)) × ((finish_write c k (some e)).in_flight ≡ none)
unfolding finish_write
finish_write-Dropped c k e =
    let d = drop_pending-Dropped (record c { in_flight = none }) k (fail e) (fail-KeepsMethod e) in
    (
      record { pending = d.pending; methods = d.methods; same_seq = d.same_seq },
      drop_pending-in_flight (record c { in_flight = none }) k (fail e),
    )
