-- ===== src/Client/Invariant.antt =====
-- The invariant of a client under every interleaving, and what it says of the calls.
use native.Mathlib.Nat.{mod-eq_of_lt}
use byterpc.Common.{
  length-insert_new, length-insert_old, ℕ, ◌+◌, ◌%◌, ◌≡◌, ◌<◌, ◌≤◌, ◌∙◌, refl, Bool, true, false,
  [], ◌∷◌, Option, none, some, ◌||◌, Dict, lookup, insert, nat_eq, KeysDistinct,
  insert-KeysDistinct, AllEntries, AllEntries-insert, AllEntries-lookup, arith, Error, length, inl,
  inr, Bool-cases, Option-cases, Text, ok, shutdown,
}
use byterpc.Plugin.{new_manager}
use byterpc.Client.{
  Client, Call, Receiver, reading, broken, ended, u64, new_client, fail, update_call, go_call,
  register, fail_all,
}
use byterpc.Client.Tally.{
  finished, Conserved, Settled, finished-fail, insert-Conserved, refuse-Conserved, refuse-Settled,
}

-- The calls while `receive` runs and after its end.
abbrev pub Accounts : Receiver → Dict ℕ ℕ → Dict ℕ Call → Type 0
Accounts reading p d = Conserved p d
Accounts (broken e) p d = Conserved p d
Accounts ended p d = Settled d

-- After the end of `receive` the client is shut down and no call is being sent.
abbrev pub AtEnd : Receiver → Bool → Option ℕ → Type 0
AtEnd reading s f = Unit
AtEnd (broken e) s f = Unit
AtEnd ended s f = (s ≡ true) × (f ≡ none)

abbrev pub IsBelow : ℕ → ℕ → ℕ → Type 0
IsBelow n s id = s < n

pub record Inv (c : Client) : Type 0 where
  pub no_plugins : c.plugin_manager ≡ new_manager
  pub accounts : Accounts c.receiver c.pending c.calls
  pub at_end : AtEnd c.receiver c.is_shut_down c.in_flight
  pub distinct : KeysDistinct c.pending
  pub below : AllEntries (IsBelow c.seq) c.pending
  pub counted : c.seq ≤ length c.calls

pub new_client-Inv : Inv new_client
unfolding Conserved
new_client-Inv = record {
  no_plugins = refl;
  accounts = λ j. omega arith;
  at_end = tt;
  distinct = tt;
  below = tt;
  counted = omega arith;
}

pub length-update_call :
    (id : ℕ) (f : Call → Call) (d : Dict ℕ Call) → length (update_call id f d) ≡ length d
length-update_call id f d = elim (Option-cases (lookup id d)) [
  | inl missing ↦ ground arith
  | inr (c, found) ↦ ground (arith, length-insert_old id (f c) c d found)
]

pub length-fail_all :
    (e : Error) (p : Dict ℕ ℕ) (d : Dict ℕ Call) → length (fail_all e p d) ≡ length d
unfolding fail_all
length-fail_all e [] d = refl
length-fail_all e ((s, id) ∷ p) d =
    length-fail_all e p (update_call id (fail e) d) ∙ length-update_call id (fail e) d

-- The next sequence number is not in use.
fresh_seq : (n : ℕ) (p : Dict ℕ ℕ) → AllEntries (IsBelow n) p → lookup n p ≡ none
fresh_seq n p h = elim (Option-cases (lookup n p)) [
  | inl e ↦ e
  | inr (id, e) ↦ absurd (omega (arith, AllEntries-lookup (IsBelow n) n id p h e))
]

weaken-IsBelow :
    (n m : ℕ) (p : Dict ℕ ℕ) → n ≤ m → AllEntries (IsBelow n) p → AllEntries (IsBelow m) p
weaken-IsBelow n m [] le h = tt
weaken-IsBelow n m ((s, id) ∷ p) le h = (omega arith, weaken-IsBelow n m p le h.1)

pub go_call-finished :
    (method : Text) (cap : Option ℕ) (call : Call)
    → go_call method cap ≡ ok call
    → finished call ≡ 0
unfolding go_call
go_call-finished method none call h = ground arith
go_call-finished method (some cap) call h = ground arith

-- `receive` has not ended.
abbrev pub Runs : Receiver → Type 0
Runs reading = Unit
Runs (broken e) = Unit
Runs ended = ⊥

pub Runs-Conserved :
    (r : Receiver) (p : Dict ℕ ℕ) (d : Dict ℕ Call) → Runs r → Accounts r p d → Conserved p d
Runs-Conserved reading p d h a = a
Runs-Conserved (broken e) p d h a = a
Runs-Conserved ended p d h a = absurd h

pub Conserved-Runs :
    (r : Receiver) (p : Dict ℕ ℕ) (d : Dict ℕ Call) → Runs r → Conserved p d → Accounts r p d
Conserved-Runs reading p d h a = a
Conserved-Runs (broken e) p d h a = a
Conserved-Runs ended p d h a = absurd h

pub Runs-AtEnd : (r : Receiver) (s : Bool) (f : Option ℕ) → Runs r → AtEnd r s f
Runs-AtEnd reading s f h = tt
Runs-AtEnd (broken e) s f h = tt
Runs-AtEnd ended s f h = absurd h

pub sending-Runs :
    (r : Receiver) (s : Bool) (f : Option ℕ) (n : ℕ) → AtEnd r s f → f ≡ some n → Runs r
sending-Runs reading s f n h e = tt
sending-Runs (broken x) s f n h e = tt
sending-Runs ended s f n h e = cc (h.1)

working-Runs : (r : Receiver) (s : Bool) (f : Option ℕ) → AtEnd r s f → s ≡ false → Runs r
working-Runs reading s f h e = tt
working-Runs (broken x) s f h e = tt
working-Runs ended s f h e = cc (h.0)

refuse-Accounts :
    (r : Receiver) (id : ℕ) (call : Call) (p : Dict ℕ ℕ) (d : Dict ℕ Call)
    → lookup id d ≡ none
    → finished call ≡ 1
    → Accounts r p d
    → Accounts r p (insert id call d)
refuse-Accounts reading id call p d e f a = refuse-Conserved id call p d e f a
refuse-Accounts (broken x) id call p d e f a = refuse-Conserved id call p d e f a
refuse-Accounts ended id call p d e f a = refuse-Settled id call d f a

pub register_refused :
    (c : Client) (id : ℕ) (call : Call)
    → (c.is_shut_down || c.closing) ≡ true
    → register c id call ≡ record c { calls = insert id (fail shutdown call) c.calls }
unfolding register
register_refused c id call h = rw h refl

pub register_sent :
    (c : Client) (id : ℕ) (call : Call)
    → (c.is_shut_down || c.closing) ≡ false
    → register c id call ≡ record c {
      calls = insert id call c.calls;
      pending = insert c.seq id c.pending;
      in_flight = some c.seq;
      seq = (c.seq + 1) % u64;
    }
unfolding register
register_sent c id call h = rw h refl

pub register-Inv :
    (c : Client) (id : ℕ) (call : Call)
    → Inv c
    → lookup id c.calls ≡ none
    → finished call ≡ 0
    → length c.calls + 1 < u64
    → Inv (register c id call)
register-Inv c id call v e zero_done room = elim (Bool-cases (c.is_shut_down || c.closing)) [
  | inl refused ↦ rw (register_refused c id call refused) record {
    no_plugins = v.no_plugins;
    accounts =
        refuse-Accounts c.receiver id (fail shutdown call) c.pending c.calls e
          (omega (arith, finished-fail shutdown call, zero_done)) v.accounts;
    at_end = v.at_end;
    distinct = v.distinct;
    below = v.below;
    counted = omega (arith, v.counted, length-insert_new id (fail shutdown call) c.calls e);
  }
  | inr sent ↦
      let runs : Runs c.receiver = working-Runs _ _ _ v.at_end (ground arith) in
      let no_wrap : (c.seq + 1) % u64 ≡ c.seq + 1 = mod-eq_of_lt (omega (arith, v.counted)) in
      rw (register_sent c id call sent, no_wrap)
        record {
          no_plugins = v.no_plugins;
          accounts = Conserved-Runs c.receiver _ _ runs (
              insert-Conserved c.seq id call c.pending c.calls (fresh_seq c.seq c.pending v.below) e
                zero_done (Runs-Conserved c.receiver _ _ runs v.accounts));
          at_end = Runs-AtEnd c.receiver _ _ runs;
          distinct = insert-KeysDistinct c.seq id c.pending v.distinct;
          below =
              AllEntries-insert (IsBelow (c.seq + 1)) c.seq id c.pending (omega arith)
                (weaken-IsBelow c.seq (c.seq + 1) c.pending (omega arith) v.below);
          counted = omega (arith, v.counted, length-insert_new id call c.calls e);
        }
]
