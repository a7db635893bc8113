-- ===== src/Session/Underway.antt =====
-- A client and the list of its requests that are underway.
use byterpc.Common.{
  ℕ, ◌+◌, ◌≤◌, ◌≡◌, ◌∙◌, refl, ap, sym, Bool, true, false, ◌&&◌, not, List, none, some, ◌==◌,
  ==_iff, Text, same, same_refl, lookup, insert, nat_eq, lookup-insert, arith, inl, inr, Bool-cases,
}
use byterpc.Client.{Client, Call}
use byterpc.Session.Tally.{one, tally, tally-le}
use byterpc.Session.Calls.{call_method, Dropped}

-- The items with a number, and those of them with another method than a given one.
abbrev pub at : ℕ → Text × ℕ → Bool
at n t = t.1 == n

abbrev pub other : ℕ → Text → Text × ℕ → Bool
other n m t = t.1 == n && not (same t.0 m)

-- A number is underway at most once, and only if it has been given. A pending number is underway,
-- with the method of its call.
pub record Sound (c : Client) (l : List (Text × ℕ)) : Type 0 where
  pub alone : (n : ℕ) → tally (at n) l ≤ 1
  pub given : (n : ℕ) → c.seq ≤ n → tally (at n) l ≡ 0
  pub known : (n id : ℕ) → lookup n c.pending ≡ some id → tally (at n) l ≡ 1
  pub right :
      (n id : ℕ)
      → lookup n c.pending ≡ some id
      → (m : Text) × (call_method (lookup id c.calls) ≡ some m) × (tally (other n m) l ≡ 0)

other-le-at : (n : ℕ) (m : Text) (l : List (Text × ℕ)) → tally (other n m) l ≤ tally (at n) l
other-le-at n m l = tally-le (other n m) (at n) l (λ t h. ground arith)

-- The same items in another order, and a client with the same map and methods.
pub moved-Sound :
    (c d : Client) (l l' : List (Text × ℕ))
    → ((p : Text × ℕ → Bool) → tally p l' ≡ tally p l)
    → ((n : ℕ) → lookup n d.pending ≡ lookup n c.pending)
    → ((j : ℕ) → call_method (lookup j d.calls) ≡ call_method (lookup j c.calls))
    → d.seq ≡ c.seq
    → Sound c l
    → Sound d l'
moved-Sound c d l l' moved pending methods same_seq s = record {
  alone = λ n. omega (arith, moved (at n), s.alone n);
  given = λ n h. moved (at n) ∙ s.given n (omega (arith, same_seq));
  known = λ n id h. moved (at n) ∙ s.known n id (sym (pending n) ∙ h);
  right = λ n id h.
      let (m, e, none_other) = s.right n id (sym (pending n) ∙ h) in
      (m, methods id ∙ e, moved (other n m) ∙ none_other);
}

-- An item that leaves the list when its number leaves the map, or stays on as a stray.
pub Dropped-Sound :
    (c d : Client) (k : ℕ) (l l' : List (Text × ℕ))
    → ((p : Text × ℕ → Bool) → tally p l' ≤ tally p l)
    → ((n : ℕ) → (n == k) ≡ false → tally (at n) l' ≡ tally (at n) l)
    → Dropped k c d
    → Sound c l
    → Sound d l'
Dropped-Sound c d k l l' fewer others drop s = record {
  alone = λ n. omega (arith, fewer (at n), s.alone n);
  given = λ n h. omega (arith, fewer (at n), s.given n (omega (arith, drop.same_seq)));
  known = λ n id h. elim (Bool-cases (n == k)) [
    | inl gone ↦ ground (arith, drop.pending n)
    | inr kept ↦ others n kept ∙ s.known n id (sym (drop.pending n ∙ rw kept refl) ∙ h)
  ];
  right = λ n id h. elim (Bool-cases (n == k)) [
    | inl gone ↦ ground (arith, drop.pending n)
    | inr kept ↦
        let (m, e, none_other) = s.right n id (sym (drop.pending n ∙ rw kept refl) ∙ h) in
        (m, drop.methods id ∙ e, omega (arith, fewer (other n m), none_other))
  ];
}

-- A new call does not change the method of an old one.
old_method :
    (c : Client) (id : ℕ) (call : Call) (j : ℕ) (m : Text)
    → lookup id c.calls ≡ none
    → call_method (lookup j c.calls) ≡ some m
    → call_method (lookup j (insert id call c.calls)) ≡ some m
old_method c id call j m new e = ground (arith, lookup-insert j id call c.calls, ==_iff j id)

-- A call that is refused.
pub refused-Sound :
    (c d : Client) (id : ℕ) (call : Call) (l : List (Text × ℕ))
    → lookup id c.calls ≡ none
    → d.calls ≡ insert id call c.calls
    → d.pending ≡ c.pending
    → d.seq ≡ c.seq
    → Sound c l
    → Sound d l
refused-Sound c d id call l new calls pending same_seq s = record {
  alone = s.alone;
  given = λ n h. s.given n (omega (arith, same_seq));
  known = λ n j h. s.known n j (sym (ap (lookup n) pending) ∙ h);
  right = λ n j h.
      let (m, e, none_other) = s.right n j (sym (ap (lookup n) pending) ∙ h) in
      (m, ap (λ x. call_method (lookup j x)) calls ∙ old_method c id call j m new e, none_other);
}

-- A call that is sent, under the next number.
pub sent-Sound :
    (c d : Client) (id : ℕ) (call : Call) (l l' : List (Text × ℕ))
    → lookup id c.calls ≡ none
    → d.calls ≡ insert id call c.calls
    → d.pending ≡ insert c.seq id c.pending
    → d.seq ≡ c.seq + 1
    → ((p : Text × ℕ → Bool) → tally p l' ≡ one p (call.service_method, c.seq) + tally p l)
    → Sound c l
    → Sound d l'
sent-Sound c d id call l l' new calls pending next_seq added s = record {
  alone = λ n. ground (arith, added (at n), s.alone n, s.given n, ==_iff c.seq n);
  given = λ n h. ground (arith, added (at n), s.given n, ==_iff c.seq n, next_seq);
  known = λ n j h. elim (Bool-cases (n == c.seq)) [
    | inl here ↦ ground (arith, added (at n), s.given n, ==_iff n c.seq, ==_iff c.seq n)
    | inr there ↦
        let old : lookup n c.pending ≡ some j = old_pending n j h there in
        ground (arith, added (at n), s.known n j old, ==_iff n c.seq, ==_iff c.seq n)
  ];
  right = λ n j h. elim (Bool-cases (n == c.seq)) [
    | inl here ↦
        let same_id : j ≡ id = new_pending n j h here in
        (
          call.service_method,
          rw (calls, same_id) (rw (lookup-insert id id call c.calls, (==_iff id id).1 refl) refl),
          ground (
            arith,
            added (other n call.service_method),
            other-le-at n call.service_method l,
            s.given n,
            same_refl call.service_method,
            ==_iff n c.seq,
          ),
        )
    | inr there ↦
        let (m, e, none_other) = s.right n j (old_pending n j h there) in
        (
          m,
          rw calls (old_method c id call j m new e),
          ground (arith, added (other n m), none_other, ==_iff n c.seq, ==_iff c.seq n),
        )
  ];
}
  where
    old_pending :
        (n j : ℕ) → lookup n d.pending ≡ some j → (n == c.seq) ≡ false → lookup n c.pending ≡ some j
    old_pending n j h there =
        sym (ap (lookup n) pending ∙ lookup-insert n c.seq id c.pending ∙ rw there refl) ∙ h

    new_pending : (n j : ℕ) → lookup n d.pending ≡ some j → (n == c.seq) ≡ true → j ≡ id
    new_pending n j h here =
        ground (arith, ap (lookup n) pending, lookup-insert n c.seq id c.pending)
