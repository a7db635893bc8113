-- ===== src/Server/Pool/Chain.antt =====
-- The free list of a pool as a chain in its store, and the objects that are in use.
use byterpc.Common.{
  ℕ, suc, ◌+◌, ◌≤◌, ◌<◌, ◌≡◌, ◌≢◌, ◌∙◌, inl, inr, refl, ap, sym, subst, true, List, [], ◌∷◌, Option,
  none, some, if◌then◌else◌, ltb, ◌==◌, ==_iff, Dict, lookup, insert, lookup-insert, nat_eq, arith,
  Option-cases,
}
use byterpc.Server.Pool.{
  Node, Pool, new_pool, zeroed, take_free, reset_free, get_request, free_request, set_value,
}

abbrev pub copies : ℕ → List ℕ → ℕ
copies x [] = 0
copies x (y ∷ ys) = if x == y then suc (copies x ys) else copies x ys

abbrev pub removed : ℕ → List ℕ → List ℕ
removed x [] = []
removed x (y ∷ ys) = if x == y then ys else y ∷ removed x ys

pub copies-removed :
    (y x : ℕ) (us : List ℕ)
    → 0 < copies x us
    → copies y (removed x us) + (if y == x then 1 else 0) ≡ copies y us
copies-removed y x [] h = elim h [ ]
copies-removed y x (z ∷ us) h =
    ground (arith, copies-removed y x us, ==_iff y x, ==_iff x z, ==_iff y z)

module _ {A : Type 0} where
  -- The chain of `next` from a head is a list of addresses.
  abbrev pub IsChain : Dict ℕ (Node A) → Option ℕ → List ℕ → Type 0
  IsChain st none [] = Unit
  IsChain st none (i ∷ ids) = ⊥
  IsChain st (some j) [] = ⊥
  IsChain st (some j) (i ∷ ids) =
      (j ≡ i) × ((n : Node A) × (lookup i st ≡ some n) × IsChain st n.next ids)

  -- A write outside a chain keeps it.
  IsChain-insert :
      (id : ℕ) (n : Node A) (st : Dict ℕ (Node A)) (o : Option ℕ) (ids : List ℕ)
      → copies id ids ≡ 0
      → IsChain st o ids
      → IsChain (insert id n st) o ids
  IsChain-insert id n st none [] out h = tt
  IsChain-insert id n st none (i ∷ ids) out h = elim h [ ]
  IsChain-insert id n st (some j) [] out h = elim h [ ]
  IsChain-insert id n st (some j) (i ∷ ids) out (e, (m, at_i, rest)) = (
    e,
    (
      m,
      ground (arith, lookup-insert i id n st, ==_iff i id, ==_iff id i),
      IsChain-insert id n st m.next ids (ground arith) rest,
    ),
  )

  -- Every address that was given exists; it stands in the chain of the free ones or in the list of
  -- those in use at most once in all.
  pub record IsSound (p : Pool A) (used : List ℕ) : Type 0 where
    pub ids : List ℕ
    pub chain : IsChain p.store p.free ids
    pub exists : (x : ℕ) → x < p.fresh → lookup x p.store ≢ none
    pub once : (x : ℕ) → copies x ids + copies x used ≤ (if ltb x p.fresh then 1 else 0)

  pub new_pool-IsSound : IsSound new_pool []
  new_pool-IsSound = record {
    ids = [];
    chain = tt;
    exists = λ x h. elim h [ ];
    once = λ x. omega arith;
  }

  exists-insert :
      (st : Dict ℕ (Node A)) (bound id : ℕ) (n : Node A)
      → ((x : ℕ) → x < bound → lookup x st ≢ none)
      → (x : ℕ) → x < bound
      → lookup x (insert id n st) ≢ none
  exists-insert st bound id n h x lt = ground (arith, lookup-insert x id n st, h x lt)

  -- What `getRequest` gives: a reset object that nobody uses.
  abbrev pub IsNew : A → List ℕ → Pool A × ℕ → Type 0
  IsNew z used (p, id) =
      IsSound p (id ∷ used) × (copies id used ≡ 0) × (lookup id p.store ≡ some (zeroed z))

  get_request_made :
      (z : A) (p : Pool A)
      → p.free ≡ none
      → get_request z p
        ≡ (record p { store = insert p.fresh (zeroed z) p.store; fresh = p.fresh + 1 }, p.fresh)
  unfolding get_request
  get_request_made z p e = ap (take_free z p) e

  get_request_reused :
      (z : A) (p : Pool A) (id : ℕ) (n : Node A)
      → p.free ≡ some id
      → lookup id p.store ≡ some n
      → get_request z p ≡ (record p { store = insert id (zeroed z) p.store; free = n.next }, id)
  unfolding get_request
  get_request_reused z p id n e f = ap (take_free z p) e ∙ ap (reset_free z p id) f

  made-IsNew :
      (z : A) (p : Pool A) (used : List ℕ)
      → IsSound p used
      → p.free ≡ none
      → IsNew z used
          (record p { store = insert p.fresh (zeroed z) p.store; fresh = p.fresh + 1 }, p.fresh)
  made-IsNew z p used s e =
      let none_left : copies p.fresh s.ids + copies p.fresh used ≡ 0 =
        ground (arith, s.once p.fresh) in
      (
        record {
          ids = s.ids;
          chain = IsChain-insert p.fresh (zeroed z) p.store p.free s.ids (omega arith) s.chain;
          exists = λ x lt.
              ground
                (arith, lookup-insert x p.fresh (zeroed z) p.store, s.exists x, ==_iff x p.fresh);
          once = λ x. ground (arith, s.once x, ==_iff x p.fresh);
        },
        omega arith,
        ground (arith, lookup-insert p.fresh p.fresh (zeroed z) p.store, ==_iff p.fresh p.fresh),
      )

  reused-IsNew :
      (z : A) (p : Pool A) (used : List ℕ) (id : ℕ) (n : Node A) (ids : List ℕ)
      → lookup id p.store ≡ some n
      → IsChain p.store n.next ids
      → ((x : ℕ) → x < p.fresh → lookup x p.store ≢ none)
      → ((x : ℕ) → copies x (id ∷ ids) + copies x used ≤ (if ltb x p.fresh then 1 else 0))
      → IsNew z used (record p { store = insert id (zeroed z) p.store; free = n.next }, id)
  reused-IsNew z p used id n ids at_id chain exists once =
      let self : (id == id) ≡ true = (==_iff id id).1 refl in
      let alone : copies id ids + copies id used ≡ 0 = ground (arith, once id, self) in
      (
        record {
          ids = ids;
          chain = IsChain-insert id (zeroed z) p.store n.next ids (omega arith) chain;
          exists = exists-insert p.store p.fresh id (zeroed z) exists;
          once = λ x. ground (arith, once x);
        },
        omega arith,
        ground (arith, lookup-insert id id (zeroed z) p.store, self),
      )

  pub get_request-IsNew :
      (z : A) (p : Pool A) (used : List ℕ) → IsSound p used → IsNew z used (get_request z p)
  get_request-IsNew z p used s = by_free p.free s.ids refl s.chain s.once
    where
      by_free :
          (o : Option ℕ) (ids : List ℕ)
          → p.free ≡ o
          → IsChain p.store o ids
          → ((x : ℕ) → copies x ids + copies x used ≤ (if ltb x p.fresh then 1 else 0))
          → IsNew z used (get_request z p)
      by_free none ids e h once =
          subst (IsNew z used) (sym (get_request_made z p e)) (made-IsNew z p used s e)
      by_free (some j) [] e h once = elim h [ ]
      by_free (some j) (i ∷ ids) e (same_id, (n, at_i, chain)) once =
          subst (IsNew z used) (sym (get_request_reused z p i n (e ∙ ap some same_id) at_i))
            (reused-IsNew z p used i n ids at_i chain s.exists once)

  -- `freeRequest` takes an object that is in use once out of use.
  pub free_request-IsSound :
      (p : Pool A) (used : List ℕ) (id : ℕ)
      → 0 < copies id used
      → IsSound p used
      → IsSound (free_request p id) (removed id used)
  unfolding free_request
  free_request-IsSound p used id here s = elim (Option-cases (lookup id p.store)) [
    | inl missing ↦ elim (s.exists id (ground (arith, s.once id)) missing) [ ]
    | inr (n, found) ↦
        rw (found, free_request)
          (record {
            ids = id ∷ s.ids;
            chain = (
              refl,
              (
                record n { next = p.free },
                ground
                    (arith, lookup-insert id id (record n { next = p.free }) p.store, ==_iff id id),
                IsChain-insert id (record n { next = p.free }) p.store p.free s.ids
                    (ground (arith, s.once id)) s.chain,
              ),
            );
            exists = exists-insert p.store p.fresh id (record n { next = p.free }) s.exists;
            once = λ x. ground (arith, s.once x, copies-removed x id used here);
          })
  ]

  -- A write to an object that is in use.
  pub set_value-IsSound :
      (p : Pool A) (used : List ℕ) (id : ℕ) (v : A)
      → 0 < copies id used
      → IsSound p used
      → IsSound (set_value p id v) used
  unfolding set_value
  set_value-IsSound p used id v here s = elim (Option-cases (lookup id p.store)) [
    | inl missing ↦ rw (missing, set_value) s
    | inr (n, found) ↦
        rw (found, set_value)
          (record {
            ids = s.ids;
            chain =
                IsChain-insert id (record n { value = v }) p.store p.free s.ids
                  (ground (arith, s.once id)) s.chain;
            exists = exists-insert p.store p.fresh id (record n { value = v }) s.exists;
            once = s.once;
          })
  ]
