-- ===== src/Server/Pool/Histories.antt =====
-- The histories of a pool of server.go, with the objects that are in use.
use byterpc.Common.{ℕ, ◌<◌, ◌≡◌, List, [], ◌∷◌, some, lookup, nat_eq, arith}
use byterpc.Server.Pool.{Pool, new_pool, zeroed, get_request, free_request, set_value}
use byterpc.Server.Pool.Chain.{
  copies, removed, copies-removed, IsSound, new_pool-IsSound, get_request-IsNew,
  free_request-IsSound, set_value-IsSound,
}

module _ {A : Type 0} where
  -- The histories of a pool with the list of the objects in use: they are taken, written to, given
  -- back by a user, or forgotten, as the request of a header that cannot be read.
  pub data Uses (z : A) : Pool A → List ℕ → Type 0 where
    unused : Uses z new_pool []
    takes :
        {p : Pool A} {used : List ℕ}
        → Uses z p used
        → Uses z (get_request z p).0 ((get_request z p).1 ∷ used)
    writes :
        {p : Pool A} {used : List ℕ} (id : ℕ) (v : A)
        → 0 < copies id used
        → Uses z p used
        → Uses z (set_value p id v) used
    frees :
        {p : Pool A} {used : List ℕ} (id : ℕ)
        → 0 < copies id used
        → Uses z p used
        → Uses z (free_request p id) (removed id used)
    forgets :
        {p : Pool A} {used : List ℕ} (id : ℕ)
        → 0 < copies id used
        → Uses z p used
        → Uses z p (removed id used)

  pub Uses-IsSound : {z : A} {p : Pool A} {used : List ℕ} → Uses z p used → IsSound p used
  Uses-IsSound unused = new_pool-IsSound
  Uses-IsSound {z} (takes {p} {used} u) = (get_request-IsNew z p used (Uses-IsSound u)).0
  Uses-IsSound (writes {p} {used} id v h u) = set_value-IsSound p used id v h (Uses-IsSound u)
  Uses-IsSound (frees {p} {used} id h u) = free_request-IsSound p used id h (Uses-IsSound u)
  Uses-IsSound (forgets {p} {used} id h u) =
      let s = Uses-IsSound u in
      record {
        ids = s.ids;
        chain = s.chain;
        exists = s.exists;
        once = λ x. ground (arith, s.once x, copies-removed x id used h);
      }

  -- Under every history of a pool the object that it hands out next is in nobody's use, and it is
  -- reset, whether it is new or comes off the list of free ones.
  pub get_request-Uses :
      (z : A) (p : Pool A) (used : List ℕ)
      → Uses z p used
      → (copies (get_request z p).1 used ≡ 0)
        × (lookup (get_request z p).1 (get_request z p).0.store ≡ some (zeroed z))
  get_request-Uses z p used u =
      let (_, unused_yet, reset) = get_request-IsNew z p used (Uses-IsSound u) in
      (unused_yet, reset)
