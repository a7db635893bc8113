-- ===== src/Server/Pool.antt =====
-- server.go: getRequest, freeRequest, getResponse and freeResponse. The objects are nodes of a store
-- under the numbers that stand for their addresses; the free ones are chained by their `next`.
pub mod Chain
pub mod Histories
use byterpc.Common.{ℕ, ◌+◌, Option, none, some, Dict, lookup, insert, nat_eq, List, [], ◌∷◌}
use byterpc.Client.{RpcResponse}

pub record Node (A : Type 0) : Type 0 where
  pub value : A
  pub next : Option ℕ

-- `fresh` is the next address that `new` gives, `free` is `freeReq` or `freeResp`.
pub record Pool (A : Type 0) : Type 0 where
  pub store : Dict ℕ (Node A)
  pub free : Option ℕ
  pub fresh : ℕ

module _ {A : Type 0} where
  abbrev pub new_pool : Pool A
  new_pool = record { store = []; free = none; fresh = 0 }

  abbrev pub zeroed : A → Node A
  zeroed zero_value = record { value = zero_value; next = none }

  -- A request off the list is reset as a whole, its `next` too.
  abbrev pub reset_free : A → Pool A → ℕ → Option (Node A) → Pool A × ℕ
  reset_free zero_value p id none = (p, id)
  reset_free zero_value p id (some n) =
      (record p { store = insert id (zeroed zero_value) p.store; free = n.next }, id)

  abbrev pub take_free : A → Pool A → Option ℕ → Pool A × ℕ
  take_free zero_value p none = (
    record p { store = insert p.fresh (zeroed zero_value) p.store; fresh = p.fresh + 1 },
    p.fresh,
  )
  take_free zero_value p (some id) = reset_free zero_value p id (lookup id p.store)

  unfoldable pub get_request : A → Pool A → Pool A × ℕ
  get_request zero_value p = take_free zero_value p p.free

  unfoldable pub free_request : Pool A → ℕ → Pool A
  free_request p id = elim (lookup id p.store) [
    | none ↦ p
    | some n ↦ record p { store = insert id (record n { next = p.free }) p.store; free = some id }
  ]

  -- A write to the fields of an object that is in use.
  unfoldable pub set_value : Pool A → ℕ → A → Pool A
  set_value p id v = elim (lookup id p.store) [
    | none ↦ p
    | some n ↦ record p { store = insert id (record n { value = v }) p.store }
  ]

-- The list of responses.
abbrev pub zero_response : RpcResponse
zero_response = record { service_method = []; seq = 0; error = [] }

unfoldable pub get_response : Pool RpcResponse → Pool RpcResponse × ℕ
unfolding get_request
get_response p = get_request zero_response p

unfoldable pub free_response : Pool RpcResponse → ℕ → Pool RpcResponse
unfolding free_request
free_response p id = free_request p id
