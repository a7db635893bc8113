-- ===== src/Selector/Base.antt =====
-- `baseSelector` of selector.go.
use byterpc.Common.{
  ℕ, zero, suc, ◌+◌, ◌-◌, ◌%◌, ◌^◌, Bool, false, List, [], ◌∷◌, ◌++◌, map, Option, none, some, Text,
  codes, Dict, lookup, insert, replicate, text_eq, ℤ, pos, negsuc,
}
use byterpc.Selector.Atoi.{atoi}

-- The dynamic values of `Metadata interface{}` that the code tells apart: a `*map[string]string`
-- and anything else, nil included.
pub data Metadata : Type 0 where
  fields : Dict Text Text → Metadata
  other : Metadata

pub record Address : Type 0 where
  pub addr : Text
  pub metadata : Metadata

pub record AddrInfo : Type 0 where
  pub addr : Address
  pub weight : ℕ
  pub load : ℕ
  pub connected : Bool

pub record Base : Type 0 where
  pub addrs : List Text
  pub addr_map : Dict Text AddrInfo

-- `&RandomSelector{addrMap: make(...)}` before any `Reset`.
abbrev pub empty : Base
empty = record { addrs = []; addr_map = [] }

-- `n, err := strconv.Atoi(w); err == nil && n > 0`
abbrev pub positive_or : ℕ → Option ℤ → ℕ
positive_or d none = d
positive_or d (some (pos zero)) = d
positive_or d (some (pos (suc n))) = suc n
positive_or d (some (negsuc n)) = d

abbrev pub number_of : Option Text → ℕ → ℕ
number_of none d = d
number_of (some w) d = positive_or d (atoi w)

-- A positive number under a key of the metadata, or the default.
unfoldable pub setting : Text → ℕ → Metadata → ℕ
setting key d (fields m) = number_of (lookup key m) d
setting key d other = d

unfoldable pub weight_of : Metadata → ℕ
unfolding setting
weight_of = setting (codes "weight") 1

unfoldable pub load_of : Metadata → ℕ
unfolding setting
load_of = setting (codes "load") 0

abbrev pub info_of : Address → AddrInfo
info_of a = record {
  addr = a;
  weight = weight_of a.metadata;
  load = load_of a.metadata;
  connected = false;
}

-- The body of the loop in `Reset`: an address that is already there is skipped.
unfoldable pub reset_one : Base → Address → Base
reset_one b a = elim (lookup a.addr b.addr_map) [
  | some _ ↦ b
  | none ↦ record {
    addrs = b.addrs ++ replicate (weight_of a.metadata) a.addr;
    addr_map = insert a.addr (info_of a) b.addr_map;
  }
]

unfoldable pub reset_loop : Base → List Address → Base
reset_loop b [] = b
reset_loop b (a ∷ as') = reset_loop (reset_one b a) as'

-- `Reset`: a new map; the slice `addrs` is appended to as it stands.
unfoldable pub reset : Base → List Address → Base
unfolding reset_loop reset_one
reset b list = reset_loop (record b { addr_map = [] }) list

-- `AddrList`. Go visits a map in an order that it does not fix: `visit` is the order of this call.
abbrev pub Visit : Type 0
Visit = Dict Text AddrInfo → Dict Text AddrInfo

unfoldable pub addr_list : Visit → Base → List Address
addr_list visit b = map (λ e. e.1.addr) (visit b.addr_map)

abbrev pub u64 : ℕ
u64 = 2 ^ 64

-- `a.load++` and `a.load--` on uint64.
abbrev pub load_up : AddrInfo → AddrInfo
load_up i = record i { load = (i.load + 1) % u64 }

abbrev pub load_down : AddrInfo → AddrInfo
load_down i = record i { load = (i.load + u64 - 1) % u64 }

-- A write through the pointer that the map holds.
abbrev pub store : Text → AddrInfo → Base → Base
store k i b = record b { addr_map = insert k i b.addr_map }

unfoldable pub put : Base → Text → Base
put b a = elim (lookup a b.addr_map) [ none ↦ b | some i ↦ store a (load_down i) b ]
