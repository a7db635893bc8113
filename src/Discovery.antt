-- ===== src/Discovery.antt =====
-- The way of an address, over watcher.go, balancer.go and selector.go: from the values that a store
-- reports to the reader of `Notify`.
mod Tests
use byterpc.Common.{
  ◌≡◌, ◌≢◌, ◌∙◌, refl, ap, sym, subst, true, false, List, [], ◌∷◌, ◌++◌, map, none, some, Option,
  Option-cases, if◌then◌else◌, Text, Dict, lookup, insert, lookup-insert, text_eq, same, same_iff,
  same_refl, All, Result, ok, err, panic, Error, inl, inr, arith,
}
use mathlib.Core.List.{append-nil, append_assoc, Permᴰ}
use byterpc.Naming.{Update}
use byterpc.Selector.Base.{
  Address, AddrInfo, Base, Metadata, fields, info_of, reset_one, reset_loop, reset, addr_list,
  Visit,
}
use byterpc.Selector.Interface.{random}
use byterpc.Service.{Endpoint, zero_endpoint, endpoint_data}
use byterpc.Resolver.{ServiceWatcher, pairs, extract_updates, next}
use byterpc.Balancer.{Balancer, returns, to_address, watch_addr_updates, take_list}
use byterpc.Balancer.Channel.{IsSound, take_list-watch}

abbrev pub address_of : Endpoint → Address
address_of e = record { addr = e.address; metadata = fields e.meta_data }

abbrev entry : Address → Text × AddrInfo
entry a = (a.addr, info_of a)

-- No two addresses have one name.
abbrev pub Distinct : List Address → Type 0
Distinct [] = Unit
Distinct (a ∷ l) = All (λ (x : Address). same x.addr a.addr ≡ false) l × Distinct l

abbrev Fresh : Dict Text AddrInfo → List Address → Type 0
Fresh d l = All (λ (x : Address). lookup x.addr d ≡ none) l

insert_new :
    (k : Text) (v : AddrInfo) (d : Dict Text AddrInfo)
    → lookup k d ≡ none
    → insert k v d ≡ d ++ ((k, v) ∷ [])
insert_new k v [] h = refl
insert_new k v ((j, w) ∷ d) h = ground (arith, insert_new k v d)

insert-Fresh :
    (a : Address) (d : Dict Text AddrInfo) (l : List Address)
    → All (λ (x : Address). same x.addr a.addr ≡ false) l
    → Fresh d l
    → Fresh (insert a.addr (info_of a) d) l
insert-Fresh a d [] h f = tt
insert-Fresh a d (x ∷ l) h f =
    (lookup-insert x.addr a.addr (info_of a) d ∙ rw (h.0) (f.0), insert-Fresh a d l h.1 f.1)

reset_one-map :
    (b : Base) (a : Address)
    → lookup a.addr b.addr_map ≡ none
    → (reset_one b a).addr_map ≡ insert a.addr (info_of a) b.addr_map
unfolding reset_one
reset_one-map b a h = rw (h, reset_one) refl

reset_loop-map :
    (b : Base) (l : List Address)
    → Distinct l
    → Fresh b.addr_map l
    → (reset_loop b l).addr_map ≡ b.addr_map ++ map entry l
unfolding reset_loop
reset_loop-map b [] d f = sym (append-nil b.addr_map)
reset_loop-map b (a ∷ l) d f =
    let added = reset_one-map b a f.0 in
    reset_loop-map (reset_one b a) l d.1
      (subst (λ m. Fresh m l) (sym added) (insert-Fresh a b.addr_map l d.0 f.1))
    ∙ (ap (λ m. m ++ map entry l) (added ∙ insert_new a.addr (info_of a) b.addr_map f.0)
        ∙ append_assoc b.addr_map (entry a ∷ []) (map entry l))

addresses_back : (l : List Address) → map (λ (e : Text × AddrInfo). e.1.addr) (map entry l) ≡ l
addresses_back [] = refl
addresses_back (a ∷ l) = ap (λ r. a ∷ r) (addresses_back l)

nothing_known : (l : List Address) → Fresh [] l
nothing_known [] = tt
nothing_known (a ∷ l) = (refl, nothing_known l)

map-perm : {A B : Type 0} (g : A → B) {xs ys : List A} → Permᴰ xs ys → Permᴰ (map g xs) (map g ys)
map-perm g Permᴰ.nil = Permᴰ.nil
map-perm g (Permᴰ.cons e h) = Permᴰ.cons (ap g e) (map-perm g h)
map-perm g (Permᴰ.swap e h) = Permᴰ.swap (ap g e) (ap g h)
map-perm g (Permᴰ.trans h k) = Permᴰ.trans (map-perm g h) (map-perm g k)

perm_nil : {A : Type 0} {xs ys : List A} → Permᴰ xs ys → ys ≡ [] → xs ≡ []
perm_nil Permᴰ.nil h = refl
perm_nil (Permᴰ.cons e p) h = cc
perm_nil (Permᴰ.swap e g) h = cc
perm_nil (Permᴰ.trans p q) h = perm_nil p (perm_nil q h)

perm_single : {A : Type 0} (x : A) {xs ys : List A} → Permᴰ xs ys → ys ≡ x ∷ [] → xs ≡ x ∷ []
perm_single x Permᴰ.nil h = cc
perm_single x (Permᴰ.cons {l₂ = l} e p) h =
    let none_left : l ≡ [] = cc in let gone = perm_nil p none_left in cc
perm_single x (Permᴰ.swap e g) h = cc
perm_single x (Permᴰ.trans p q) h = perm_single x p (perm_single x q h)

-- `Reset` to addresses with different names lists them, in some order.
addr_list-reset :
    (visit : Visit) (b : Base) (l : List Address)
    → ((d : Dict Text AddrInfo) → Permᴰ (visit d) d)
    → Distinct l
    → Permᴰ (addr_list visit (reset b l)) l
unfolding addr_list reset
addr_list-reset visit b l fair d =
    subst (λ m. Permᴰ (addr_list visit (reset b l)) m)
      (ap (map (λ (e : Text × AddrInfo). e.1.addr))
          (reset_loop-map (record b { addr_map = [] }) l d (nothing_known l))
        ∙ addresses_back l)
      (map-perm (λ (e : Text × AddrInfo). e.1.addr) (fair (reset b l).addr_map))

reset_one-known :
    (b : Base) (a : Address) (i : AddrInfo) → lookup a.addr b.addr_map ≡ some i → reset_one b a ≡ b
unfolding reset_one
reset_one-known b a i h = rw (h, reset_one) refl

-- An address whose name is in the map is skipped.
reset_loop-same :
    (b : Base) (a : Address) (i : AddrInfo) (es : List Endpoint)
    → lookup a.addr b.addr_map ≡ some i
    → reset_loop b (map (λ e. a) es) ≡ b
unfolding reset_loop
reset_loop-same b a i [] h = refl
reset_loop-same b a i (e ∷ es) h =
    ap (λ c. reset_loop c (map (λ e. a) es)) (reset_one-known b a i h) ∙ reset_loop-same b a i es h

addr_list-reset_same :
    (visit : Visit) (b : Base) (a : Address) (es : List Endpoint)
    → ((d : Dict Text AddrInfo) → Permᴰ (visit d) d)
    → addr_list visit (reset b (a ∷ map (λ e. a) es)) ≡ a ∷ []
unfolding addr_list reset reset_loop reset_one
addr_list-reset_same visit b a es fair =
    let one_entry : (reset b (a ∷ map (λ e. a) es)).addr_map ≡ entry a ∷ [] =
      ap (λ (b : Base). b.addr_map)
        (reset_loop-same _ a (info_of a) es (rw (same_refl a.addr) refl)) in
    ap (map (λ (e : Text × AddrInfo). e.1.addr)) (perm_single (entry a) (fair _) one_entry)

abbrev update_of : Endpoint → Update
update_of e = record { addr = e.address; metadata = fields e.meta_data }

map_through : (es : List Endpoint) → map to_address (map update_of es) ≡ map address_of es
map_through [] = refl
map_through (e ∷ es) = ap (λ l. address_of e ∷ l) (map_through es)

map_constant :
    (es : List Endpoint)
    → map to_address (map (λ e. update_of zero_endpoint) es)
      ≡ map (λ e. address_of zero_endpoint) es
map_constant [] = refl
map_constant (e ∷ es) = ap (λ l. address_of zero_endpoint ∷ l) (map_constant es)

module _ (unmarshal : Text → Result Endpoint) where
  extract_updates-map :
      (value_of : Endpoint → Text) (es : List Endpoint)
      → All (λ (e : Endpoint). unmarshal (value_of e) ≡ ok e) es
      → extract_updates unmarshal (map value_of es) ≡ map update_of es
  unfolding extract_updates
  extract_updates-map value_of [] h = refl
  extract_updates-map value_of (e ∷ es) h = rw (h.0, extract_updates-map value_of es h.1) refl

  extract_updates-same :
      (value_of : Endpoint → Text) (es : List Endpoint)
      → All (λ (e : Endpoint). unmarshal (value_of e) ≡ ok zero_endpoint) es
      → extract_updates unmarshal (map value_of es) ≡ map (λ e. update_of zero_endpoint) es
  unfolding extract_updates
  extract_updates-same value_of [] h = refl
  extract_updates-same value_of (e ∷ es) h = rw (h.0, extract_updates-same value_of es h.1) refl

  next_answer :
      (w : ServiceWatcher) (vs : List Text)
      → (next unmarshal w none (pairs vs)).1 ≡ ok (extract_updates unmarshal vs)
  unfolding next
  next_answer w vs = ground arith

  module _ (visit : Visit) (fair : (d : Dict Text AddrInfo) → Permᴰ (visit d) d) where
    -- If the values of a store are read as the endpoints that they were made of, whose addresses
    -- have different names, then the update of a watcher with those values reaches the reader of
    -- `Notify` as the list of their addresses, each once, in whatever order `AddrList` visits the
    -- map: on an open balancer with the random selector that watches and whose mutex is free,
    -- whatever its selector held before.
    pub notified :
        (w : ServiceWatcher) (b : Balancer Base) (value_of : Endpoint → Text) (es : List Endpoint)
        → All (λ (e : Endpoint). unmarshal (value_of e) ≡ ok e) es
        → Distinct (map address_of es)
        → IsSound b
        → b.w ≢ none
        → b.locked ≡ false
        → b.done ≡ false
        → let answer = (next unmarshal w none (pairs (map value_of es))).1 in
          (l : List Address) × (Permᴰ l (map address_of es)
            × ((take_list (watch_addr_updates (random visit) b answer).0).1 ≡ returns l))
    notified w b value_of es reads distinct v watches free open_yet = (
      addr_list visit (reset b.s (map address_of es)),
      (
        addr_list-reset visit b.s (map address_of es) fair distinct,
        ap (λ r. (take_list (watch_addr_updates (random visit) b r).0).1)
              (next_answer w (map value_of es))
            ∙ ((take_list-watch (random visit) b (extract_updates unmarshal (map value_of es)) v
                  watches free open_yet).3
                ∙ ap (λ us. returns (addr_list visit (reset b.s us)))
                    (ap (map to_address) (extract_updates-map value_of es reads) ∙ map_through es)),
      ),
    )

    -- If the metadata of the endpoints, of which there is one at least, unmarshals as an endpoint
    -- without fields, as it does where it has no keys that are called like them, then the values
    -- that `Endpoint.Data` gives for the endpoints, whatever their addresses are, reach the reader
    -- of `Notify` as one address without a name: on an open balancer with the random selector that
    -- watches and whose mutex is free.
    pub notified_nameless :
        (marshal : Dict Text Text → Text) (w : ServiceWatcher) (b : Balancer Base) (e : Endpoint)
        (es : List Endpoint)
        → All (λ (e : Endpoint). unmarshal (marshal e.meta_data) ≡ ok zero_endpoint) (e ∷ es)
        → IsSound b
        → b.w ≢ none
        → b.locked ≡ false
        → b.done ≡ false
        → let answer = (next unmarshal w none (pairs (map (endpoint_data marshal) (e ∷ es)))).1 in
          (take_list (watch_addr_updates (random visit) b answer).0).1
          ≡ returns (record { addr = []; metadata = fields [] } ∷ [])
    notified_nameless marshal w b e es reads v watches free open_yet =
        let values = map (endpoint_data marshal) (e ∷ es) in
        ap (λ r. (take_list (watch_addr_updates (random visit) b r).0).1) (next_answer w values)
        ∙ ((take_list-watch (random visit) b (extract_updates unmarshal values) v watches free
              open_yet).3
            ∙ ap returns (
                ap (λ us. addr_list visit (reset b.s (map to_address us)))
                  (extract_updates-same (endpoint_data marshal) (e ∷ es) reads)
                ∙ (ap (λ l. addr_list visit (reset b.s (address_of zero_endpoint ∷ l)))
                      (map_constant es)
                    ∙ addr_list-reset_same visit b.s (address_of zero_endpoint) es fair)))
