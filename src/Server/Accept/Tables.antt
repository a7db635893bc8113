-- ===== src/Server/Accept/Tables.antt =====
-- The goroutines and the table of connections, and the invariant of the two.
use byterpc.Common.{
  ℕ, ◌≡◌, ◌≢◌, ◌⊎◌, refl, Bool, true, false, ◌||◌, ◌==◌, if◌then◌else◌, List, [], ◌∷◌, ◌++◌, Option,
  none, some, Dict, lookup, contains, KeysDistinct, lookup-erase, nat_eq, length, arith,
}
use byterpc.Server.Accept.{
  Acceptor, Position, Phase, serving, served, forgotten, not_started, selecting, waiting, accepting,
  has_codec, without,
}
use byterpc.Server.Accept.Steps.{member}

pub member-append : (n : ℕ) (xs ys : List ℕ) → member n (xs ++ ys) ≡ (member n xs || member n ys)
member-append n [] ys = refl
member-append n (x ∷ xs) ys = ground (arith, member-append n xs ys)

-- A connection is in the table until its goroutine has deleted it.
abbrev pub in_table : ℕ → Option (Dict ℕ (Unit {0})) → Bool
in_table conn none = false
in_table conn (some d) = contains conn d

abbrev pub is_tracked : Option Phase → Bool
is_tracked none = false
is_tracked (some serving) = true
is_tracked (some served) = true
is_tracked (some forgotten) = false

abbrev pub IsReady : Position → Option (Dict ℕ (Unit {0})) → Type 0
IsReady not_started t = Unit
IsReady selecting t = t ≢ none
IsReady waiting t = t ≢ none
IsReady accepting t = t ≢ none

pub record Inv (s : Acceptor) : Type 0 where
  pub counted : s.serve_wg ≡ length s.handlers
  pub distinct : KeysDistinct s.handlers
  pub ready : IsReady s.position s.active_conn
  pub table : (conn : ℕ) → in_table conn s.active_conn ≡ is_tracked (lookup conn s.handlers)
  pub logged : (conn : ℕ) → lookup conn s.handlers ≢ none → member conn s.established ≡ true
  pub known : (conn : ℕ) → member conn s.closed ≡ true → member conn s.established ≡ true
  pub still_open : (conn : ℕ) → lookup conn s.handlers ≡ some serving → member conn s.closed ≡ false
  pub ended :
      (conn : ℕ)
      → has_codec s.server_config ≡ true
      → member conn s.established ≡ true
      → (lookup conn s.handlers ≡ some serving) ⊎ (member conn s.closed ≡ true)

pub without-some : (conn : ℕ) (x : Option (Dict ℕ (Unit {0}))) → x ≢ none → without conn x ≢ none
without-some conn none h e = absurd (h refl)
without-some conn (some d) h e = cc

pub without-IsReady :
    (conn : ℕ) (p : Position) (x : Option (Dict ℕ (Unit {0})))
    → IsReady p x
    → IsReady p (without conn x)
without-IsReady conn not_started x h = tt
without-IsReady conn selecting x h = without-some conn x h
without-IsReady conn waiting x h = without-some conn x h
without-IsReady conn accepting x h = without-some conn x h

pub in_table-without :
    (c conn : ℕ) (x : Option (Dict ℕ (Unit {0})))
    → in_table c (without conn x) ≡ (if c == conn then false else in_table c x)
in_table-without c conn none = ground arith
in_table-without c conn (some d) = ground (arith, lookup-erase c conn d)

pub has_table :
    (p : Position) (t : Option (Dict ℕ (Unit {0}))) → p ≢ not_started → IsReady p t → t ≢ none
has_table not_started t h r = absurd (h refl)
has_table selecting t h r = r
has_table waiting t h r = r
has_table accepting t h r = r
