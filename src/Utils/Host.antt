-- ===== src/Utils/Host.antt =====
-- `getLocalIPV4` and `MD5Of` of utils.go. What `net.InterfaceAddrs` answers and the digest are
-- arguments.
use byterpc.Common.{
  ℕ, ◌≡◌, refl, Bool, ◌&&◌, not, List, [], ◌∷◌, ◌++◌, map, ap, if◌then◌else◌, Text, Result, ok, err,
  panic,
}

-- An address of an interface: one of another kind than `*net.IPNet`, or one of that kind with its
-- text.
pub data InterfaceAddr : Type 0 where
  other : InterfaceAddr
  ip_net : Bool → Bool → Text → InterfaceAddr

-- The loop takes the first address of version four that is not a loopback.
unfoldable pub first_ipv4 : List InterfaceAddr → Text
first_ipv4 [] = []
first_ipv4 (other ∷ addrs) = first_ipv4 addrs
first_ipv4 (ip_net is_loopback is_four text ∷ addrs) =
    let rest = first_ipv4 addrs in if not is_loopback && is_four then text else rest

unfoldable pub get_local_ipv4 : Result (List InterfaceAddr) → Result Text
unfolding first_ipv4
get_local_ipv4 (ok addrs) = ok (first_ipv4 addrs)
get_local_ipv4 (err e) = err e
get_local_ipv4 panic = panic

-- `MD5Of`, in the two parts between which another goroutine may come: the write to the shared
-- hasher, whose state is the bytes that it has been given, and the sum with the deferred reset.
unfoldable pub md5_write : List ℕ → Text → List ℕ
md5_write hasher text = hasher ++ text

unfoldable pub md5_sum : (List ℕ → Text) → List ℕ → List ℕ × Text
md5_sum digest hasher = ([], digest hasher)

unfoldable pub md5_of : (List ℕ → Text) → List ℕ → Text → List ℕ × Text
unfolding md5_write md5_sum
md5_of digest hasher text = md5_sum digest (md5_write hasher text)

-- Calls of `MD5Of` one after the other on the new hasher give the digests of their texts.
unfoldable pub md5_all : (List ℕ → Text) → List ℕ → List Text → List Text
unfolding md5_of
md5_all digest hasher [] = []
md5_all digest hasher (t ∷ ts) =
    let (hasher', sum) = md5_of digest hasher t in sum ∷ md5_all digest hasher' ts

-- Where two calls write before either takes its sum, the first that does gets the digest of both
-- texts and the other that of none.
pub md5_mixed :
    (digest : List ℕ → Text) (s t : Text)
    → let (hasher, first) = md5_sum digest (md5_write (md5_write [] s) t) in
      (first ≡ digest (s ++ t)) × ((md5_sum digest hasher).1 ≡ digest [])
unfolding md5_write md5_sum
md5_mixed digest s t = (refl, refl)

-- One call after the other gives each text its own digest.
pub md5_all-map : (digest : List ℕ → Text) (ts : List Text) → md5_all digest [] ts ≡ map digest ts
unfolding md5_all md5_of md5_write md5_sum
md5_all-map digest [] = refl
md5_all-map digest (t ∷ ts) = ap (λ l. digest t ∷ l) (md5_all-map digest ts)
