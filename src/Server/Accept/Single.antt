-- ===== src/Server/Accept/Single.antt =====
-- `NewServer` makes one server.
use byterpc.Common.{
  ◌≡◌, refl, true, Option, Bool-cases, inl, inr, Text, Result, ok, err, panic, arith,
}
use byterpc.Config.{ServerConfig}
use byterpc.Server.Accept.{
  Acceptor, Singleton, first_server, new_server, new_rpc_server_with_options,
}

first_server-once :
    (g : Singleton) (r : Result Acceptor)
    → let (g', answer) = first_server g r in
      (g'.once_done ≡ true) × ((x : Option Acceptor) → answer ≡ ok x → g'.instance ≡ x)
first_server-once g (ok s) = (refl, λ x e. ground arith)
first_server-once g (err e) = (refl, λ x e. cc)
first_server-once g panic = (refl, λ x e. cc)

-- Whatever the first `NewServer` was given, and whether it returned or panicked, every later one
-- changes nothing and returns the instance that is there, whatever its configuration is; this is the
-- one that the first one returned, if it did.
pub new_server-new_server :
    (g : Singleton) (conf conf' : ServerConfig) (listened listened' : Result Text)
    → let (g', answer) = new_server g conf listened in
      (new_server g' conf' listened' ≡ (g', ok g'.instance))
      × ((x : Option Acceptor) → answer ≡ ok x → g'.instance ≡ x)
unfolding new_server
new_server-new_server g conf conf' listened listened' = elim (Bool-cases g.once_done) [
  | inl old ↦ rw old (refl, λ x e. ground arith)
  | inr new ↦
      let (marked, returned) = first_server-once g (new_rpc_server_with_options conf listened) in
      rw new (rw marked refl, returned)
]
