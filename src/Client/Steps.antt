-- ===== src/Client/Steps.antt =====
-- The interleavings of a client: the goroutines that call `Go` and `Close`, the one that runs
-- `receive`, and the codec. A step of `receive` touches a call that it has just taken from the map,
-- so a whole round is one step; `send` is two, before and after the write.
use byterpc.Common.{ℕ, ◌≡◌, Option, none, some, Text, lookup, nat_eq, Error, Result, ok}
use byterpc.Client.{
  Client, Call, reading, broken, RpcResponse, new_client, go_call, register, finish_write,
  receive_one, terminate, close,
}

pub data Step : Client → Client → Type 0 where
  goes :
      (c : Client) (id : ℕ) (method : Text) (cap : Option ℕ) (call : Call)
      → lookup id c.calls ≡ none
      → c.in_flight ≡ none
      → go_call method cap ≡ ok call
      → Step c (register c id call)
  writes :
      (c : Client) (seq : ℕ) (answer : Option Error)
      → c.in_flight ≡ some seq
      → Step c (finish_write c seq answer)
  receives :
      (c : Client) (r : Result RpcResponse) (body : Option Error)
      → c.receiver ≡ reading
      → Step c (receive_one c r body)
  ends :
      (c : Client) (e : Error) → c.receiver ≡ broken e → c.in_flight ≡ none → Step c (terminate c e)
  closes : (c : Client) (answer : Result (Unit {0})) → Step c (close c answer).0

-- The states that a new client can get to.
pub data Reach : Client → Type 0 where
  start : Reach new_client
  next : {c d : Client} → Reach c → Step c d → Reach d
