-- ===== src/Client/Sending.antt =====
-- The invariant of a client across the end of `send`.
use byterpc.Common.{
  ℕ, ◌+◌, ◌≡◌, Option, none, some, lookup, nat_eq, erase-KeysDistinct, AllEntries-erase, arith,
  Error, inl, inr, Option-cases,
}
use byterpc.Client.{Client, Call, fail, finish_write, drop_pending}
use byterpc.Client.Tally.{finished, finished-fail, erase-Conserved, erase_absent-Conserved}
use byterpc.Client.Invariant.{
  Inv, IsBelow, Runs, Runs-Conserved, Conserved-Runs, Runs-AtEnd, sending-Runs, length-update_call,
}

pub drop_pending-receiver :
    (c : Client) (seq : ℕ) (f : Call → Call) → (drop_pending c seq f).receiver ≡ c.receiver
drop_pending-receiver c seq f = ground arith

pub drop_pending-Inv :
    (c : Client) (seq : ℕ) (f : Call → Call)
    → ((call : Call) → finished (f call) ≡ finished call + 1)
    → Runs c.receiver
    → Inv c
    → Inv (drop_pending c seq f)
drop_pending-Inv c seq f adds_one runs v = elim (Option-cases (lookup seq c.pending)) [
  | inl missing ↦
      rw (missing, drop_pending)
        record {
          no_plugins = v.no_plugins;
          accounts = Conserved-Runs c.receiver _ _ runs (
              erase_absent-Conserved seq c.pending c.calls missing
                (Runs-Conserved c.receiver _ _ runs v.accounts));
          at_end = v.at_end;
          distinct = erase-KeysDistinct seq c.pending v.distinct;
          below = AllEntries-erase (IsBelow c.seq) seq c.pending v.below;
          counted = v.counted;
        }
  | inr (id, found) ↦
      rw (found, drop_pending)
        record {
          no_plugins = v.no_plugins;
          accounts = Conserved-Runs c.receiver _ _ runs (
              erase-Conserved f adds_one seq id c.pending c.calls v.distinct found
                (Runs-Conserved c.receiver _ _ runs v.accounts));
          at_end = v.at_end;
          distinct = erase-KeysDistinct seq c.pending v.distinct;
          below = AllEntries-erase (IsBelow c.seq) seq c.pending v.below;
          counted = omega (arith, v.counted, length-update_call id f c.calls);
        }
]

-- The state with nothing in flight.
settle_flight : (c : Client) → Runs c.receiver → Inv c → Inv (record c { in_flight = none })
settle_flight c runs v = record {
  no_plugins = v.no_plugins;
  accounts = v.accounts;
  at_end = Runs-AtEnd c.receiver _ _ runs;
  distinct = v.distinct;
  below = v.below;
  counted = v.counted;
}

pub finish_write-Inv :
    (c : Client) (seq : ℕ) (answer : Option Error)
    → c.in_flight ≡ some seq
    → Inv c
    → Inv (finish_write c seq answer)
unfolding finish_write
finish_write-Inv c seq none e v = settle_flight c (sending-Runs c.receiver _ _ seq v.at_end e) v
finish_write-Inv c seq (some x) e v =
    let runs : Runs c.receiver = sending-Runs c.receiver _ _ seq v.at_end e in
    drop_pending-Inv (record c { in_flight = none }) seq (fail x) (finished-fail x) runs
      (settle_flight c runs v)
