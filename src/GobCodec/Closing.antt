-- ===== src/GobCodec/Closing.antt =====
-- How often the gob codec of a server closes its connection.
use byterpc.Common.{
  ℕ, ◌≡◌, ◌∙◌, ap, refl, Bool, true, false, List, [], ◌∷◌, Option, none, some, if◌then◌else◌, Error,
  arith,
}
use byterpc.GobCodec.{
  GobServerCodec, new_gob_server_codec, flush, close, close_flushed, Answers, write_response,
}

pub data Op : Type 0 where
  writes : Answers → Op
  closes_codec : Option Error → Op

unfoldable pub step : GobServerCodec → Op → GobServerCodec
step c (writes a) = (write_response c a).0
step c (closes_codec a) = (close c a).0

unfoldable pub run : GobServerCodec → List Op → GobServerCodec
unfolding step
run c [] = c
run c (o ∷ os) = run (step c o) os

-- An operation that closes the connection: `Close`, or a response that cannot be encoded.
abbrev pub is_closing : Op → Bool
is_closing (closes_codec a) = true
is_closing (writes a) = elim a.header [
  | some e ↦ true
  | none ↦ elim a.body [ some e ↦ true | none ↦ false ]
]

abbrev pub any_closing : List Op → Bool
any_closing [] = false
any_closing (o ∷ os) = if is_closing o then true else any_closing os

-- The connection has been closed as often as the flag says, and the buffer is empty.
abbrev IsTidy : GobServerCodec → Type 0
IsTidy c = (c.enc_buf ≡ []) × (c.closes ≡ (if c.closed then 1 else 0))

close-IsTidy :
    (c : GobServerCodec) (a : Option Error)
    → IsTidy c
    → IsTidy (close c a).0 × ((close c a).0.closed ≡ true)
unfolding close
close-IsTidy c a h = ground arith

close_flushed-IsTidy :
    (c : GobServerCodec) (a f : Option Error)
    → IsTidy c
    → IsTidy (close_flushed c a (flush c.enc_buf f))
      × ((close_flushed c a (flush c.enc_buf f)).closed ≡ true)
unfolding flush close
close_flushed-IsTidy c a f (empty, counted) =
    rw empty (close-IsTidy (record c { enc_buf = [] }) a (refl, counted))

flushed_empty : (buf : List ℕ) (f : Option Error) → buf ≡ [] → (flush buf f).0 ≡ []
unfolding flush
flushed_empty [] f e = refl
flushed_empty (b ∷ buf) f e = cc e

rest_closed :
    (now later before middle : Bool)
    → middle ≡ (if now then true else before)
    → (if later then true else middle) ≡ (if (if now then true else later) then true else before)
rest_closed now later before middle e = ground arith

abbrev Steps : GobServerCodec → Bool → GobServerCodec → Type 0
Steps c closing c' = IsTidy c' × (c'.closed ≡ (if closing then true else c.closed))

write_response-Steps :
    (c : GobServerCodec) (h b f k : Option Error)
    → IsTidy c
    → let a : Answers = record { header = h; body = b; flushed = f; closing = k } in
      Steps c (is_closing (writes a)) (write_response c a).0
unfolding write_response
write_response-Steps c (some e) b f k t = close_flushed-IsTidy c k f t
write_response-Steps c none (some e) f k t = close_flushed-IsTidy c k f t
write_response-Steps c none none f k (empty, counted) =
    ((flushed_empty c.enc_buf f empty, counted), refl)

step-Steps : (c : GobServerCodec) (o : Op) → IsTidy c → Steps c (is_closing o) (step c o)
unfolding step
step-Steps c (writes a) t = write_response-Steps c a.header a.body a.flushed a.closing t
step-Steps c (closes_codec a) t = close-IsTidy c a t

run-Steps : (c : GobServerCodec) (os : List Op) → IsTidy c → Steps c (any_closing os) (run c os)
unfolding run
run-Steps c [] t = (t, refl)
run-Steps c (o ∷ os) t =
    let (tidy, now) = step-Steps c o t in
    let (after, later) = run-Steps (step c o) os tidy in
    (after, later ∙ rest_closed (is_closing o) (any_closing os) c.closed (step c o).closed now)

-- Under every history of responses and calls of `Close` the connection is closed once if one of them
-- closes it, a response that cannot be encoded included, and otherwise not at all; nothing is ever
-- in the buffer that is flushed.
pub run-new_gob_server_codec :
    (os : List Op)
    → let c = run new_gob_server_codec os in
      (c.closes ≡ (if any_closing os then 1 else 0))
      × (c.closed ≡ any_closing os)
      × (c.enc_buf ≡ [])
run-new_gob_server_codec os =
    let ((empty, counted), shut) = run-Steps new_gob_server_codec os (refl, refl) in
    let flag : (run new_gob_server_codec os).closed ≡ any_closing os = ground (arith, shut) in
    (counted ∙ ap (λ b. if b then 1 else 0) flag, flag, empty)
