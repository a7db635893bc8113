-- ===== src/GobCodec.antt =====
-- gob_codec.go: the two gob codecs. The encoder writes to the connection itself and not to the
-- buffer that is flushed. What the encoder, the decoder and the connection answer is an argument.
pub mod Closing
mod Tests
use byterpc.Common.{
  ℕ, ◌+◌, ◌==◌, Bool, true, false, List, [], ◌∷◌, Option, none, some, if◌then◌else◌, length, Error,
}

-- `closes` counts the calls of `Close` of the connection.
pub record GobServerCodec : Type 0 where
  pub enc_buf : List ℕ
  pub closed : Bool
  pub closes : ℕ

abbrev pub new_gob_server_codec : GobServerCodec
new_gob_server_codec = record { enc_buf = []; closed = false; closes = 0 }

-- `bufio.Writer.Flush`: nothing is written where nothing is buffered.
unfoldable pub flush : List ℕ → Option Error → List ℕ × Option Error
flush [] answer = ([], none)
flush (b ∷ buf) none = ([], none)
flush (b ∷ buf) (some e) = (b ∷ buf, some e)

unfoldable pub close : GobServerCodec → Option Error → GobServerCodec × Option Error
close c answer =
    if c.closed then (c, none) else (record c { closed = true; closes = c.closes + 1 }, answer)

-- After an encoder error: the flush, and `Close` if it succeeds.
abbrev pub close_flushed : GobServerCodec → Option Error → List ℕ × Option Error → GobServerCodec
close_flushed c answer (buf, none) = (close (record c { enc_buf = buf }) answer).0
close_flushed c answer (buf, some e) = record c { enc_buf = buf }

-- The answers of the two `Encode`, of the connection to the flush, and of its `Close`.
pub record Answers : Type 0 where
  pub header : Option Error
  pub body : Option Error
  pub flushed : Option Error
  pub closing : Option Error

unfoldable pub write_response : GobServerCodec → Answers → GobServerCodec × Option Error
unfolding flush close
write_response c a = elim a.header [
  | some e ↦ (close_flushed c a.closing (flush c.enc_buf a.flushed), some e)
  | none ↦ elim a.body [
    | some e ↦ (close_flushed c a.closing (flush c.enc_buf a.flushed), some e)
    | none ↦ (record c { enc_buf = (flush c.enc_buf a.flushed).0 }, (flush c.enc_buf a.flushed).1)
  ]
]

-- `gobClientCodec`, which does not remember that it was closed.
pub record GobClientCodec : Type 0 where
  pub client_buf : List ℕ
  pub client_closes : ℕ

abbrev pub new_gob_client_codec : GobClientCodec
new_gob_client_codec = record { client_buf = []; client_closes = 0 }

unfoldable pub close_client : GobClientCodec → Option Error → GobClientCodec × Option Error
close_client c answer = (record c { client_closes = c.client_closes + 1 }, answer)

-- `gobClientCodec.WriteRequest` on its buffer.
unfoldable pub write_request : List ℕ → Answers → List ℕ × Option Error
unfolding flush
write_request enc_buf a = elim a.header [
  | some e ↦ (enc_buf, some e)
  | none ↦ elim a.body [ some e ↦ (enc_buf, some e) | none ↦ flush enc_buf a.flushed ]
]
