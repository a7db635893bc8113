-- ===== src/GobCodec/Tests.antt =====
-- A codec that fails to encode a response and is then closed.
use byterpc.Common.{◌≡◌, true, List, [], ◌∷◌, none, some, eof}
use byterpc.GobCodec.{Answers, new_gob_server_codec}
use byterpc.GobCodec.Closing.{Op, writes, closes_codec, run, run-new_gob_server_codec}

abbrev fine : Answers
fine = record { header = none; body = none; flushed = none; closing = none }

abbrev history : List Op
history = writes fine ∷ writes (record fine { body = some eof }) ∷ closes_codec none ∷ []

run-new_gob_server_codec_example :
    let c = run new_gob_server_codec history in
    (c.closes ≡ 1) × (c.closed ≡ true) × (c.enc_buf ≡ [])
run-new_gob_server_codec_example = run-new_gob_server_codec history
