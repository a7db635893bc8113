-- ===== src/Dencoder/Tests.antt =====
-- Frames of a few bytes.
use byterpc.Common.{
  ℕ, ◌≡◌, ◌↔◌, refl, List, [], ◌∷◌, ◌++◌, none, some, Result, ok, err, panic, arith, inl, true,
  false, unexpected_eof, codes, message,
}
use byterpc.Dencoder.{put_uvarint, read_uvarint, read_full, write_frame, encode, decode, int_limit}
use byterpc.Dencoder.Panics.{NoRoom, read_full_panics}
use byterpc.Dencoder.Frames.{
  read_full-write_frame, read_all, write_all, read_all-write_all, decode-encode, decode_discards,
}

two_bytes : put_uvarint 300 ≡ 172 ∷ 2 ∷ []
unfolding put_uvarint
two_bytes = refl

too_long :
    (read_uvarint (255 ∷ 255 ∷ 255 ∷ 255 ∷ 255 ∷ 255 ∷ 255 ∷ 255 ∷ 255 ∷ 2 ∷ [])).0
    ≡ err (message (codes "binary: varint overflows a 64-bit integer"))
unfolding read_uvarint
too_long = refl

half_written :
    write_frame (7 ∷ 8 ∷ []) none (some (1, unexpected_eof)) ≡ (2 ∷ 7 ∷ [], some unexpected_eof)
unfolding write_frame
half_written = refl

read_full-write_frame_example :
    read_full 1000 128 ((write_frame (7 ∷ 8 ∷ []) none none).0 ++ (9 ∷ []))
    ≡ record { outcome = ok (7 ∷ 8 ∷ []); room = 128; input = 9 ∷ [] }
read_full-write_frame_example =
    read_full-write_frame 1000 128 (7 ∷ 8 ∷ []) (9 ∷ []) (omega arith) (inl (omega arith))

read_full_panics_example :
    ((read_full 1000 128 (put_uvarint int_limit ++ [])).outcome ≡ panic) ↔ NoRoom 1000 128 int_limit
read_full_panics_example = read_full_panics 1000 128 int_limit [] (omega arith)

abbrev frames : List (List ℕ)
frames = (7 ∷ 8 ∷ []) ∷ [] ∷ (9 ∷ []) ∷ []

read_all-write_all_example : read_all 3 1000 1 (write_all frames) ≡ ok frames
read_all-write_all_example =
    read_all-write_all 1000 1 frames
      (omega arith, omega arith, (omega arith, omega arith, (omega arith, omega arith, tt)))

-- Messages that are their own encoding.
abbrev marshal : List ℕ → Result (List ℕ)
marshal m = ok m

decode-encode_example :
    let (buf, (sent, failed)) = encode marshal marshal [] (7 ∷ []) none none in
    (buf ≡ [])
    × (failed ≡ none)
    × (decode marshal marshal 1000 128 true (sent ++ (9 ∷ []))
        ≡ (ok (some (7 ∷ [])), record { outcome = ok (7 ∷ []); room = 128; input = 9 ∷ [] }))
decode-encode_example =
    decode-encode marshal marshal 1000 128 (7 ∷ []) (7 ∷ []) (9 ∷ []) refl refl (omega arith)
      (omega arith)

decode_discards_example :
    let (outcome, f) =
      decode marshal marshal 1000 128 false ((write_frame (7 ∷ []) none none).0 ++ (9 ∷ [])) in
    (outcome ≡ ok none) × (f.input ≡ 9 ∷ [])
decode_discards_example =
    decode_discards marshal marshal 1000 128 (7 ∷ []) (9 ∷ []) (omega arith) (omega arith)
