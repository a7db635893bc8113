-- ===== src/Dencoder/Frames.antt =====
-- Frames that are whole or cut short.
use mathlib.Core.List.{append_assoc}
use byterpc.Common.{
  ℕ, zero, suc, ◌<◌, ◌≤◌, ◌≡◌, ◌∙◌, ◌⊎◌, refl, ap, List, [], ◌∷◌, ◌++◌, none, some, if◌then◌else◌,
  ltb, length, Result, ok, err, panic, arith, inl, inr, Bool-cases, true, false, Error, eof,
  unexpected_eof,
}
use byterpc.Dencoder.{
  put_uvarint, read_bytes, fill, sized, read_full, write_frame, encode, decode, unmarshalled,
  unmarshal_into, int_limit,
}
use byterpc.Dencoder.Varint.{read_uvarint-put_uvarint}

read_bytes-append : (s rest : List ℕ) → read_bytes (length s) (s ++ rest) ≡ (ok s, rest)
unfolding read_bytes
read_bytes-append [] rest = refl
read_bytes-append (b ∷ s) rest = rw (read_bytes-append s rest) refl

-- The end of the stream before the first byte or within.
abbrev pub end_error : List ℕ → Error
end_error [] = eof
end_error (b ∷ s) = unexpected_eof

read_bytes_short : (n : ℕ) (s : List ℕ) → length s < n → read_bytes n s ≡ (err (end_error s), [])
unfolding read_bytes
read_bytes_short zero s h = elim h [ ]
read_bytes_short (suc n) [] h = refl
read_bytes_short (suc n) (b ∷ s) h = rw (read_bytes_short n s (omega arith)) refl

-- The capacity of the buffer after a frame.
abbrev pub grown : ℕ → ℕ → ℕ
grown space n = if ltb space n then n else space

pub sized-fill :
    (limit space n : ℕ) (input : List ℕ)
    → n < int_limit
    → (n ≤ space) ⊎ (n ≤ limit)
    → sized limit space n input ≡ fill (grown space n) n (read_bytes n input)
sized-fill limit space n input small fits = elim (Bool-cases (ltb space n)) [
  | inl more ↦ ground arith
  | inr enough ↦ ground arith
]

read_full_at :
    (limit space n : ℕ) (input : List ℕ)
    → n < int_limit
    → (n ≤ space) ⊎ (n ≤ limit)
    → read_full limit space (put_uvarint n ++ input) ≡ fill (grown space n) n (read_bytes n input)
unfolding read_full
read_full_at limit space n input small fits =
    rw (read_uvarint-put_uvarint n input (omega arith)) (sized-fill limit space n input small fits)

-- A frame that has been written is read as the same bytes, and what follows it in the stream is
-- left, where its length fits int and the buffer or the allocator has room for it.
pub read_full-write_frame :
    (limit space : ℕ) (payload rest : List ℕ)
    → length payload < int_limit
    → (length payload ≤ space) ⊎ (length payload ≤ limit)
    → read_full limit space ((write_frame payload none none).0 ++ rest)
      ≡ record { outcome = ok payload; room = grown space (length payload); input = rest }
unfolding write_frame
read_full-write_frame limit space payload rest small fits =
    rw
      (
        append_assoc (put_uvarint (length payload)) payload rest,
        read_full_at limit space (length payload) (payload ++ rest) small fits,
        read_bytes-append payload rest,
      )
      refl

-- A frame whose payload is cut short is an error, an end of the stream if nothing of the payload
-- is there and an unexpected one if a part is.
pub read_full_truncated :
    (limit space n : ℕ) (part : List ℕ)
    → length part < n
    → n < int_limit
    → (n ≤ space) ⊎ (n ≤ limit)
    → read_full limit space (put_uvarint n ++ part)
      ≡ record { outcome = err (end_error part); room = grown space n; input = [] }
read_full_truncated limit space n part short small fits =
    rw (read_full_at limit space n part small fits, read_bytes_short n part short) refl

-- A sequence of frames on one stream.
unfoldable pub write_all : List (List ℕ) → List ℕ
unfolding write_frame
write_all [] = []
write_all (p ∷ ps) = (write_frame p none none).0 ++ write_all ps

abbrev pub joined : Result (List ℕ) → Result (List (List ℕ)) → Result (List (List ℕ))
joined (ok p) (ok ps) = ok (p ∷ ps)
joined (ok p) (err e) = err e
joined (ok p) panic = panic
joined (err e) ps = err e
joined panic ps = panic

unfoldable pub read_all : ℕ → ℕ → ℕ → List ℕ → Result (List (List ℕ))
unfolding read_full
read_all zero limit space bytes = ok []
read_all (suc n) limit space bytes =
    let f = read_full limit space bytes in joined f.outcome (read_all n limit f.room f.input)

abbrev pub AllFit : ℕ → List (List ℕ) → Type 0
AllFit limit [] = Unit
AllFit limit (p ∷ ps) = (length p < int_limit) × (length p ≤ limit) × AllFit limit ps

read_all_none : (limit space : ℕ) → read_all 0 limit space [] ≡ ok []
unfolding read_all
read_all_none limit space = refl

read_all_next :
    (n limit space next : ℕ) (bytes rest : List ℕ) (p : List ℕ) (ps : List (List ℕ))
    → read_full limit space bytes ≡ record { outcome = ok p; room = next; input = rest }
    → read_all n limit next rest ≡ ok ps
    → read_all (suc n) limit space bytes ≡ ok (p ∷ ps)
unfolding read_all
read_all_next n limit space next bytes rest p ps first others =
    ap (λ f. joined f.outcome (read_all n limit f.room f.input)) first ∙ ap (joined (ok p)) others

-- Any number of frames is read in the order in which it was written, through one buffer, if every
-- length is below 2^63 and can be allocated.
pub read_all-write_all :
    (limit space : ℕ) (ps : List (List ℕ))
    → AllFit limit ps
    → read_all (length ps) limit space (write_all ps) ≡ ok ps
unfolding write_all
read_all-write_all limit space [] h = read_all_none limit space
read_all-write_all limit space (p ∷ ps) h =
    read_all_next (length ps) limit space (grown space (length p)) _ (write_all ps) p ps
      (read_full-write_frame limit space p (write_all ps) h.0 (inr h.1))
      (read_all-write_all limit (grown space (length p)) ps h.2)

module _ {M : Type 0} (marshal : M → Result (List ℕ)) (unmarshal : List ℕ → Result M) where
  encode_ok :
      (m : M) (payload : List ℕ)
      → marshal m ≡ ok payload
      → encode marshal unmarshal [] m none none ≡ ([], write_frame payload none none)
  unfolding encode
  encode_ok m payload written = rw (written, encode) refl

  decode_ok :
      (limit space : ℕ) (m : M) (payload bytes rest : List ℕ) (next : ℕ)
      → read_full limit space bytes ≡ record { outcome = ok payload; room = next; input = rest }
      → unmarshal payload ≡ ok m
      → decode marshal unmarshal limit space true bytes
        ≡ (ok (some m), record { outcome = ok payload; room = next; input = rest })
  unfolding decode
  decode_ok limit space m payload bytes rest next read back =
      ap (unmarshalled marshal unmarshal true) read ∙ rw (back, unmarshal_into) refl

  -- A message that is encoded on an empty buffer, with no failing write, is decoded as the same
  -- message, what follows it is left, and the encoder's buffer is empty again, if the codec of
  -- messages reads back what it has written and the length is below 2^63 and can be allocated.
  pub decode-encode :
      (limit space : ℕ) (m : M) (payload rest : List ℕ)
      → marshal m ≡ ok payload
      → unmarshal payload ≡ ok m
      → length payload < int_limit
      → length payload ≤ limit
      → let (buf, (sent, failed)) = encode marshal unmarshal [] m none none in
        (buf ≡ [])
        × (failed ≡ none)
        × (decode marshal unmarshal limit space true (sent ++ rest) ≡ (
          ok (some m),
          record { outcome = ok payload; room = grown space (length payload); input = rest },
        ))
  unfolding write_frame
  decode-encode limit space m payload rest written back small fits =
      rw (encode_ok m payload written) (
        refl,
        refl,
        decode_ok limit space m payload _ rest (grown space (length payload))
            (read_full-write_frame limit space payload rest small (inr fits)) back,
      )

  -- With a nil message a whole frame is read and thrown away.
  pub decode_discards :
      (limit space : ℕ) (payload rest : List ℕ)
      → length payload < int_limit
      → length payload ≤ limit
      → let (outcome, f) =
          decode marshal unmarshal limit space false ((write_frame payload none none).0 ++ rest) in
        (outcome ≡ ok none) × (f.input ≡ rest)
  unfolding decode
  decode_discards limit space payload rest small fits =
      rw (read_full-write_frame limit space payload rest small (inr fits)) (refl, refl)
