-- ===== src/Dencoder.antt =====
-- dencoder.go: length-prefixed frames, with `binary.PutUvarint` and `binary.ReadUvarint`. A reader
-- is the list of the bytes that are still to come; `proto.Marshal` and `proto.Unmarshal` are
-- arguments. The content of the decoder's buffer is overwritten by every frame, so only its
-- capacity is kept.
pub mod Varint
pub mod Frames
pub mod Panics
mod Tests
use byterpc.Common.{
  ℕ, zero, suc, ◌+◌, ◌*◌, ◌/◌, ◌%◌, ◌^◌, ◌-◌, ◌&&◌, List, [], ◌∷◌, ◌++◌, Bool, true, false, Option,
  none, some, if◌then◌else◌, ltb, leb, ◌==◌, length, Text, codes, Error, eof, unexpected_eof,
  message, Result, ok, err, panic, ◌⊎◌, inl, inr, ℤ, pos, negsuc,
}

abbrev pub max_varint_len64 : ℕ
max_varint_len64 = 10

abbrev pub bootstrap_len : ℕ
bootstrap_len = 128

-- `for x >= 0x80`: the low seven bits with the mark of a byte that is not the last.
unfoldable pub put_loop : ℕ → ℕ → List ℕ
put_loop zero x = []
put_loop (suc k) x =
    let rest = put_loop k (x / 128) in if ltb x 128 then x ∷ [] else (x % 128 + 128) ∷ rest

-- Ten bytes are enough for an uint64.
unfoldable pub put_uvarint : ℕ → List ℕ
unfolding put_loop
put_uvarint x = put_loop max_varint_len64 x

abbrev pub overflow : Error
overflow = message (codes "binary: varint overflows a 64-bit integer")

-- The loop of `ReadUvarint` with the rounds that are left, the weight `2 ^ s` of the next byte and
-- the value so far. The bits of a byte lie above those of the value, so `|` adds.
abbrev pub missing_byte : ℕ → Error
missing_byte k = if k == max_varint_len64 then eof else unexpected_eof

unfoldable pub read_loop : ℕ → ℕ → ℕ → List ℕ → Result ℕ × List ℕ
read_loop zero m x bytes = (err overflow, bytes)
read_loop (suc k) m x [] = (err (missing_byte (suc k)), [])
read_loop (suc k) m x (b ∷ bytes) =
    let rest = read_loop k (m * 128) (x + b % 128 * m) bytes in
    if ltb b 128
    then (if k == 0 && ltb 1 b then (err overflow, bytes) else (ok (x + b * m), bytes))
    else rest

unfoldable pub read_uvarint : List ℕ → Result ℕ × List ℕ
unfolding read_loop
read_uvarint bytes = read_loop max_varint_len64 1 0 bytes

-- `io.ReadFull` into a buffer of `n` bytes: the bytes, or the end of the stream before the first or
-- within.
abbrev pub push_byte : ℕ → Result (List ℕ) × List ℕ → Result (List ℕ) × List ℕ
push_byte b (ok payload, rest) = (ok (b ∷ payload), rest)
push_byte b (err e, rest) = (err unexpected_eof, rest)
push_byte b (panic, rest) = (panic, rest)

unfoldable pub read_bytes : ℕ → List ℕ → Result (List ℕ) × List ℕ
read_bytes zero bytes = (ok [], bytes)
read_bytes (suc n) [] = (err eof, [])
read_bytes (suc n) (b ∷ bytes) = push_byte b (read_bytes n bytes)

abbrev pub int_limit : ℕ
int_limit = 2 ^ 63

-- What the reader of a frame leaves: the outcome, the capacity of the buffer, and the bytes to come.
pub record Frame : Type 0 where
  pub outcome : Result (List ℕ)
  pub room : ℕ
  pub input : List ℕ

-- `readFull`. `alloc_limit` is the largest slice that `make` can make.
abbrev pub fill : ℕ → ℕ → Result (List ℕ) × List ℕ → Frame
fill space size (outcome, input) = record { outcome = outcome; room = space; input = input }

-- `int(val)` of an uint64: in two's complement.
abbrev pub to_int : ℕ → ℤ
to_int val = if ltb val int_limit then pos val else negsuc (2 ^ 64 - 1 - val)

-- `cap(buf) < size`
abbrev pub cap_below : ℕ → ℤ → Bool
cap_below space (pos n) = ltb space n
cap_below space (negsuc n) = false

-- `make([]byte, size)`: the capacity of the new buffer.
abbrev pub make_buf : ℕ → ℤ → Result ℕ
make_buf alloc_limit (pos n) = if ltb alloc_limit n then panic else ok n
make_buf alloc_limit (negsuc n) = panic

-- `buf[:size]`: the length, where it is one and the capacity holds it.
abbrev pub slice_to : ℕ → ℤ → Result ℕ
slice_to space (pos n) = if ltb space n then panic else ok n
slice_to space (negsuc n) = panic

abbrev pub filled : ℕ → Result ℕ → List ℕ → Frame
filled space (ok n) input = fill space n (read_bytes n input)
filled space (err e) input = record { outcome = err e; room = space; input = input }
filled space panic input = record { outcome = panic; room = space; input = input }

abbrev pub sliced : Result ℕ → ℤ → ℕ → List ℕ → Frame
sliced (ok space) size old input = filled space (slice_to space size) input
sliced (err e) size old input = record { outcome = err e; room = old; input = input }
sliced panic size old input = record { outcome = panic; room = old; input = input }

abbrev pub sized : ℕ → ℕ → ℕ → List ℕ → Frame
sized alloc_limit space val input =
    let size = to_int val in
    sliced (if cap_below space size then make_buf alloc_limit size else ok space) size space input

abbrev pub with_size : ℕ → ℕ → Result ℕ × List ℕ → Frame
with_size alloc_limit space (ok val, input) = sized alloc_limit space val input
with_size alloc_limit space (err e, input) = record { outcome = err e; room = space; input = input }
with_size alloc_limit space (panic, input) = record { outcome = panic; room = space; input = input }

unfoldable pub read_full : ℕ → ℕ → List ℕ → Frame
unfolding read_uvarint read_bytes
read_full alloc_limit space bytes = with_size alloc_limit space (read_uvarint bytes)

-- The answer of a write: all bytes are written, or only the first ones and there is an error.
unfoldable pub first_bytes : ℕ → List ℕ → List ℕ
first_bytes zero bytes = []
first_bytes (suc n) [] = []
first_bytes (suc n) (b ∷ bytes) = b ∷ first_bytes n bytes

unfoldable pub write : List ℕ → Option (ℕ × Error) → List ℕ × Option Error
unfolding first_bytes
write bytes none = (bytes, none)
write bytes (some (n, e)) = (first_bytes n bytes, some e)

-- `writeFrame`, with the answers of the two writes: what has been written, and the error.
abbrev pub write_payload :
    List ℕ → Option (ℕ × Error) → List ℕ × Option Error → List ℕ × Option Error
write_payload bytes second (sent, some e) = (sent, some e)
write_payload bytes second (sent, none) =
    let (more, failed) = write bytes second in (sent ++ more, failed)

unfoldable pub write_frame :
    List ℕ → Option (ℕ × Error) → Option (ℕ × Error) → List ℕ × Option Error
unfolding put_uvarint write
write_frame bytes first second =
    write_payload bytes second (write (put_uvarint (length bytes)) first)

module _ {M : Type 0} (marshal : M → Result (List ℕ)) (unmarshal : List ℕ → Result M) where
  -- `Encode` on the encoder's buffer, which `Marshal` appends to and every return resets: the buffer,
  -- what has been written, and the error.
  unfoldable pub encode :
      List ℕ → M → Option (ℕ × Error) → Option (ℕ × Error) → List ℕ × (List ℕ × Option Error)
  unfolding write_frame
  encode buf m first second = elim (marshal m) [
    | ok payload ↦ ([], write_frame (buf ++ payload) first second)
    | err e ↦ ([], ([], some e))
    | panic ↦ (buf, ([], none))
  ]

  -- `Decode` on the capacity of the decoder's buffer and the bytes to come, into a message or, with
  -- a nil message, to discard the frame.
  abbrev pub unmarshal_into : Bool → List ℕ → Result (Option M)
  unmarshal_into false payload = ok none
  unmarshal_into true payload = elim (unmarshal payload) [
    | ok m ↦ ok (some m)
    | err e ↦ err e
    | panic ↦ panic
  ]

  abbrev pub unmarshalled : Bool → Frame → Result (Option M) × Frame
  unmarshalled wanted f = elim f.outcome [
    | ok payload ↦ (unmarshal_into wanted payload, f)
    | err e ↦ (err e, f)
    | panic ↦ (panic, f)
  ]

  unfoldable pub decode : ℕ → ℕ → Bool → List ℕ → Result (Option M) × Frame
  unfolding read_full
  decode alloc_limit space wanted bytes = unmarshalled wanted (read_full alloc_limit space bytes)

  -- The free function `encode`: a value that is a message, or the name of its type.
  unfoldable pub encode_value :
      List ℕ → Text ⊎ M → Option (ℕ × Error) → Option (ℕ × Error) → List ℕ × (List ℕ × Option Error)
  unfolding encode
  encode_value buf (inl type_name) first second =
      (buf, ([], some (message (type_name ++ codes " does not implement proto.Message"))))
  encode_value buf (inr m) first second = encode buf m first second

-- `NewDecoder` and `NewEncoder`: the capacity of the one's buffer, and the content of the other's.
abbrev pub new_decoder : ℕ
new_decoder = bootstrap_len

abbrev pub new_encoder : List ℕ
new_encoder = []
