-- ===== src/Dencoder/Varint.antt =====
-- `binary.ReadUvarint` on what `binary.PutUvarint` writes.
use byterpc.Common.{
  ℕ, zero, suc, ◌+◌, ◌*◌, ◌/◌, ◌%◌, ◌^◌, ◌<◌, ◌≤◌, ◌≡◌, ◌∙◌, ap, List, [], ◌∷◌, ◌++◌, ltb, ok,
  arith, inl, inr, Bool-cases,
}
use byterpc.Dencoder.{max_varint_len64, put_loop, put_uvarint, read_loop, read_uvarint}

-- The first value that `k` bytes cannot hold, where the last of ten bytes may be 1 at most.
bound : ℕ → ℕ
bound zero = 0
bound (suc zero) = 2
bound (suc (suc k)) = 128 * bound (suc k)

split_byte : (x y m : ℕ) → x + y % 128 * m + y / 128 * (m * 128) ≡ x + y * m
split_byte x y m =
    let e : y ≡ y % 128 + 128 * (y / 128) = omega arith in omega (arith, ap (λ (t : ℕ). t * m) e)

put_last : (k y : ℕ) → y < 128 → put_loop (suc k) y ≡ y ∷ []
unfolding put_loop
put_last k y h = ground arith

put_more : (k y : ℕ) → 128 ≤ y → put_loop (suc k) y ≡ (y % 128 + 128) ∷ put_loop k (y / 128)
unfolding put_loop
put_more k y h = ground arith

read_last :
    (k m x b : ℕ) (rest : List ℕ)
    → b < 128
    → (k ≡ 0 → b < 2)
    → read_loop (suc k) m x (b ∷ rest) ≡ (ok (x + b * m), rest)
unfolding read_loop
read_last k m x b rest h small = ground arith

read_more :
    (k m x b : ℕ) (rest : List ℕ)
    → 128 ≤ b
    → read_loop (suc k) m x (b ∷ rest) ≡ read_loop k (m * 128) (x + b % 128 * m) rest
unfolding read_loop
read_more k m x b rest h = ground arith

read_loop-put :
    (k m x y : ℕ) (rest : List ℕ)
    → y < bound k
    → read_loop k m x (put_loop k y ++ rest) ≡ (ok (x + y * m), rest)
unfolding bound
read_loop-put zero m x y rest h = absurd (omega arith)
read_loop-put (suc zero) m x y rest h =
    rw (put_last zero y (omega arith)) (read_last zero m x y rest (omega arith) (λ _. h))
read_loop-put (suc (suc k)) m x y rest h = elim (Bool-cases (ltb y 128)) [
  | inl last ↦
      rw (put_last (suc k) y (ground arith))
        (read_last (suc k) m x y rest (ground arith) (λ e. absurd (omega arith)))
  | inr more ↦
      rw
        (
          put_more (suc k) y (ground arith),
          read_more (suc k) m x (y % 128 + 128) (put_loop (suc k) (y / 128) ++ rest) (omega arith),
        )
        (read_loop-put (suc k) (m * 128) (x + (y % 128 + 128) % 128 * m) (y / 128) rest
            (omega arith)
          ∙ ap (λ (t : ℕ). (ok t, rest)) (same_value))
]
  where
    same_value : x + (y % 128 + 128) % 128 * m + y / 128 * (m * 128) ≡ x + y * m
    same_value = let e : (y % 128 + 128) % 128 ≡ y % 128 = omega arith in rw e (split_byte x y m)

-- Every length that fits uint64 is read back as it was written, and the bytes after it are left.
pub read_uvarint-put_uvarint :
    (n : ℕ) (rest : List ℕ) → n < 2 ^ 64 → read_uvarint (put_uvarint n ++ rest) ≡ (ok n, rest)
unfolding read_uvarint put_uvarint bound
read_uvarint-put_uvarint n rest h =
    read_loop-put max_varint_len64 1 0 n rest (omega arith)
    ∙ ap (λ (t : ℕ). (ok t, rest)) (omega arith)
