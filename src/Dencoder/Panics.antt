-- ===== src/Dencoder/Panics.antt =====
-- The lengths that make the reader of a frame panic.
use byterpc.Common.{
  ℕ, zero, suc, ◌^◌, ◌<◌, ◌≤◌, ◌≡◌, ◌≢◌, ◌↔◌, ◌∙◌, ◌⊎◌, refl, ap, sym, List, [], ◌∷◌, ◌++◌, ltb,
  Result, ok, err, panic, arith, inl, inr, Bool-cases,
}
use byterpc.Dencoder.{put_uvarint, push_byte, read_bytes, sized, read_full, int_limit}
use byterpc.Dencoder.Varint.{read_uvarint-put_uvarint}
use byterpc.Dencoder.Frames.{sized-fill}

push_byte-returns : (b : ℕ) (x : Result (List ℕ) × List ℕ) → x.0 ≢ panic → (push_byte b x).0 ≢ panic
push_byte-returns b (ok payload, rest) h e = cc
push_byte-returns b (err x, rest) h e = cc
push_byte-returns b (panic, rest) h e = h refl

read_bytes-returns : (n : ℕ) (s : List ℕ) → (read_bytes n s).0 ≢ panic
unfolding read_bytes
read_bytes-returns zero s e = cc
read_bytes-returns (suc n) [] e = cc
read_bytes-returns (suc n) (b ∷ s) e =
    push_byte-returns b (read_bytes n s) (read_bytes-returns n s) e

sized-returns :
    (limit space n : ℕ) (input : List ℕ)
    → n < int_limit
    → (n ≤ space) ⊎ (n ≤ limit)
    → (sized limit space n input).outcome ≢ panic
sized-returns limit space n input small fits e =
    read_bytes-returns n input
      (ap (λ f. f.outcome) (sym (sized-fill limit space n input small fits)) ∙ e)

-- The lengths for which there is no buffer.
abbrev pub NoRoom : ℕ → ℕ → ℕ → Type 0
NoRoom limit space n = (int_limit ≤ n) ⊎ ((space < n) × (limit < n))

sized-panics :
    (limit space n : ℕ) (input : List ℕ)
    → ((sized limit space n input).outcome ≡ panic) ↔ NoRoom limit space n
sized-panics limit space n input = elim (Bool-cases (ltb n int_limit)) [
  | inr large ↦ ((λ e. inl (ground arith)), λ h. rw large refl)
  | inl small ↦ elim (Bool-cases (ltb space n)) [
    | inr enough ↦ (
      λ e. elim (sized-returns limit space n input (ground arith) (inl (ground arith)) e) [ ],
      λ h. elim h [ inl large ↦ ground arith | inr (more, far) ↦ ground arith ],
    )
    | inl more ↦ elim (Bool-cases (ltb limit n)) [
      | inl far ↦ ((λ e. inr (ground arith)), λ h. rw (small, more, far) refl)
      | inr fits ↦ (
        λ e. elim (sized-returns limit space n input (ground arith) (inr (ground arith)) e) [ ],
        λ h. elim h [ inl large ↦ ground arith | inr (_, far) ↦ ground arith ],
      )
    ]
  ]
]

-- A peer that announces a length makes the reader panic, whatever follows, exactly when the length
-- is 2^63 or more, so that it is negative as an int, or when it is more than the buffer holds and
-- more than can be allocated. In all other cases the reader returns.
pub read_full_panics :
    (limit space n : ℕ) (input : List ℕ)
    → n < 2 ^ 64
    → ((read_full limit space (put_uvarint n ++ input)).outcome ≡ panic) ↔ NoRoom limit space n
unfolding read_full
read_full_panics limit space n input fits =
    rw (read_uvarint-put_uvarint n input fits) (sized-panics limit space n input)
