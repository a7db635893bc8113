-- ===== src/Utils/Errors.antt =====
-- `WrapArrayErrs` of utils.go on lists of errors.
use mathlib.Core.List.{reverse, reverse-cons}
use byterpc.Common.{
  ℕ, ◌+◌, ◌≡◌, ◌↔◌, ◌≤◌, ◌∙◌, refl, ap, List, [], ◌∷◌, ◌++◌, none, some, Text, arith, Error,
  message, length,
}
use byterpc.Utils.{trim_left, trim, error_lines, error_text, wrap_array_errs}
use byterpc.Utils.Split.{count_byte}

count_byte-append : (b : ℕ) (s t : Text) → count_byte b (s ++ t) ≡ count_byte b s + count_byte b t
count_byte-append b [] t = omega arith
count_byte-append b (c ∷ s) t = ground (arith, count_byte-append b s t)

count_byte-reverse : (b : ℕ) (s : Text) → count_byte b (reverse s) ≡ count_byte b s
count_byte-reverse b [] = refl
count_byte-reverse b (c ∷ s) =
    ap (count_byte b) (reverse-cons c s)
    ∙ ground (arith, count_byte-append b (reverse s) (c ∷ []), count_byte-reverse b s)

-- Trimming spaces keeps the newlines.
count_byte-trim_left : (s : Text) → count_byte 10 (trim_left s) ≡ count_byte 10 s
count_byte-trim_left [] = refl
count_byte-trim_left (c ∷ s) = ground (arith, count_byte-trim_left s)

count_byte-trim : (s : Text) → count_byte 10 (trim s) ≡ count_byte 10 s
count_byte-trim s = omega (
  arith,
  count_byte-reverse 10 (trim_left (reverse (trim_left s))),
  count_byte-trim_left (reverse (trim_left s)),
  count_byte-reverse 10 (trim_left s),
  count_byte-trim_left s,
)

count_byte-le-length : (b : ℕ) (s : Text) → count_byte b s ≤ length s
count_byte-le-length b [] = omega arith
count_byte-le-length b (c ∷ s) = ground (arith, count_byte-le-length b s)

newlines : (es : List Error) → length es ≤ count_byte 10 (error_lines es)
unfolding error_lines
newlines [] = omega arith
newlines (e ∷ es) =
    ground (arith, count_byte-append 10 (error_text e) (10 ∷ error_lines es), newlines es)

-- One or more errors become one error, whose text has each of them on a line in their order, also
-- where their texts are empty or blank.
pub wrap_array_errs_cons :
    (e : Error) (es : List Error) → wrap_array_errs (e ∷ es) ≡ some (message (error_lines (e ∷ es)))
unfolding wrap_array_errs
wrap_array_errs_cons e es = ground (
  arith,
  newlines (e ∷ es),
  count_byte-trim (error_lines (e ∷ es)),
  count_byte-le-length 10 (trim (error_lines (e ∷ es))),
)

pub wrap_array_errs_nil : wrap_array_errs [] ≡ none
unfolding wrap_array_errs error_lines
wrap_array_errs_nil = refl

-- No error comes out exactly where none went in.
pub wrap_array_errs_iff : (es : List Error) → (wrap_array_errs es ≡ none) ↔ (es ≡ [])
wrap_array_errs_iff [] = (λ _. refl, λ _. wrap_array_errs_nil)
wrap_array_errs_iff (e ∷ es) = ((λ h. cc (wrap_array_errs_cons e es)), λ h. cc)
