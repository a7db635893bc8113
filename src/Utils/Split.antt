-- ===== src/Utils/Split.antt =====
-- `strings.Split` and the path of an invoke point.
use byterpc.Common.{
  ℕ, suc, ◌+◌, ◌≡◌, ◌≢◌, ◌⊎◌, ◌<◌, refl, ap, List, [], ◌∷◌, ◌++◌, if◌then◌else◌, ◌==◌, Text, codes,
  arith, invalid_invoke_point, ok, err, length, inl, inr,
}
use byterpc.Utils.{push, split, two_parts, transform_invoke_point_to_path}

-- How often a byte stands in a text.
abbrev pub count_byte : ℕ → Text → ℕ
count_byte b [] = 0
count_byte b (c ∷ s) = if c == b then suc (count_byte b s) else count_byte b s

length-push : (c : ℕ) (ws : List Text) → 0 < length ws → length (push c ws) ≡ length ws
length-push c [] h = elim h [ ]
length-push c (w ∷ ws) h = refl

-- A text has one part more than separators.
pub length-split : (sep : ℕ) (s : Text) → length (split sep s) ≡ count_byte sep s + 1
unfolding split
length-split sep [] = omega arith
length-split sep (c ∷ s) = ground (arith, length-split sep s, length-push c (split sep s))

-- Without a separator there is one part, the text.
split_whole : (sep : ℕ) (s : Text) → count_byte sep s ≡ 0 → split sep s ≡ s ∷ []
unfolding split
split_whole sep [] h = refl
split_whole sep (c ∷ s) h = ground (arith, split_whole sep s)

-- A text without separators is the first part of what it begins.
split-append :
    (sep : ℕ) (s t : Text) → count_byte sep s ≡ 0 → split sep (s ++ (sep ∷ t)) ≡ s ∷ split sep t
unfolding split
split-append sep [] t h = ground arith
split-append sep (c ∷ s) t h = ground (arith, split-append sep s t)

-- An invoke point of the form PSM:Service.Method, with no other colon and no dot in the service,
-- becomes the path /PSM/Service.
pub transform_lem :
    (psm service method : Text)
    → count_byte b':' psm ≡ 0
    → count_byte b':' (service ++ (b'.' ∷ method)) ≡ 0
    → count_byte b'.' service ≡ 0
    → transform_invoke_point_to_path (psm ++ (b':' ∷ (service ++ (b'.' ∷ method))))
      ≡ ok (codes "/" ++ (psm ++ (codes "/" ++ service)))
unfolding transform_invoke_point_to_path
transform_lem psm service method h k l =
    rw
      (
        split-append b':' psm (service ++ (b'.' ∷ method)) h,
        split_whole b':' (service ++ (b'.' ∷ method)) k,
      )
      (rw (split-append b'.' service method l) refl)

split_cases : (sep : ℕ) (s : Text) → (w : Text) × (ws : List Text) × (split sep s ≡ w ∷ ws)
split_cases sep s = by_parts (split sep s) refl
  where
    by_parts :
        (ws : List Text)
        → split sep s ≡ ws
        → (w : Text) × (ws' : List Text) × (split sep s ≡ w ∷ ws')
    by_parts [] e = absurd (omega (arith, ap length e, length-split sep s))
    by_parts (w ∷ ws) e = (w, ws, e)

two_parts_cases :
    (ws : List Text)
    → ((length ws ≡ 2) × ((p : Text) × (two_parts ws ≡ ok p)))
      ⊎ ((length ws ≢ 2) × (two_parts ws ≡ err invalid_invoke_point))
two_parts_cases [] = inr (omega arith, refl)
two_parts_cases (psm ∷ []) = inr (omega arith, refl)
two_parts_cases (psm ∷ rest ∷ []) =
    let (w, ws, e) = split_cases b'.' rest in
    inl (omega arith, (codes "/" ++ (psm ++ (codes "/" ++ w)), rw e refl))
two_parts_cases (psm ∷ rest ∷ more ∷ others) = inr (omega arith, refl)

-- An invoke point with exactly one colon has a path, and any other is refused as invalid.
pub transform_cases :
    (s : Text)
    → ((count_byte b':' s ≡ 1) × ((p : Text) × (transform_invoke_point_to_path s ≡ ok p)))
      ⊎ ((count_byte b':' s ≢ 1) × (transform_invoke_point_to_path s ≡ err invalid_invoke_point))
unfolding transform_invoke_point_to_path
transform_cases s = elim (two_parts_cases (split b':' s)) [
  | inl (n, found) ↦ inl (omega (arith, length-split b':' s), found)
  | inr (n, refused) ↦ inr (λ h. n (omega (arith, length-split b':' s)), refused)
]
