-- ===== src/Service/Suitable.antt =====
-- What is asked of a method, and the tests of `registerMethods` on it.
use byterpc.Common.{
  method_args_must_be_exported, method_return_value_must_be_an_error,
  method_second_arg_must_be_pointer, ◌≡◌, ◌≢◌, ◌⊎◌, inl, inr, refl, Bool, true, false, ◌&&◌, List,
  [], ◌∷◌, Option, none, some, if◌then◌else◌, Text, same, text_eq, Error, ok, err, arith,
  Bool-cases,
}
use byterpc.Service.{
  GoType, ReflectMethod, Method, is_exported_or_builtin_type, is_pointer, is_type_of_error,
  check_types, check_outs, screen,
}

module _ (is_exported : Text → Bool) where
  -- What the documentation asks of a method: two arguments of exported or builtin types, the second
  -- a pointer, and one result of type error.
  abbrev pub suitable : List GoType → List GoType → Option (GoType × GoType)
  suitable (r ∷ a ∷ p ∷ []) (t ∷ []) =
      if is_exported_or_builtin_type is_exported a
        && is_exported_or_builtin_type is_exported p
        && is_pointer p
        && is_type_of_error t
      then some (a, p)
      else none
  suitable ins outs = none

  -- What a list of methods gives for a name: the entry of the last good one of that name.
  abbrev pub entry_of : Text → ReflectMethod → Option Method
  entry_of n m =
      if same m.pkg_path [] && same n m.name
      then elim (suitable m.ins m.outs) [
        | none ↦ none
        | some (a, p) ↦ some (record { method = m; arg_type = a; reply_type = p })
      ]
      else none

  abbrev pub last_entry : Text → Option Method → List ReflectMethod → Option Method
  last_entry n before [] = before
  last_entry n before (m ∷ ms) =
      last_entry n (elim (entry_of n m) [ none ↦ before | some x ↦ some x ]) ms

  abbrev Types : GoType → GoType → GoType → List GoType → Type 0
  Types r a p outs =
      ((check_types is_exported a p outs ≡ none) × (suitable (r ∷ a ∷ p ∷ []) outs ≡ some (a, p)))
      ⊎ ((e : Error) × (check_types is_exported a p outs ≡ some e)
          × (suitable (r ∷ a ∷ p ∷ []) outs ≡ none))

  check_outs_cases :
      (outs : List GoType)
      → ((t : GoType) × (outs ≡ t ∷ [])
          × (is_type_of_error t ≡ true)
          × (check_outs is_exported outs ≡ none))
        ⊎ ((e : Error) × (check_outs is_exported outs ≡ some e)
            × ((r a p : GoType) → suitable (r ∷ a ∷ p ∷ []) outs ≡ none))
  check_outs_cases [] = inr (_, refl, λ r a p. refl)
  check_outs_cases (t ∷ u ∷ ts) = inr (_, refl, λ r a p. refl)
  check_outs_cases (t ∷ []) = elim (Bool-cases (is_type_of_error t)) [
    | inl on ↦ inl (t, refl, on, rw on refl)
    | inr off ↦ inr (method_return_value_must_be_an_error, rw off refl, λ r a p. ground arith)
  ]

  -- Without a good argument and a good reply type no results make a method suitable.
  unsuitable :
      (r a p : GoType) (outs : List GoType)
      → (is_exported_or_builtin_type is_exported a
          && is_exported_or_builtin_type is_exported p
          && is_pointer p)
        ≡ false
      → suitable (r ∷ a ∷ p ∷ []) outs ≡ none
  unsuitable r a p [] h = refl
  unsuitable r a p (t ∷ []) h = ground arith
  unsuitable r a p (t ∷ u ∷ ts) h = refl

  check_types_cases : (r a p : GoType) (outs : List GoType) → Types r a p outs
  check_types_cases r a p outs = elim (Bool-cases (is_exported_or_builtin_type is_exported a)) [
    | inr off ↦ inr (method_args_must_be_exported, rw off refl, unsuitable r a p outs (rw off refl))
    | inl one ↦ elim (Bool-cases (is_pointer p)) [
      | inr off ↦ inr (
        method_second_arg_must_be_pointer,
        rw (one, off) refl,
        unsuitable r a p outs (ground arith),
      )
      | inl two ↦ elim (Bool-cases (is_exported_or_builtin_type is_exported p)) [
        | inr off ↦ inr (
          method_args_must_be_exported,
          rw (one, two, off) refl,
          unsuitable r a p outs (ground arith),
        )
        | inl three ↦ elim (check_outs_cases outs) [
          | inl (t, shape, good, passed) ↦
              inl (rw (one, two, three) passed, rw shape (ground arith))
          | inr (e, failed, none_for) ↦ inr (e, rw (one, two, three) failed, none_for r a p)
        ]
      ]
    ]
  ]

  abbrev Screened : ReflectMethod → List GoType → Type 0
  Screened m ins =
      ((a p : GoType) × (screen is_exported m ins
          ≡ ok (record { method = m; arg_type = a; reply_type = p }))
        × (suitable ins m.outs ≡ some (a, p)))
      ⊎ ((e : Error) × (screen is_exported m ins ≡ err e) × (suitable ins m.outs ≡ none))

  -- A screened method is suitable, and one that is refused is not.
  pub screen_cases : (m : ReflectMethod) (ins : List GoType) → Screened m ins
  screen_cases m [] = inr (_, refl, refl)
  screen_cases m (r ∷ []) = inr (_, refl, refl)
  screen_cases m (r ∷ a ∷ []) = inr (_, refl, refl)
  screen_cases m (r ∷ a ∷ p ∷ q ∷ ts) = inr (_, refl, refl)
  screen_cases m (r ∷ a ∷ p ∷ []) = elim (check_types_cases r a p m.outs) [
    | inl (passed, good) ↦ inl (a, p, rw (passed, screen) refl, good)
    | inr (e, failed, bad) ↦ inr (e, rw (failed, screen) refl, bad)
  ]

  -- Every exported method of the list is suitable.
  abbrev pub AllSuitable : List ReflectMethod → Type 0
  AllSuitable [] = Unit
  AllSuitable (m ∷ ms) = (m.pkg_path ≡ [] → suitable m.ins m.outs ≢ none) × AllSuitable ms

  pub entry_of_good :
      (n : Text) (m : ReflectMethod) (a p : GoType)
      → same m.pkg_path [] ≡ true
      → suitable m.ins m.outs ≡ some (a, p)
      → entry_of n m ≡ (
          if same n m.name
          then some (record { method = m; arg_type = a; reply_type = p })
          else none)
  entry_of_good n m a p shown good = rw (shown, good) refl

  pub entry_of_bad :
      (n : Text) (m : ReflectMethod) → suitable m.ins m.outs ≡ none → entry_of n m ≡ none
  entry_of_bad n m bad = rw bad (ground arith)

  pub entry_of_hidden :
      (n : Text) (m : ReflectMethod) → same m.pkg_path [] ≡ false → entry_of n m ≡ none
  entry_of_hidden n m hidden = rw hidden refl

  abbrev pub kept : Option Method → Option Method → Option Method
  kept before none = before
  kept before (some x) = some x

  pub if-kept :
      (b : Bool) (x : Method) (before : Option Method)
      → (if b then some x else before) ≡ kept before (if b then some x else none)
  if-kept true x before = refl
  if-kept false x before = refl
