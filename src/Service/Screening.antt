-- ===== src/Service/Screening.antt =====
-- Which methods of a receiver become methods of its service.
use byterpc.Common.{
  ◌≡◌, ◌∙◌, ◌⊎◌, inl, inr, refl, ap, sym, Bool, true, false, List, [], ◌∷◌, none, Text, same, Dict,
  lookup, insert, lookup-insert, text_eq, Error, same_iff, ok, err, Bool-cases,
}
use byterpc.Service.{ReflectMethod, Method, register_loop, register_methods}
use byterpc.Service.Suitable.{
  AllSuitable, entry_of_bad, entry_of_good, entry_of_hidden, if-kept, kept, last_entry,
  screen_cases,
}

module _ (is_exported : Text → Bool) where
  -- The map of a loop that skips errors.
  lenient :
      (methods : Dict Text Method) (ms : List ReflectMethod)
      → (t : Dict Text Method) × (register_loop is_exported true methods ms ≡ ok t)
        × ((n : Text) → lookup n t ≡ last_entry is_exported n (lookup n methods) ms)
  unfolding register_loop
  lenient methods [] = (methods, refl, λ n. refl)
  lenient methods (m ∷ ms) = elim (Bool-cases (same m.pkg_path [])) [
    | inr hidden ↦
        let (t, e, l) = lenient methods ms in
        (
          t,
          rw hidden e,
          λ n.
              l n
              ∙ ap (λ o. last_entry is_exported n (kept is_exported (lookup n methods) o) ms)
                  (sym (entry_of_hidden is_exported n m hidden)),
        )
    | inl shown ↦ elim (screen_cases is_exported m m.ins) [
      | inl (a, p, screened, good) ↦
          let x : Method = record { method = m; arg_type = a; reply_type = p } in
          let (t, e, l) = lenient (insert m.name x methods) ms in
          (
            t,
            rw (shown, screened) e,
            λ n.
                l n
                ∙ ap (λ o. last_entry is_exported n o ms)
                    (lookup-insert n m.name x methods
                      ∙ if-kept is_exported (same n m.name) x (lookup n methods)
                      ∙ ap (kept is_exported (lookup n methods))
                          (sym (entry_of_good is_exported n m a p shown good))),
          )
      | inr (e, refused, bad) ↦
          let (t, q, l) = lenient methods ms in
          (
            t,
            rw (shown, refused) q,
            λ n.
                l n
                ∙ ap (λ o. last_entry is_exported n (kept is_exported (lookup n methods) o) ms)
                    (sym (entry_of_bad is_exported n m bad)),
          )
    ]
  ]

  -- A loop that stops at the first error.
  strict :
      (methods : Dict Text Method) (ms : List ReflectMethod)
      → (AllSuitable is_exported ms
          × (register_loop is_exported false methods ms
              ≡ register_loop is_exported true methods ms))
        ⊎ ((¬ AllSuitable is_exported ms)
            × ((e : Error) × (register_loop is_exported false methods ms ≡ err e)))
  unfolding register_loop
  strict methods [] = inl (tt, refl)
  strict methods (m ∷ ms) = elim (Bool-cases (same m.pkg_path [])) [
    | inr hidden ↦ elim (strict methods ms) [
      | inl (all, e) ↦ inl (((λ h. cc ((same_iff m.pkg_path []).1 h, hidden)), all), rw hidden e)
      | inr (not_all, (e, q)) ↦ inr (λ h. not_all h.1, (e, rw hidden q))
    ]
    | inl shown ↦ elim (screen_cases is_exported m m.ins) [
      | inl (a, p, screened, good) ↦
          let x : Method = record { method = m; arg_type = a; reply_type = p } in
          elim (strict (insert m.name x methods) ms) [
            | inl (all, e) ↦ inl (((λ h k. cc), all), rw (shown, screened) e)
            | inr (not_all, (e, q)) ↦ inr (λ h. not_all h.1, (e, rw (shown, screened) q))
          ]
      | inr (e, refused, bad) ↦
          inr (λ h. h.0 ((same_iff m.pkg_path []).0 shown) bad, (e, rw (shown, refused) refl))
    ]
  ]

  -- With errors skipped the methods of a service are, under each name, the last suitable exported
  -- method of the type with that name, and no others. Without, they are the same if every exported
  -- method is suitable, and otherwise there is an error.
  pub register_methods_lem :
      (ms : List ReflectMethod)
      → (t : Dict Text Method) × (register_methods is_exported true ms ≡ ok t)
        × ((n : Text) → lookup n t ≡ last_entry is_exported n none ms)
        × ((AllSuitable is_exported ms × (register_methods is_exported false ms ≡ ok t))
            ⊎ ((¬ AllSuitable is_exported ms)
                × ((e : Error) × (register_methods is_exported false ms ≡ err e))))
  unfolding register_methods
  register_methods_lem ms =
      let (t, e, l) = lenient [] ms in
      (t, e, l, elim (strict [] ms) [ inl (all, q) ↦ inl (all, q ∙ e) | inr bad ↦ inr bad ])
