-- ===== src/Plugin/Hooks.antt =====
-- What a hook reports, in terms of the answers of the plugins.
use byterpc.Common.{
  ◌≡◌, refl, ap, inl, inr, Bool, true, List, [], ◌∷◌, ◌++◌, Option, none, some, Text, Dict, Error,
  message, Result, ok, err, arith, AllEntries, text_eq, nat_eq, lookup, insert, same, ◌==◌,
  lookup-insert, Bool-cases,
}
use byterpc.Utils.{error_text, error_lines}
use byterpc.Utils.Errors.{wrap_array_errs_cons}
use byterpc.Plugin.{
  Plugin, PluginType, Manager, Hook, add_error, collect, report, report_all, entries, type_map,
  run_hook, set_disable, set_disabled, set_type_map,
}

-- The answers of the plugins that fail, in the order in which they are visited.
abbrev pub failures : Hook → Dict Text Plugin → List Error
failures h [] = []
failures h ((n, p) ∷ d) = add_error (p.answer h) (failures h d)

abbrev pub Fit : PluginType → Dict Text Plugin → Type 0
Fit t = AllEntries (λ n p. p.implements t ≡ true)

collect-failures :
    (t : PluginType) (h : Hook) (d : Dict Text Plugin) → Fit t d → collect t h d ≡ ok (failures h d)
unfolding collect
collect-failures t h [] fit = refl
collect-failures t h ((n, p) ∷ d) fit = ground (arith, collect-failures t h d fit.1)

abbrev pub outcome : Text → List Error → Result (Unit {0})
outcome prefix [] = ok tt
outcome prefix (e ∷ es) = err (message (prefix ++ error_lines (e ∷ es)))

message_text : (s : Text) → error_text (message s) ≡ s
unfolding error_text
message_text s = refl

report-outcome : (prefix : Text) (es : List Error) → report prefix es ≡ outcome prefix es
report-outcome prefix [] = refl
report-outcome prefix (e ∷ es) = rw (wrap_array_errs_cons e es) (
    ap (λ (s : Text). let r : Result (Unit {0}) = err (message (prefix ++ s)) in r)
      (message_text (error_lines (e ∷ es))))

-- The body that most hooks have (all but `HandleConnAccept` and `RegisterService`) reports no error exactly
-- when none of them does, and otherwise one error with all their texts in the order of the visit,
-- provided that every plugin of the type implements the type's interface.
pub run_hook-outcome :
    (t : PluginType) (h : Hook) (prefix : Text) (pm : Manager)
    → Fit t (entries (type_map pm t))
    → run_hook t h prefix pm ≡ outcome prefix (failures h (entries (type_map pm t)))
unfolding run_hook
run_hook-outcome t h prefix pm fit =
    rw (collect-failures t h (entries (type_map pm t)) fit)
      (report-outcome prefix (failures h (entries (type_map pm t))))

-- A flag changes no answer.
collect-insert :
    (t : PluginType) (h : Hook) (flag : Bool) (k : Text) (q : Plugin) (d : Dict Text Plugin)
    → lookup k d ≡ some q
    → collect t h (insert k (set_disable flag q) d) ≡ collect t h d
unfolding collect
collect-insert t h flag k q [] e = cc
collect-insert t h flag k q ((n, p) ∷ d) e = elim (Bool-cases (same k n)) [
  | inl hit ↦ let one : p ≡ q = ground arith in rw (hit, one) refl
  | inr miss ↦ rw miss (rw (collect-insert t h flag k q d (ground arith)) refl)
]

collect_at :
    (t u : PluginType) (h : Hook) (flag : Bool) (pm : Manager) (k : Text) (q : Plugin)
    (d : Dict Text Plugin)
    → lookup u pm.plugins ≡ some (some d)
    → lookup k d ≡ some q
    → collect t h (entries (type_map (set_type_map pm u (insert k (set_disable flag q) d)) t))
      ≡ collect t h (entries (type_map pm t))
collect_at t u h flag pm k q d at_type at_name = elim (Bool-cases (t == u)) [
  | inl hit ↦
      let one : t ≡ u = ground arith in
      let at_t : lookup t pm.plugins ≡ some (some d) = rw one at_type in
      rw (lookup-insert t u (some (insert k (set_disable flag q) d)) pm.plugins, hit, at_t)
        (collect-insert t h flag k q d at_name)
  | inr miss ↦ rw (lookup-insert t u (some (insert k (set_disable flag q) d)) pm.plugins, miss) refl
]

-- `Disable` and `Enable` change no hook of any type: a disabled plugin is called as before.
pub run_hook-set_disabled :
    (t : PluginType) (h : Hook) (prefix : Text) (flag : Bool) (pm : Manager) (p : Plugin)
    → run_hook t h prefix (set_disabled flag pm p).0 ≡ run_hook t h prefix pm
unfolding run_hook set_disabled
run_hook-set_disabled t h prefix flag pm p = by_type (type_map pm p.type) refl
  where
    by_name :
        (d : Dict Text Plugin) (o : Option Plugin)
        → type_map pm p.type ≡ some (some d)
        → lookup p.name d ≡ o
        → run_hook t h prefix (set_disabled flag pm p).0 ≡ run_hook t h prefix pm
    by_name d none e f = rw (e, set_disabled) (rw f refl)
    by_name d (some q) e f =
        rw (e, set_disabled)
          (rw f (ap (report_all prefix) (collect_at t p.type h flag pm p.name q d e f)))

    by_type :
        (o : Option (Option (Dict Text Plugin)))
        → type_map pm p.type ≡ o
        → run_hook t h prefix (set_disabled flag pm p).0 ≡ run_hook t h prefix pm
    by_type none e = rw (e, set_disabled) refl
    by_type (some none) e = rw (e, set_disabled) refl
    by_type (some (some d)) e = by_name d (lookup p.name d) e refl
