-- ===== src/Lifecycle/Tests.antt =====
-- A controller that is stopped twice.
use byterpc.Common.{◌≡◌, refl, false, [], ◌∷◌, List}
use byterpc.Lifecycle.{started, stopped, new_lifecycle_ctl}
use byterpc.Lifecycle.Once.{Op, starts, stops, on_starts, on_stops, run, expected, log-run}

abbrev history : List Op
history = on_starts 1 ∷ on_stops 2 ∷ starts ∷ on_stops 3 ∷ stops ∷ on_stops 4 ∷ stops ∷ []

expected-history : expected false [] [] history ≡ started 1 ∷ stopped 2 ∷ stopped 3 ∷ []
expected-history = refl

log-run_example : (run new_lifecycle_ctl history).log ≡ expected false [] [] history
log-run_example = log-run history
