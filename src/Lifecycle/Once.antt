-- ===== src/Lifecycle/Once.antt =====
-- Whole histories of a lifecycle controller.
use mathlib.Core.List.{append-nil, append_assoc}
use byterpc.Common.{
  ℕ, ◌≡◌, ◌∙◌, refl, ap, sym, Bool, true, false, List, [], ◌∷◌, ◌++◌, map, inl, inr, Bool-cases,
  arith,
}
use byterpc.Lifecycle.{
  Lifecycle, Ran, started, stopped, new_lifecycle_ctl, start, stop, on_start, on_stop,
}

pub data Op : Type 0 where
  starts stops : Op
  on_starts on_stops : ℕ → Op

pub step : Lifecycle → Op → Lifecycle
step c starts = start c
step c stops = stop c
step c (on_starts l) = on_start c l
step c (on_stops l) = on_stop c l

pub run : Lifecycle → List Op → Lifecycle
run c [] = c
run c (o ∷ os) = run (step c o) os

-- What a history is to log, from the callbacks registered so far: each `Start` runs the start
-- callbacks registered before it, and the first `Stop` the stop callbacks registered before it.
abbrev pub expected : Bool → List ℕ → List ℕ → List Op → List Ran
expected d ss ts [] = []
expected d ss ts (starts ∷ os) = map started ss ++ expected d ss ts os
expected true ss ts (stops ∷ os) = expected true ss ts os
expected false ss ts (stops ∷ os) = map stopped ts ++ expected true ss ts os
expected d ss ts (on_starts l ∷ os) = expected d (ss ++ (l ∷ [])) ts os
expected d ss ts (on_stops l ∷ os) = expected d ss (ts ++ (l ∷ [])) os

expected_again :
    (d : Bool) (ss ts : List ℕ) (os : List Op)
    → d ≡ true
    → expected d ss ts (stops ∷ os) ≡ expected d ss ts os
expected_again d ss ts os h = rw h refl

expected_once :
    (d : Bool) (ss ts : List ℕ) (os : List Op)
    → d ≡ false
    → expected d ss ts (stops ∷ os) ≡ map stopped ts ++ expected true ss ts os
expected_once d ss ts os h = rw h refl

stop_again : (c : Lifecycle) → c.done_closed ≡ true → stop c ≡ c
unfolding stop
stop_again c h = ground arith

stop_once :
    (c : Lifecycle)
    → c.done_closed ≡ false
    → stop c ≡ record c { log = c.log ++ map stopped c.on_stop_callbacks; done_closed = true }
unfolding stop
stop_once c h = ground arith

log-run_from :
    (c : Lifecycle) (os : List Op)
    → (run c os).log ≡ c.log ++ expected c.done_closed c.on_start_callbacks c.on_stop_callbacks os
unfolding run step start on_start on_stop
log-run_from c [] = sym (append-nil c.log)
log-run_from c (starts ∷ os) =
    log-run_from (start c) os ∙ append_assoc c.log (map started c.on_start_callbacks) _
log-run_from c (stops ∷ os) = elim (Bool-cases c.done_closed) [
  | inl again ↦
      ap (λ (d : Lifecycle). (run d os).log) (stop_again c again)
      ∙ log-run_from c os
      ∙ ap (◌++◌ c.log) (sym (expected_again _ _ _ os again))
  | inr once ↦
      ap (λ (d : Lifecycle). (run d os).log) (stop_once c once)
      ∙ log-run_from
          (record c { log = c.log ++ map stopped c.on_stop_callbacks; done_closed = true }) os
      ∙ append_assoc c.log (map stopped c.on_stop_callbacks) _
      ∙ ap (◌++◌ c.log) (sym (expected_once _ _ _ os once))
]
log-run_from c (on_starts l ∷ os) = log-run_from (on_start c l) os
log-run_from c (on_stops l ∷ os) = log-run_from (on_stop c l) os

-- After any history of a new controller the log is what the history is to log: the stop callbacks
-- that were registered before the first `Stop` run once, in the order of their registration, and no
-- later `Stop` runs any.
pub log-run : (os : List Op) → (run new_lifecycle_ctl os).log ≡ expected false [] [] os
log-run os = log-run_from new_lifecycle_ctl os
