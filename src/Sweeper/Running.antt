-- ===== src/Sweeper/Running.antt =====
-- sweeper.go: when the loop of `Run` ends, and what a tick does.
use cachefx.Prelude.{
  ℕ, ◌+◌, arith, ◌≡◌, refl, ap, ◌∙◌, true, false, List, [], ◌∷◌, ◌++◌, none, some, if◌then◌else◌,
  Bool-cases, inl, inr,
}
use cachefx.Errors.{Result, ok, err, Status, done, is, succeeds, err_invalid_factory_config}
use cachefx.Time.{is_positive}
use cachefx.Factory
use cachefx.Factory.{Factory, Program, Config}
use cachefx.Factory.Sweep.{cleaned, all_succeed, cleanup_all_lem}
use cachefx.Sweeper.{
  Sweeper, Event, ticked, cancelled, meanwhile, LogLine, failed, stopped, Run, log_sweep,
  new_sweeper, run,
}

-- No event is the cancellation.
abbrev pub NoCancel : {S : Type 0} → List (Event S) → Type 0
NoCancel [] = Unit
NoCancel (ticked ∷ events) = NoCancel events
NoCancel (cancelled ∷ events) = ⊥
NoCancel (meanwhile f ∷ events) = NoCancel events

-- What NewSweeper answers.
abbrev pub NewAnswers : {S : Type 0} → Config → Factory S → Result (Sweeper S) → Type 0
NewAnswers config f (ok s) =
    (is_positive config.sweep_interval ≡ true)
    × (s ≡ record { factory = f; interval = config.sweep_interval })
NewAnswers config f (err e) =
    (is_positive config.sweep_interval ≡ false) × (is err_invalid_factory_config e ≡ true)

-- NewSweeper succeeds exactly for a positive interval, with a sweeper of this factory and interval;
-- the error of any other interval wraps ErrInvalidFactoryConfig.
pub new_sweeper_lem :
    {S : Type 0} (config : Config) (f : Factory S) → NewAnswers config f (new_sweeper config f)
unfolding new_sweeper is
new_sweeper_lem config f = elim (Bool-cases (is_positive config.sweep_interval)) [
  | inl positive ↦ rw (positive, new_sweeper) (positive, refl)
  | inr other ↦ rw (other, new_sweeper) (other, refl)
]

-- How many sweeps a log says to have failed.
abbrev pub failures : List LogLine → ℕ
failures [] = 0
failures (failed e ∷ log) = failures log + 1
failures (stopped ∷ log) = failures log

failures-++ : (xs ys : List LogLine) → failures (xs ++ ys) ≡ failures xs + failures ys
failures-++ [] ys = omega arith
failures-++ (failed e ∷ xs) ys = omega (arith, failures-++ xs ys)
failures-++ (stopped ∷ xs) ys = failures-++ xs ys

failures-log_sweep : (r : Status) → failures (log_sweep r []) ≡ (if succeeds r then 0 else 1)
failures-log_sweep (ok _) = refl
failures-log_sweep (err e) = refl

log_sweep-++ : (r : Status) (xs ys : List LogLine) → log_sweep r (xs ++ ys) ≡ log_sweep r xs ++ ys
log_sweep-++ (ok _) xs ys = refl
log_sweep-++ (err e) xs ys = refl

module _ {S : Type 0} (s : Sweeper S) where
  run-++ :
      (before after : List (Event S)) (p : Program S)
      → NoCancel before
      → run s (before ++ after) p ≡ (
          let rest = run s after (run s before p).program in
          record rest { log = (run s before p).log ++ rest.log })
  unfolding run
  run-++ [] after p h = refl
  run-++ (ticked ∷ before) after p h =
      let (r, q) = Factory.cleanup_all s.factory p in
      let rest = run s after (run s before q).program in
      ap (λ (x : Run S). record x { log = log_sweep r x.log }) (run-++ before after q h)
      ∙ ap (λ log. record rest { log = log }) (log_sweep-++ r (run s before q).log rest.log)
  run-++ (cancelled ∷ before) after p h = elim h [ ]
  run-++ (meanwhile f ∷ before) after p h = run-++ before after (f p) h

  -- The loop of the sweeper goes on for as long as its context is not cancelled, whatever sweeps
  -- fail, and the cancellation ends it: it returns no error, the last line of its log says so, and no
  -- event behind it has an effect.
  pub run_ends :
      (before after : List (Event S)) (p : Program S)
      → NoCancel before
      → ((run s before p).returned ≡ none)
        × (run s (before ++ cancelled ∷ after) p ≡ record {
          returned = some done;
          log = (run s before p).log ++ stopped ∷ [];
          program = (run s before p).program;
        })
  unfolding run
  run_ends before after p h = (goes_on before p h, run-++ before (cancelled ∷ after) p h)
    where
      goes_on :
          (before : List (Event S)) (p : Program S)
          → NoCancel before
          → (run s before p).returned ≡ none
      goes_on [] p h = refl
      goes_on (ticked ∷ before) p h = goes_on before (Factory.cleanup_all s.factory p).1 h
      goes_on (cancelled ∷ before) p h = elim h [ ]
      goes_on (meanwhile f ∷ before) p h = goes_on before (f p) h

  -- As long as its context is not cancelled, a tick of the sweeper cleans, in order, every cache that
  -- its factory's tracker then holds, and logs one line exactly if one of them fails.
  pub run_tick :
      (before : List (Event S)) (p : Program S)
      → NoCancel before
      → (let q = (run s before p).program in
          let caches = q.trackers s.factory.tracker in
          ((run s (before ++ ticked ∷ []) p).program ≡ cleaned caches q)
          × (failures ((run s (before ++ ticked ∷ []) p).log)
              ≡ failures ((run s before p).log) + (if all_succeed caches q then 0 else 1)))
  unfolding run
  run_tick before p h =
      let q = (run s before p).program in
      let r = Factory.cleanup_all s.factory q in
      let (swept, answers, _) = cleanup_all_lem s.factory q in
      (
        ap (λ (x : Run S). x.program) (run-++ before (ticked ∷ []) p h) ∙ swept,
        ap (λ (x : Run S). failures x.log) (run-++ before (ticked ∷ []) p h)
            ∙ failures-++ (run s before p).log (log_sweep r.0 [])
            ∙ ap (◌+◌ (failures (run s before p).log))
                (failures-log_sweep r.0 ∙ ap (λ b. if b then 0 else 1) answers),
      )
