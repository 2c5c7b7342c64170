-- ===== src/Sweeper.antt =====
-- sweeper.go: the goroutine that calls `CleanupAll` at every tick until its context is cancelled. What
-- the `select` of its loop receives is a list of events, with what the other goroutines do between
-- them; a sweep runs as one step. The intervals of the ticker are not modelled.
pub mod Running
use cachefx.Prelude.{List, [], ◌∷◌, Option, none, some, if◌then◌else◌}
use cachefx.Errors.{
  Error, Result, ok, err, Status, done, wrap, sentinel, err_invalid_factory_config,
}
use cachefx.Time.{Duration, is_positive}
use cachefx.Factory
use cachefx.Factory.{Factory, Program, Config}

-- `Sweeper`
pub record Sweeper (S : Type 0) : Type 0 where
  pub factory : Factory S
  pub interval : Duration

pub data Event (S : Type 0) : Type 0 where
  ticked : Event S
  cancelled : Event S
  meanwhile : (Program S → Program S) → Event S

-- the lines of the logger
pub data LogLine : Type 0 where
  failed : Error → LogLine
  stopped : LogLine

-- What the loop has returned, if it has, what it has logged, and the program it leaves.
pub record Run (S : Type 0) : Type 0 where
  pub returned : Option Status
  pub log : List LogLine
  pub program : Program S

-- the line for a failed sweep
abbrev pub log_sweep : Status → List LogLine → List LogLine
log_sweep (ok _) log = log
log_sweep (err e) log = failed e ∷ log

module _ {S : Type 0} where
  -- `NewSweeper`
  unfoldable pub new_sweeper : Config → Factory S → Result (Sweeper S)
  new_sweeper config factory =
      if is_positive config.sweep_interval
      then ok (record { factory = factory; interval = config.sweep_interval })
      else err
          (wrap "%w: sweep interval must be positive, got %s" (sentinel err_invalid_factory_config))

  -- `Sweeper.Run`
  unfoldable pub run : Sweeper S → List (Event S) → Program S → Run S
  run s [] p = record { returned = none; log = []; program = p }
  run s (ticked ∷ events) p =
      let (r, q) = Factory.cleanup_all s.factory p in
      let rest = run s events q in record rest { log = log_sweep r rest.log }
  run s (cancelled ∷ events) p = record { returned = some done; log = stopped ∷ []; program = p }
  run s (meanwhile f ∷ events) p = run s events (f p)
