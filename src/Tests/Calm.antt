-- ===== src/Tests/Calm.antt =====
-- cache/memory.go: a Get that meets an expired entry, and a Cleanup, around an entry that is live.
use cachefx.Prelude.{◌≡◌, refl, [], ◌∷◌, pos, some, arith, false}
use cachefx.Options.{with_ttl}
use cachefx.Time.{IsMonotonic}
use cachefx.Memory
use cachefx.Memory.{World, MemoryItem}
use cachefx.Memory.Reads
use cachefx.Memory.Valid.{IsValid, entry}
use cachefx.Memory.Race.{System, start, read, expired, remove, begin_sweep, cleanup}
use cachefx.Memory.Race.Calm.{CalmSteps, calm_here, calm_next}
use cachefx.Memory.Race.Survival
use cachefx.Tests.Data.{program, late, late-IsValid}

-- "a" has expired, and "b" has not.
abbrev both : World
both = (Memory.set "b" (8 ∷ []) (with_ttl (pos 50) ∷ []) late).1

abbrev kept : MemoryItem
kept = record { value = 8 ∷ []; valid_until = pos 153 }

both-IsValid : IsValid both
both-IsValid = (Reads.set_lem "b" (8 ∷ []) (with_ttl (pos 50) ∷ []) late-IsValid).2

both-IsMonotonic : IsMonotonic both.clock
unfolding program
both-IsMonotonic = record { mono = λ i j h. omega arith }

-- Caller 0 finds "a" expired, caller 1 begins a Cleanup, 0 removes "a", and 1 sweeps.
abbrev swept : (s : System) × CalmSteps (start both) s
unfolding program
swept = (
  _,
  calm_next 1
      (calm_next 0
        (calm_next 1
          (calm_next 0 (calm_next 0 calm_here (read "a") refl) (expired false "a" 0 refl) refl)
          (begin_sweep false false) refl)
        (remove "a" 0) refl)
      (cleanup (pos 105)) refl,
)

live_survives_example : entry swept.0.world "b" ≡ some kept
unfolding program
live_survives_example =
    Survival.live_survives "b" kept both-IsValid both-IsMonotonic swept.1 refl refl
