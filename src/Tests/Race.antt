-- ===== src/Tests/Race.antt =====
-- Interleavings of callers of cache/memory.go at small inputs.
use cachefx.Prelude.{◌≡◌, refl, false, some, [], ◌∷◌, pos, ℕ, zero, suc, ◌≤◌, ◌*◌, ◌⊎◌, arith}
use cachefx.Errors.{ok, err, sentinel, err_key_not_found}
use cachefx.Time.{tick, now}
use cachefx.Memory
use cachefx.Memory.{MemoryItem, evict, write_deadline}
use cachefx.Memory.Race.{
  System, Step, Steps, start, moved, read, expired, remove, pick, here, next, idle, fetched, stale,
  answered,
}
use cachefx.Memory.Race.Safety
use cachefx.Memory.Race.Refreshed
use cachefx.Memory.Race.Refreshed.{IsRefreshed, IsLost}
use cachefx.Memory.Race.Progress
use cachefx.Memory.Race.Ending.{Run, begin, more, resume, Continue, IsQuiet}
use cachefx.Tests.Data.{program, one, late, item, one-IsValid, late-IsValid}

-- Caller 0 has read the item of "a" and found it expired.
abbrev judged : System
judged = record {
  world = record late { clock = tick late.clock };
  locked = false;
  pc = moved (moved (λ _. idle) 0 (fetched "a" (some 0))) 0 (stale "a" 0);
}

to_judged : Steps (start late) judged
unfolding program
to_judged = next (next here (pick 0 (read "a"))) (pick 0 (expired false "a" 0 refl))

removal_spares_set_example :
    evict "a" 0 (Memory.set "a" (9 ∷ []) [] judged.world).1
    ≡ (Memory.set "a" (9 ∷ []) [] judged.world).1
removal_spares_set_example =
    Safety.removal_spares_set 0 0 "a" (9 ∷ []) [] (λ _. idle) late-IsValid to_judged refl here

refreshed_is_removed_example :
    (s : System) × Steps (start one) s
    × IsRefreshed "a" 0 item (pos 50) (now one.clock) s
    × ((t : System) × Step s t
        × IsLost "a" 0 item (pos 50) s t
        × ((u : System) × Step t u × (u.pc 1 ≡ answered (ok item.value))))
unfolding program
refreshed_is_removed_example =
    Refreshed.refreshed_is_removed "a" 0 item (pos 50) one-IsValid refl refl refl refl refl

-- Caller 0 goes on with the removal.
abbrev removed : System
removed = record {
  world = evict "a" 0 judged.world;
  locked = false;
  pc = moved judged.pc 0 (answered (err (sentinel err_key_not_found)));
}

to_removed : Run 1 judged 1 removed
to_removed = more begin (resume 0 (omega arith) refl (remove "a" 0))

judged-IsQuiet : IsQuiet 1 judged
judged-IsQuiet zero above = absurd (omega arith)
judged-IsQuiet (suc i) above = ground arith

calls_end_example :
    (1 ≤ 4 * 1) × (((i : ℕ) → removed.pc i ≡ idle) ⊎ ((u : System) × Continue 1 removed u))
calls_end_example = Progress.calls_end 1 to_judged judged-IsQuiet to_removed
