-- ===== src/Tests/Lock.antt =====
-- cache/redis.go: two goroutines that call SetOrFail with one key.
use cachefx.Prelude.{ℕ, ◌≡◌, refl, [], ◌∷◌, some, arith}
use cachefx.Dict.{lookup}
use cachefx.Redis.Documented.{Field, found, add_field}
use cachefx.Redis.Lock.{System, Steps, here, next, pick, try, start}
use cachefx.Redis.Lock.Exclusive
use cachefx.Tests.Redis.{latitude, host, cache, whole_seconds}
use cachefx.Time.{IsMonotonic}

host-IsMonotonic : IsMonotonic host.remote.clock
host-IsMonotonic = record { mono = λ i j h. omega arith }

-- The first has set the field, and the second has been refused.
abbrev both_tried : (s : System) × Steps whole_seconds latitude cache "n" (start host) s
both_tried = (_, next (next here (pick 0 (try (1 ∷ []) []))) (pick 1 (try (2 ∷ []) [])))

abbrev winner : ℕ
winner = 0

set_or_fail_excludes_example :
    (winner ≡ winner) × ((x : Field) × (found both_tried.0.host.remote "app:cache" "n" ≡ some x))
unfolding add_field lookup
set_or_fail_excludes_example =
    Exclusive.set_or_fail_excludes whole_seconds latitude cache "n" winner winner host-IsMonotonic
      both_tried.1 refl refl
