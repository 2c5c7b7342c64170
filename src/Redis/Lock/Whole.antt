-- ===== src/Redis/Lock/Whole.antt =====
-- `SetOrFail` of cache/redis.go as the steps of one goroutine.
use cachefx.Prelude.{ℕ, Bytes, String, ◌≡◌, refl, sym, subst, Bool, true, false, List, eqb_iff, ℤ}
use cachefx.Errors.{Result, ok, err, Status, wrap}
use cachefx.Options.{SetOption}
use cachefx.Redis
use cachefx.Redis.{RedisCache, Host, added, with_error}
use cachefx.Redis.Documented.{Remote, Latitude}
use cachefx.Redis.Lock.{
  Pc, idle, taken, tried, finished, System, moved, first_command, Move, try, expire, Step, pick,
  Steps, here, next,
}
use cachefx.Redis.Methods.{documented}
use cachefx.Redis.Storing.{deadline}
use cachefx.Time.{Duration}

moved_there : (f : ℕ → Pc) (i : ℕ) (p : Pc) → moved f i p i ≡ p
moved_there f i p = rw ((eqb_iff i i).1 refl) refl

module _ (seconds : Duration → ℤ) (l : Latitude) (r : RedisCache Remote) (k : String)
    (value : Bytes) (opts : List SetOption) where
  abbrev tried_with : System → ℕ → Result Bool × Host Remote → System
  tried_with s i y = record { host = y.1; pc = moved s.pc i (tried opts y.0) }

  try-Step :
      (s : System) (i : ℕ)
      → s.pc i ≡ idle
      → Step seconds l r k s (tried_with s i (first_command seconds l r k value s.host))
  try-Step s i at = pick i (
      subst
        (λ q.
          Move seconds l r k s.host q (first_command seconds l r k value s.host).1
            (tried opts (first_command seconds l r k value s.host).0))
        (sym at) (try value opts))

  -- SetOrFail behind the answer of its first command
  abbrev behind : Result Bool × Host Remote → Status × Host Remote
  behind y = elim (with_error (wrap "failed to set cache item: %w") y.0) [
    | ok val ↦ added seconds (documented l r) k opts val y.1
    | err e ↦ (err e, y.1)
  ]

  behind-Steps :
      (s : System) (i : ℕ) (y : Result Bool × Host Remote)
      → Step seconds l r k s (tried_with s i y)
      → (t : System) × Steps seconds l r k s t × (t.host ≡ (behind y).1)
  unfolding added
  behind-Steps s i (err e, h) step = (tried_with s i (err e, h), next here step, refl)
  behind-Steps s i (ok false, h) step = (tried_with s i (ok false, h), next here step, refl)
  behind-Steps s i (ok true, h) step =
      let s1 : System = tried_with s i (ok true, h) in
      let last = added seconds (documented l r) k opts true h in
      let p = finished (deadline r.ttl opts h.clock) last.0 in
      (
        record { host = last.1; pc = moved s1.pc i p },
        next (next here step) (
            pick i (
              subst (λ q. Move seconds l r k h q last.1 p) (sym (moved_there s.pc i (taken opts)))
                (expire opts))),
        refl,
      )

  -- A whole SetOrFail of a goroutine that is in no call is such a run: its one or two steps leave the
  -- clock and the server as the method does.
  pub set_or_fail-Steps :
      (s : System) (i : ℕ)
      → s.pc i ≡ idle
      → (t : System) × Steps seconds l r k s t
        × (t.host ≡ (Redis.set_or_fail seconds (documented l r) k value opts s.host).1)
  unfolding Redis.set_or_fail
  set_or_fail-Steps s i at =
      behind-Steps s i (first_command seconds l r k value s.host) (try-Step s i at)
