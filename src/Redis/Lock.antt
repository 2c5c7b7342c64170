-- ===== src/Redis/Lock.antt =====
-- `SetOrFail` of cache/redis.go on one key from many goroutines, over a client that behaves as documented.
-- Its two commands are two steps, between which the others go on.
pub mod Holding
pub mod Exclusive
pub mod Whole
use cachefx.Prelude.{
  ℕ, ◌≤◌, Bytes, String, ◌≡◌, Bool, true, false, ◌||◌, List, eqb, if◌then◌else◌, ℤ, ltb_ℤ,
}
use cachefx.Errors.{Result, ok, err, Status}
use cachefx.Options.{SetOption}
use cachefx.Redis
use cachefx.Redis.{RedisCache, Host, added, on_server}
use cachefx.Redis.Documented.{Remote, Latitude, documented_client, millis}
use cachefx.Redis.Fields.{field}
use cachefx.Redis.Methods.{documented}
use cachefx.Redis.Storing.{deadline}
use cachefx.Time.{Time, Duration, is_zero, now, unix}

-- Where a goroutine stands.
pub data Pc : Type 0 where
  idle : Pc
  taken : List SetOption → Pc  -- the `HSETNX` has set the field
  holding : Time → Pc  -- no error, and the deadline of the options
  failed : Pc

-- behind the `HSETNX`
abbrev pub tried : List SetOption → Result Bool → Pc
tried opts (ok true) = taken opts
tried opts (ok false) = failed
tried opts (err e) = failed

-- behind `SetOrFail`
abbrev pub finished : Time → Status → Pc
finished t (ok _) = holding t
finished t (err e) = failed

-- The goroutine has the key at a time of the server, by its own deadline.
abbrev pub holds : Pc → ℤ → Bool
holds idle u = false
holds (taken opts) u = true
holds (holding t) u = is_zero t || ltb_ℤ u (millis (unix t))
holds failed u = false

-- The server's clock goes on, and a field stays as it is.
pub record Leaves (key k : String) (s s' : Remote) : Type 0 where
  pub same_field : field key s' k ≡ field key s k
  pub same_clock : s'.clock.at ≡ s.clock.at
  pub later : s.clock.reads ≤ s'.clock.reads

pub record System : Type 0 where
  pub host : Host Remote
  pub pc : ℕ → Pc

abbrev pub moved : (ℕ → Pc) → ℕ → Pc → ℕ → Pc
moved f i p j = if eqb i j then p else f j

module _ (seconds : Duration → ℤ) (l : Latitude) (r : RedisCache Remote) (k : String) where
  -- the `HSETNX` of `SetOrFail`
  abbrev pub first_command : Bytes → Host Remote → Result Bool × Host Remote
  first_command value = on_server ((documented l r).client.h_set_nx r.key k value)

  -- a step of one goroutine
  pub data Move (h : Host Remote) : Pc → Host Remote → Pc → Type 0 where
    try :
        (value : Bytes) (opts : List SetOption)
        → Move h idle (first_command value h).1 (tried opts (first_command value h).0)
    expire :
        (opts : List SetOption)
        → Move h (taken opts) (added seconds (documented l r) k opts true h).1 (
            finished (deadline r.ttl opts h.clock) (added seconds (documented l r) k opts true h).0)
    -- any other calls, but for those that write the key
    elsewhere : (p : Pc) (h' : Host Remote) → Leaves r.key k h.remote h'.remote → Move h p h' p

  pub data Step (s : System) : System → Type 0 where
    pick :
        (i : ℕ) {h : Host Remote} {p : Pc}
        → Move s.host (s.pc i) h p
        → Step s (record { host = h; pc = moved s.pc i p })

  pub data Steps (s : System) : System → Type 0 where
    here : Steps s s
    next : {t u : System} → Steps s t → Step t u → Steps s u

abbrev pub start : Host Remote → System
start h = record { host = h; pc = λ _. idle }
