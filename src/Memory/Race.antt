-- ===== src/Memory/Race.antt =====
-- cache/memory.go under concurrent callers. What a goroutine does while it holds the mutex is one
-- step, but for `Get` with options, whose critical section is two: its reading of the clock, and what
-- follows. Between the critical sections, and beside one of another goroutine, `getItem` reads the
-- clock and the item with no lock. A reader's `RLock` waits for a writer as `Lock` does.
pub mod Safety
pub mod Refreshed
pub mod Mutex
pub mod Ending
pub mod Progress
pub mod Calm
pub mod Survival
use cachefx.Prelude.{
  ℕ, ◌<◌, String, ◌≡◌, Bool, true, false, Option, none, some, List, [], ◌∷◌, eqb, if◌then◌else◌,
}
use cachefx.Errors.{sentinel, err_key_not_found, Result, err}
use cachefx.Dict.{lookup}
use cachefx.Options.{SetOption, GetOption, GetOptions, apply_get, no_get_options}
use cachefx.Time.{Time, now, tick}
use cachefx.Memory
use cachefx.Memory.{Bytes, World, is_expired, deref, examine, evict, sweep}
use cachefx.Memory.Valid.{at_clock}

-- Where a goroutine stands, with the local variables that are live there.
pub data Pc : Type 0 where
  idle : Pc
  examining : GetOptions → String → Time → Pc  -- `Get` with options, the mutex held, clock read
  fetched : String → Option ℕ → Pc  -- `getItem`, behind the getter
  stale : String → ℕ → Pc  -- `getItem`, before the `Lock` of the removal
  answered : Result Bytes → Pc  -- the result of a `Get`
  sweeping : Bool → Time → Pc  -- `cleanup`, before its `Lock`; true for `Drain`

-- A step of one goroutine: the world, whether a `Get` with options holds the mutex, and its place.
pub data Move (w : World) : Bool → Pc → World → Bool → Pc → Type 0 where
  set :
      (k : String) (value : Bytes) (opts : List SetOption)
      → Move w false idle (Memory.set k value opts w).1 false idle
  set_or_fail :
      (k : String) (value : Bytes) (opts : List SetOption)
      → Move w false idle (Memory.set_or_fail k value opts w).1 false idle
  delete : (k : String) → Move w false idle (Memory.delete k w).1 false idle
  read : (k : String) → Move w false idle w false (fetched k (lookup k w.items))
  lock :
      (k : String) (opt : GetOption) (opts : List GetOption)
      → Move w false idle
          (at_clock (tick w.clock) w)
          true
          (examining (apply_get (opt ∷ opts) no_get_options) k (now w.clock))
  unlock :
      (o : GetOptions) (k : String) (t : Time)
      → Move w true (examining o k t) (examine o k t w).1 false (fetched k (examine o k t w).0)
  miss :
      (l : Bool) (k : String)
      → Move w l (fetched k none) w l (answered (err (sentinel err_key_not_found)))
  hit :
      (l : Bool) (k : String) (p : ℕ)
      → is_expired (w.heap p) (now w.clock) ≡ false
      → Move w l (fetched k (some p)) (at_clock (tick w.clock) w) l (answered (deref w.heap p))
  expired :
      (l : Bool) (k : String) (p : ℕ)
      → is_expired (w.heap p) (now w.clock) ≡ true
      → Move w l (fetched k (some p)) (at_clock (tick w.clock) w) l (stale k p)
  remove :
      (k : String) (p : ℕ)
      → Move w false (stale k p) (evict k p w) false (answered (err (sentinel err_key_not_found)))
  begin_sweep :
      (l b : Bool) → Move w l idle (at_clock (tick w.clock) w) l (sweeping b (now w.clock))
  cleanup : (t : Time) → Move w false (sweeping false t) (sweep t w) false idle
  drain : (t : Time) → Move w false (sweeping true t) (record (sweep t w) { items = [] }) false idle
  return : (l : Bool) (r : Result Bytes) → Move w l (answered r) w l idle

pub record System : Type 0 where
  pub world : World
  pub locked : Bool
  pub pc : ℕ → Pc

abbrev pub moved : (ℕ → Pc) → ℕ → Pc → ℕ → Pc
moved f i p j = if eqb i j then p else f j

-- Any goroutine may take the next step.
pub data Step (s : System) : System → Type 0 where
  pick :
      (i : ℕ) {w : World} {l : Bool} {p : Pc}
      → Move s.world s.locked (s.pc i) w l p
      → Step s (record { world = w; locked = l; pc = moved s.pc i p })

pub data Steps (s : System) : System → Type 0 where
  here : Steps s s
  next : {t u : System} → Steps s t → Step t u → Steps s u

abbrev pub start : World → System
start w = record { world = w; locked = false; pc = λ _. idle }
