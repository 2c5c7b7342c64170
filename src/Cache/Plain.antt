-- ===== src/Cache/Plain.antt =====
-- A cache of cache/cache.go that is used with no option and has no default TTL: what it then promises is a
-- map from keys to values.
use cachefx.Prelude.{
  Bytes, String, ◌≡◌, refl, Option, none, some, List, [], ◌∷◌, ◌==◌, if◌then◌else◌,
}
use mathlib.Core.Path.{ap₂}
use cachefx.Errors.{Result, ok, err, Status, done, sentinel, err_key_not_found, err_key_exists}
use cachefx.Dict.{Dict, lookup}
use cachefx.Cache.{Cache}

-- the calls with no option
pub data Call : Type 0 where
  set : String → Bytes → Call
  set_or_fail : String → Bytes → Call
  get : String → Call
  get_and_delete : String → Call
  delete : String → Call
  cleanup : Call
  drain : Call

-- The map that a Drain returns is read as a function.
pub data Answer : Type 0 where
  status : Status → Answer
  bytes : Result Bytes → Answer
  contents : Result (String → Option Bytes) → Answer

abbrev pub Values : Type 0
Values = String → Option Bytes

abbrev pub shown_items : Result (Dict Bytes) → Result Values
shown_items (ok items) = ok (λ k. lookup k items)
shown_items (err e) = err e

module _ {S : Type 0} where
  abbrev pub status_of : Status × S → Answer × S
  status_of (r, s) = (status r, s)

  abbrev pub bytes_of : Result Bytes × S → Answer × S
  bytes_of (r, s) = (bytes r, s)

  abbrev pub contents_of : Result (Dict Bytes) × S → Answer × S
  contents_of (r, s) = (contents (shown_items r), s)

-- one call of a cache
unfoldable pub play : {S : Type 0} → Cache S → Call → S → Answer × S
play c (set k v) s = status_of (c.set k v [] s)
play c (set_or_fail k v) s = status_of (c.set_or_fail k v [] s)
play c (get k) s = bytes_of (c.get k [] s)
play c (get_and_delete k) s = bytes_of (c.get_and_delete k s)
play c (delete k) s = status_of (c.delete k s)
play c cleanup s = status_of (c.cleanup s)
play c drain s = contents_of (c.drain s)

abbrev pub write : String → Option Bytes → Values → Values
write k o m j = if k == j then o else m j

abbrev pub value_or_missing : Option Bytes → Result Bytes
value_or_missing none = err (sentinel err_key_not_found)
value_or_missing (some v) = ok v

abbrev pub added : String → Bytes → Values → Option Bytes → Status × Values
added k v m none = (done, write k (some v) m)
added k v m (some _) = (err (sentinel err_key_exists), m)

-- The same call of a map.
unfoldable pub serve : Call → Values → Answer × Values
serve (set k v) m = (status done, write k (some v) m)
serve (set_or_fail k v) m = status_of (added k v m (m k))
serve (get k) m = (bytes (value_or_missing (m k)), m)
serve (get_and_delete k) m = (bytes (value_or_missing (m k)), write k none m)
serve (delete k) m = (status done, write k none m)
serve cleanup m = (status done, m)
serve drain m = (contents (ok m), λ _. none)

-- The answers to a list of calls, and the state behind them.
unfoldable pub run : {S : Type 0} → (Call → S → Answer × S) → List Call → S → List Answer × S
run step [] s = ([], s)
run step (c ∷ cs) s = let (a, s1) = step c s in let (rest, s2) = run step cs s1 in (a ∷ rest, s2)

module _ {S : Type 0} (Shows : S → Values → Type 0) where
  -- The same answer, and behind it a state that shows the same map.
  pub record Step {A : Type 0} (x : A × S) (y : A × Values) : Type 0 where
    pub answer : x.0 ≡ y.0
    pub shown : Shows x.1 y.1

  -- Every call of the cache is the call of the map that its state shows.
  pub record IsPlain (c : Cache S) : Type 0 where
    pub step : (call : Call) {s : S} {m : Values} → Shows s m → Step (play c call s) (serve call m)

  -- And so is every list of calls.
  pub run-Step :
      (c : Cache S) (calls : List Call) {s : S} {m : Values}
      → IsPlain c
      → Shows s m
      → Step (run (play c) calls s) (run serve calls m)
  unfolding run
  run-Step c [] plain shown = record { answer = refl; shown = shown }
  run-Step c (call ∷ calls) plain shown =
      let first = plain.step call shown in
      let rest = run-Step c calls plain first.shown in
      record { answer = ap₂ ◌∷◌ first.answer rest.answer; shown = rest.shown }
