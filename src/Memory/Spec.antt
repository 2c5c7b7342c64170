-- ===== src/Memory/Spec.antt =====
-- What a TTL cache promises, with no map of pointers, no heap and no locks: a function from keys to
-- entries with a deadline. Its operations are the reference that cache/memory.go is held to.
pub mod Answers
use cachefx.Prelude.{
  ℕ, String, Bool, true, not, ◌&&◌, Option, none, some, List, [], ◌∷◌, ◌==◌, if◌then◌else◌,
}
use cachefx.Errors.{sentinel, err_key_not_found, err_key_exists, Result, ok, err, Status, done}
use cachefx.Time.{Time, Duration, Clock, is_zero, after, now, tick}
use cachefx.Options.{SetOption, apply, GetOptions, GetOption, no_get_options, and_delete, apply_get}
use cachefx.Memory.{Bytes, MemoryItem, default_options, refresh}

pub record Store : Type 0 where
  pub entries : String → Option MemoryItem
  pub ttl : Duration
  pub clock : Clock

abbrev pub fresh : Duration → Clock → Store
fresh ttl c = record { entries = λ _. none; ttl = ttl; clock = c }

-- The deadline of an entry lies before `t`; an entry with the zero deadline has none.
unfoldable pub has_passed : MemoryItem → Time → Bool
has_passed i t = not (is_zero i.valid_until) && after t i.valid_until

abbrev pub write : String → Option MemoryItem → Store → Store
write k o s = record s { entries = λ j. if k == j then o else s.entries j }

abbrev pub ticked : Store → Store
ticked s = record s { clock = tick s.clock }

-- Set: the entry gets the options' deadline.
unfoldable pub set : String → Bytes → List SetOption → Store → Status × Store
set k value opts s =
    let (base, c) = default_options s.ttl s.clock in
    let (o, c') = apply opts base c in
    (
      done,
      write k (some (record { value = value; valid_until = o.valid_until }))
          (record s { clock = c' }),
    )

-- SetOrFail: refused exactly while an entry is there that has not passed its deadline.
unfoldable pub set_or_fail : String → Bytes → List SetOption → Store → Status × Store
unfolding set
set_or_fail k value opts s = elim (s.entries k) [
  | none ↦ set k value opts s
  | some i ↦
      if has_passed i (now s.clock)
      then set k value opts (ticked s)
      else (err (sentinel err_key_exists), ticked s)
]

-- The answer of a Get that has come upon the entry `i`, by one more reading of the clock.
unfoldable pub settle : String → MemoryItem → Store → Result Bytes × Store
settle k i s =
    if has_passed i (now s.clock)
    then (err (sentinel err_key_not_found), write k none (ticked s))
    else (ok i.value, ticked s)

-- What the options do to an entry that is still live.
unfoldable pub amend : GetOptions → String → MemoryItem → Time → Store → Result Bytes × Store
unfolding settle
amend o k i t s =
    if o.delete
    then settle k i (write k none s)
    else let j = record i { valid_until = refresh o s.ttl t i.valid_until } in
      settle k j (write k (some j) s)

unfoldable pub get_with : GetOptions → String → Store → Result Bytes × Store
unfolding amend
get_with o k s = elim (s.entries k) [
  | none ↦ (err (sentinel err_key_not_found), ticked s)
  | some i ↦
      if has_passed i (now s.clock)
      then settle k i (ticked s)
      else amend o k i (now s.clock) (ticked s)
]

unfoldable pub get : String → List GetOption → Store → Result Bytes × Store
unfolding get_with
get k [] s = elim (s.entries k) [
  | none ↦ (err (sentinel err_key_not_found), s)
  | some i ↦ settle k i s
]
get k (opt ∷ opts) s = get_with (apply_get (opt ∷ opts) no_get_options) k s

unfoldable pub get_and_delete : String → Store → Result Bytes × Store
unfolding get
get_and_delete k s = get k (and_delete ∷ []) s

unfoldable pub delete : String → Store → Status × Store
delete k s = (done, write k none s)

-- An entry at time `t`: none, once its deadline has passed.
abbrev pub live_at : Time → Option MemoryItem → Option MemoryItem
live_at t none = none
live_at t (some i) = if has_passed i t then none else some i

unfoldable pub cleanup : Store → Status × Store
cleanup s = (done, record (ticked s) { entries = λ k. live_at (now s.clock) (s.entries k) })

abbrev pub value_of : Option MemoryItem → Option Bytes
value_of none = none
value_of (some i) = some i.value

-- Drain: the map that it returns, as a function, and the empty store.
unfoldable pub drain : Store → (String → Option Bytes) × Store
drain s =
    (λ k. value_of (live_at (now s.clock) (s.entries k)), record (ticked s) { entries = λ _. none })
