-- ===== src/Memory.antt =====
-- cache/memory.go: `MemoryCache`. The map holds pointers; `heap` is what they point to, and an
-- address that holds nothing behaves as a nil pointer. A method takes the world and returns its
-- results with the new one; each call of `time.Now` takes one reading of the clock. Values are
-- never written after they are stored, so a byte slice is a list of bytes. The code between `Lock`
-- and `Unlock` runs as one step here; `Memory/Race` takes the steps of a `Get` apart.
pub use cachefx.Prelude.{Bytes}
pub mod Valid
pub mod Spec
pub mod Refines
pub mod Gets
pub mod Sweep
pub mod Commands
pub mod Refinement
pub mod Reads
pub mod Exclusive
pub mod Removal
pub mod Refresh
pub mod Writes
pub mod Race
pub mod Expiry
pub mod Interface
pub mod Plain
use cachefx.Prelude.{
  ℕ, ◌+◌, String, Bool, true, not, ◌&&◌, Option, none, some, List, [], ◌∷◌, eqb, if◌then◌else◌,
}
use cachefx.Errors.{
  sentinel, nil_dereference, err_key_not_found, err_key_exists, Result, ok, err, ◌>>=◌, Status,
  done,
}
use cachefx.Time.{Time, Duration, Clock, zero_time, is_zero, after, add, is_positive, now, tick}
use cachefx.Dict.{Dict, lookup, insert, erase, retain}
use cachefx.Options.{
  Options, SetOption, apply, GetOptions, GetOption, no_get_options, and_delete, apply_get,
}

-- `memoryItem`
pub record MemoryItem : Type 0 where
  pub value : Bytes
  pub valid_until : Time

-- `MemoryCache` (`items`, `ttl`), with the heap of its items and the clock.
pub record World : Type 0 where
  pub items : Dict ℕ
  pub ttl : Duration
  pub heap : ℕ → Option MemoryItem
  pub next : ℕ
  pub clock : Clock

unfoldable pub new_memory : Duration → Clock → World
new_memory ttl c = record { items = []; ttl = ttl; heap = λ _. none; next = 0; clock = c }

unfoldable pub new_memory_item : Bytes → Options → MemoryItem
new_memory_item value opts = record { value = value; valid_until = opts.valid_until }

unfoldable pub is_expired : Option MemoryItem → Time → Bool
is_expired none t = true
is_expired (some i) t = not (is_zero i.valid_until) && after t i.valid_until

-- A write through a pointer, or an allocation.
abbrev pub update : (ℕ → Option MemoryItem) → ℕ → MemoryItem → ℕ → Option MemoryItem
update h p i q = if eqb p q then some i else h q

-- The options of `newItem` before the caller's: the default TTL, counted from now.
unfoldable pub default_options : Duration → Clock → Options × Clock
default_options ttl c =
    if is_positive ttl
    then (record { valid_until = add (now c) ttl }, tick c)
    else (record { valid_until = zero_time }, c)

-- `newItem`: the pointer to a fresh item.
unfoldable pub new_item : Bytes → List SetOption → World → ℕ × World
unfolding default_options new_memory_item
new_item value opts w =
    let (base, c) = default_options w.ttl w.clock in
    let (o, c') = apply opts base c in
    (
      w.next,
      record w {
        heap = update w.heap w.next (new_memory_item value o);
        next = w.next + 1;
        clock = c';
      },
    )

-- `m.items[key] = m.newItem(value, opts...)`
unfoldable pub store : String → Bytes → List SetOption → World → World
unfolding new_item
store key value opts w =
    let (p, w') = new_item value opts w in record w' { items = insert key p w'.items }

unfoldable pub set : String → Bytes → List SetOption → World → Status × World
unfolding store
set key value opts w = (done, store key value opts w)

unfoldable pub set_or_fail : String → Bytes → List SetOption → World → Status × World
unfolding store
set_or_fail key value opts w = elim (lookup key w.items) [
  | none ↦ (done, store key value opts w)
  | some p ↦
      let w1 = record w { clock = tick w.clock } in
      if not (is_expired (w.heap p) (now w.clock))
      then (err (sentinel err_key_exists), w1)
      else (done, store key value opts w1)
]

-- The `switch` of `Get`: the deadline that the item has after it.
unfoldable pub refresh : GetOptions → Duration → Time → Time → Time
refresh o ttl t old = elim o.valid_until [
  | some v ↦ v
  | none ↦ elim o.set_ttl [
    | some d ↦ add t d
    | none ↦ elim o.update_ttl [
      | some d ↦ if is_zero old then add t d else add old d
      | none ↦ if o.default_ttl then (if is_positive ttl then add t ttl else zero_time) else old
    ]
  ]
]

abbrev pub touch : (Time → Time) → Option MemoryItem → Option MemoryItem
touch f none = none
touch f (some i) = some (record i { valid_until = f i.valid_until })

-- `item.validUntil = ...`, through the pointer to the item.
unfoldable pub write_deadline : (Time → Time) → ℕ → World → World
write_deadline f p w = record w { heap = λ q. if eqb p q then touch f (w.heap q) else w.heap q }

-- The getter with options under the write lock, behind its reading `t` of the clock.
unfoldable pub examine : GetOptions → String → Time → World → Option ℕ × World
unfolding refresh write_deadline
examine o key t w = elim (lookup key w.items) [
  | none ↦ (none, w)
  | some p ↦
      if is_expired (w.heap p) t
      then (some p, w)
      else if o.delete
      then (some p, record w { items = erase key w.items })
      else (some p, write_deadline (refresh o w.ttl t) p w)
]

unfoldable pub getter_with : GetOptions → String → World → Option ℕ × World
unfolding examine
getter_with o key w = examine o key (now w.clock) (record w { clock = tick w.clock })

-- The closure that `Get` passes to `getValue`.
unfoldable pub getter : String → List GetOption → World → Option ℕ × World
unfolding getter_with
getter key [] w = (lookup key w.items, w)
getter key (opt ∷ opts) w = getter_with (apply_get (opt ∷ opts) no_get_options) key w

-- The removal in `getItem`: only while the map still holds the pointer that was read.
unfoldable pub evict : String → ℕ → World → World
evict key p w = elim (lookup key w.items) [
  | none ↦ w
  | some current ↦ if eqb current p then record w { items = erase key w.items } else w
]

-- `getItem` behind the call of the getter.
unfoldable pub check_item : String → Option ℕ → World → Result ℕ × World
unfolding evict
check_item key none w = (err (sentinel err_key_not_found), w)
check_item key (some p) w =
    let w1 = record w { clock = tick w.clock } in
    if is_expired (w.heap p) (now w.clock)
    then (err (sentinel err_key_not_found), evict key p w1)
    else (ok p, w1)

unfoldable pub get_item : String → (World → Option ℕ × World) → World → Result ℕ × World
unfolding check_item
get_item key get w = let (found, w1) = get w in check_item key found w1

-- `item.value`
unfoldable pub deref : (ℕ → Option MemoryItem) → ℕ → Result Bytes
deref heap p = elim (heap p) [ none ↦ err nil_dereference | some i ↦ ok i.value ]

unfoldable pub get_value : String → (World → Option ℕ × World) → World → Result Bytes × World
unfolding get_item deref
get_value key get w = let (r, w1) = get_item key get w in (r >>= deref w1.heap, w1)

unfoldable pub get : String → List GetOption → World → Result Bytes × World
unfolding get_value getter
get key opts w = get_value key (getter key opts) w

unfoldable pub get_and_delete : String → World → Result Bytes × World
unfolding get
get_and_delete key w = get key (and_delete ∷ []) w

unfoldable pub delete : String → World → Status × World
delete key w = (done, record w { items = erase key w.items })

-- The loop of the private `cleanup`, behind its reading `t` of the clock.
unfoldable pub sweep : Time → World → World
sweep t w = record w { items = retain (λ p. not (is_expired (w.heap p) t)) w.items }

-- The private `cleanup`, whose callback runs under the same lock.
unfoldable pub cleanup_with : {A : Type 0} → (World → A × World) → World → A × World
unfolding sweep
cleanup_with cb w = cb (sweep (now w.clock) (record w { clock = tick w.clock }))

unfoldable pub cleanup : World → Status × World
unfolding cleanup_with
cleanup w = cleanup_with (λ w1. (done, w1)) w

-- The loop of `Drain` that reads the items of the detached map.
unfoldable pub copy_values : (ℕ → Option MemoryItem) → Dict ℕ → Result (Dict Bytes)
unfolding deref
copy_values heap [] = ok []
copy_values heap ((key, p) ∷ cpy) = do
  items ← copy_values heap cpy
  value ← deref heap p
  ok (insert key value items)

unfoldable pub drain : World → Result (Dict Bytes) × World
unfolding cleanup_with copy_values
drain w =
    let (cpy, w1) = cleanup_with (λ w0. (w0.items, record w0 { items = [] })) w in
    (copy_values w1.heap cpy, w1)

unfoldable pub close : World → Status × World
close w = (done, w)
