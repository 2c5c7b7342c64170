-- ===== src/Tests/Data.antt =====
-- Small caches for the tests of cache/memory.go.
use cachefx.Prelude.{◌+◌, [], ◌∷◌, arith, pos, ◌+ℤ◌, ltb_ℤ, is_zero_ℤ}
use cachefx.Dict.{lookup, insert, erase, retain}
use cachefx.Options.{with_ttl, apply, set_option, apply_get}
use cachefx.Time.{Clock, IsMonotonic, tick}
use cachefx.Memory
use cachefx.Memory.{
  Bytes, MemoryItem, World, new_memory, new_memory_item, default_options, new_item, store,
  is_expired, getter, getter_with, examine, refresh, write_deadline, evict, check_item, get_item,
  get_value, deref, cleanup_with, sweep, copy_values,
}
use cachefx.Memory.Valid.{IsValid, entry}
use cachefx.Memory.Spec.{has_passed}
use cachefx.Memory.Commands.{execute, run}
use cachefx.Memory.Refinement.{new_memory-IsValid}
use cachefx.Memory.Reads
use cachefx.Memory.Reads.{made}

unfoldable pub program : Unit {0}
unfolding Memory.set Memory.set_or_fail Memory.get Memory.get_and_delete Memory.delete
    Memory.cleanup Memory.drain Memory.close new_memory lookup insert erase retain apply set_option
    apply_get is_expired default_options execute run entry has_passed ◌+ℤ◌ ltb_ℤ is_zero_ℤ
program = tt

-- A clock that shows one more nanosecond at each reading.
abbrev pub ticking : Clock
ticking = record { at = λ n. pos (100 + n); reads = 0 }

ticking-IsMonotonic : IsMonotonic ticking
ticking-IsMonotonic = record { mono = λ i j h. omega arith }

abbrev pub empty : World
empty = new_memory (pos 0) ticking

-- "a" is set with a TTL of 1 at time 100, so its deadline is 101; the next reading is 101.
abbrev pub one : World
one = (Memory.set "a" (7 ∷ []) (with_ttl (pos 1) ∷ []) empty).1

-- the same, two readings later
abbrev pub late : World
late = record one { clock = tick (tick one.clock) }

abbrev pub item : MemoryItem
item = record { value = 7 ∷ []; valid_until = pos 101 }

pub empty-IsValid : IsValid empty
empty-IsValid = new_memory-IsValid (pos 0) ticking

pub one-IsValid : IsValid one
one-IsValid = (Reads.set_lem "a" (7 ∷ []) (with_ttl (pos 1) ∷ []) empty-IsValid).2

pub late-IsValid : IsValid late
late-IsValid = record {
  unique = one-IsValid.unique;
  allocated = one-IsValid.allocated;
  stored = one-IsValid.stored;
  owned = one-IsValid.owned;
}

pub one-IsMonotonic : IsMonotonic one.clock
unfolding program
one-IsMonotonic = record { mono = λ i j h. omega arith }

pub late-IsMonotonic : IsMonotonic late.clock
unfolding program
late-IsMonotonic = record { mono = λ i j h. omega arith }
