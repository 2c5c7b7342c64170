-- ===== src/Tests/Memory.antt =====
-- cache/memory.go and cache/options.go at small inputs.
use cachefx.Prelude.{
  String, ◌≡◌, refl, none, some, List, [], ◌∷◌, arith, ◌==◌, if◌then◌else◌, pos, negsuc,
}
use cachefx.Errors.{ok, done}
use cachefx.Dict.{Dict, lookup}
use cachefx.Options.{Options, with_ttl, and_set_ttl}
use cachefx.Time.{now, tick}
use cachefx.Memory
use cachefx.Memory.{
  Bytes, MemoryItem, World, new_memory, new_memory_item, default_options, new_item, store,
  is_expired, getter, getter_with, examine, refresh, write_deadline, evict, check_item, get_item,
  get_value, deref, cleanup_with, sweep, copy_values,
}
use cachefx.Memory.Valid.{IsValid, entry}
use cachefx.Memory.Spec.{fresh, has_passed, live_at, value_of}
use cachefx.Memory.Spec.Answers.{not_found, Serves}
use cachefx.Memory.Refines.{Agrees, view}
use cachefx.Memory.Commands.{Command, execute, serve, run}
use cachefx.Memory.Refinement
use cachefx.Memory.Refinement.{new_memory-IsValid}
use cachefx.Memory.Reads
use cachefx.Memory.Reads.{made}
use cachefx.Memory.Exclusive.{exists}
use cachefx.Memory.Removal
use cachefx.Memory.Removal.{taken}
use cachefx.Memory.Expiry
use cachefx.Memory.Expiry.{last_clock, expired_by}
use cachefx.Memory.Refresh
use cachefx.Memory.Refresh.{refreshed}
use cachefx.Tests.Data.{program, ticking, one, late, item, one-IsValid, one-IsMonotonic}

abbrev calls : List Command
calls =
    Command.set "a" (7 ∷ []) (with_ttl (pos 1) ∷ [])
    ∷ Command.get "a" []
    ∷ Command.set_or_fail "b" (8 ∷ []) []
    ∷ Command.get "a" []
    ∷ Command.drain
    ∷ []

two_gets :
    ((Memory.get "a" [] one).0 ≡ ok (7 ∷ []))
    × ((Memory.get "a" [] late).0 ≡ not_found)
    × ((Memory.get "b" [] one).0 ≡ not_found)
unfolding program
two_gets = (refl, refl, refl)

second_set_or_fail : (Memory.set_or_fail "a" (9 ∷ []) [] one).0 ≡ exists
unfolding program
second_set_or_fail = refl

drained : (Memory.drain one).0 ≡ ok (("a", 7 ∷ []) ∷ [])
unfolding program
drained = refl

run-Agrees_example :
    Agrees
      (run execute calls (new_memory (pos 0) ticking))
      (run serve calls (fresh (pos 0) ticking))
run-Agrees_example = Refinement.run-Agrees (pos 0) ticking calls

execute-Agrees_example : Agrees (execute Command.drain one) (serve Command.drain (view one))
execute-Agrees_example = Refinement.execute-Agrees Command.drain one-IsValid

get-Serves_example : Serves (entry one "a") (7 ∷ []) (now one.clock)
unfolding program
get-Serves_example = Reads.get-Serves "a" [] (7 ∷ []) one-IsValid one-IsMonotonic refl

get_plain_live_example :
    ((Memory.get "a" [] one).0 ≡ ok item.value)
    × ((j : String) → entry (Memory.get "a" [] one).1 j ≡ entry one j)
unfolding program
get_plain_live_example = Reads.get_plain_live "a" item one-IsValid refl refl

get-set_ttl_example :
    (Memory.get "a" []
      (Memory.set "a" (7 ∷ []) (with_ttl (pos 9) ∷ with_ttl (negsuc 4) ∷ []) one).1).0
    ≡ (if expired_by
          (negsuc 4)
          (now (last_clock (with_ttl (pos 9) ∷ []) one))
          (now (Memory.set "a" (7 ∷ []) (with_ttl (pos 9) ∷ with_ttl (negsuc 4) ∷ []) one).1.clock)
        then not_found
        else ok (7 ∷ []))
unfolding program
get-set_ttl_example =
    Expiry.get-set_ttl "a" (7 ∷ []) (with_ttl (pos 9) ∷ []) (negsuc 4) one-IsValid (omega arith)

delete_lem_example :
    ((Memory.delete "a" one).0 ≡ done)
    × ((j : String) → entry (Memory.delete "a" one).1 j ≡ (if "a" == j then none else entry one j))
delete_lem_example = Removal.delete_lem "a" one-IsValid

get_and_delete_lem_example :
    ((Memory.get_and_delete "a" one).0 ≡ taken (entry one "a") (now (tick one.clock)))
    × ((j : String)
        → entry (Memory.get_and_delete "a" one).1 j ≡ (if "a" == j then none else entry one j))
get_and_delete_lem_example = Removal.get_and_delete_lem "a" one-IsValid one-IsMonotonic

drain_live_example :
    (items : Dict Bytes) × ((Memory.drain one).0 ≡ ok items)
    × ((k : String) → lookup k items ≡ value_of (live_at (now one.clock) (entry one k)))
    × ((k : String) → entry (Memory.drain one).1 k ≡ none)
    × IsValid (Memory.drain one).1
drain_live_example = Removal.drain_live one-IsValid

get_refreshes_example :
    ((Memory.get "a" (and_set_ttl (pos 5) ∷ []) one).0 ≡ (
      if has_passed (refreshed (and_set_ttl (pos 5) ∷ []) item one) (now (tick one.clock))
      then not_found
      else ok item.value))
    × ((l : String)
        → entry (Memory.get "a" (and_set_ttl (pos 5) ∷ []) one).1 l ≡ (
            if "a" == l
            then (if has_passed
                  (refreshed (and_set_ttl (pos 5) ∷ []) item one)
                  (now (tick one.clock))
                then none
                else some (refreshed (and_set_ttl (pos 5) ∷ []) item one))
            else entry one l))
unfolding program
get_refreshes_example =
    Refresh.get_refreshes "a" (and_set_ttl (pos 5)) [] item one-IsValid refl refl refl

abbrev plain : Options
plain = record { valid_until = pos 1 }
