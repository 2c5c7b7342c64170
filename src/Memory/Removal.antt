-- ===== src/Memory/Removal.antt =====
-- What `Delete`, `GetAndDelete`, `Cleanup` and `Drain` of cache/memory.go take out of the cache.
use cachefx.Prelude.{
  ◌+◌, String, ◌≡◌, refl, ap, ◌∙◌, true, false, Option, none, some, List, [], ◌∷◌, arith, ◌==◌,
  eq_refl, if◌then◌else◌, Bool-cases, Option-cases, inl, inr,
}
use cachefx.Errors.{Result, ok, done}
use cachefx.Dict.{Dict, lookup}
use cachefx.Options.{GetOption, and_delete, apply_get, no_get_options}
use cachefx.Time.{Time, IsMonotonic, now, tick}
use cachefx.Memory
use cachefx.Memory.{Bytes, MemoryItem, World}
use cachefx.Memory.Valid.{IsValid, entry}
use cachefx.Memory.Spec
use cachefx.Memory.Spec.{Store, has_passed, settle, amend, write, ticked, live_at, value_of}
use cachefx.Memory.Spec.Answers.{
  not_found, has_passed_later, erase_missing, if_twice, get_missing, get_with_missing,
  settle_passed, settle_current, with_passed, with_current,
}
use cachefx.Memory.Refines.{view, entry_of, delete-Agrees}
use cachefx.Memory.Gets.{get-Agrees, get_and_delete-Agrees}
use cachefx.Memory.Sweep.{cleanup-Agrees, drain_lem}

-- Delete answers no error and removes its key alone, whether or not the key is there.
pub delete_lem :
    (k : String) {w : World}
    → IsValid w
    → ((Memory.delete k w).0 ≡ done)
      × ((j : String) → entry (Memory.delete k w).1 j ≡ (if k == j then none else entry w j))
unfolding Spec.delete view
delete_lem k v = let a = delete-Agrees k v in (a.reply, entry_of a)

-- What a `GetAndDelete` hands out of an entry, by a reading of the clock.
abbrev pub taken : Option MemoryItem → Time → Result Bytes
taken none t = not_found
taken (some i) t = if has_passed i t then not_found else ok i.value

-- the reference result: the reply, and the store without the key
abbrev Takes : String → Store → Result Bytes × Store → Type 0
Takes k s (r, s') =
    (r ≡ taken (s.entries k) (now (tick s.clock)))
    × ((j : String) → s'.entries j ≡ (if k == j then none else s.entries j))

settle-Takes :
    (k : String) (i : MemoryItem) (s : Store)
    → s.entries k ≡ some i
    → Takes k s (settle k i (write k none (ticked s)))
settle-Takes k i s e = elim (Bool-cases (has_passed i (now (tick s.clock)))) [
  | inl passed ↦
      rw (settle_passed k i (write k none (ticked s)) passed)
        (rw (e, passed), λ j. if_twice (k == j) none (s.entries j))
  | inr current ↦
      rw (settle_current k i (write k none (ticked s)) current) (rw (e, current), λ j. refl)
]

get_and_delete-Takes :
    (k : String) (s : Store) → IsMonotonic s.clock → Takes k s (Spec.get_and_delete k s)
unfolding Spec.get_and_delete Spec.get apply_get amend
get_and_delete-Takes k s mono =
    let o = apply_get (and_delete ∷ []) no_get_options in
    elim (Option-cases (s.entries k)) [
      | inl missing ↦
          rw (get_with_missing k s o missing) (rw missing, λ j. erase_missing k j s missing)
      | inr (i, e) ↦ elim (Bool-cases (has_passed i (now s.clock))) [
        | inl passed ↦
            let later =
              has_passed_later i s.clock s.clock.reads (s.clock.reads + 1) mono (omega arith)
                passed in
            rw (with_passed k i s o e passed, settle_passed k i (ticked s) later)
              (rw (e, later), λ j. refl)
        | inr current ↦ rw (with_current k i s o e current) (settle-Takes k i s e)
      ]
    ]

-- GetAndDelete removes exactly its key, whatever it answers. It answers the value of an entry whose
-- deadline has not passed at its second reading of the clock, and "not found" for any other.
pub get_and_delete_lem :
    (k : String) {w : World}
    → IsValid w
    → IsMonotonic w.clock
    → ((Memory.get_and_delete k w).0 ≡ taken (entry w k) (now (tick w.clock)))
      × ((j : String)
          → entry (Memory.get_and_delete k w).1 j ≡ (if k == j then none else entry w j))
unfolding view
get_and_delete_lem k {w} v mono =
    let a = get_and_delete-Agrees k v in
    let (reply, rest) = get_and_delete-Takes k (view w) mono in
    (a.reply ∙ reply, λ j. entry_of a j ∙ rest j)

-- After a GetAndDelete, no Get of the key finds anything, with whatever options it is made.
pub get-get_and_delete :
    (k : String) (opts : List GetOption) {w : World}
    → IsValid w
    → IsMonotonic w.clock
    → (Memory.get k opts (Memory.get_and_delete k w).1).0 ≡ not_found
unfolding view
get-get_and_delete k opts {w} v mono =
    let a = get_and_delete-Agrees k v in
    let gone = (get_and_delete_lem k v mono).1 k ∙ rw eq_refl in
    (get-Agrees k opts a.valid).reply ∙ get_missing k opts (view (Memory.get_and_delete k w).1) gone

-- Between its two readings of the clock GetAndDelete can lose an entry: live at the first and
-- passed at the second, it is removed and "not found" is the answer.
pub get_and_delete_loses :
    (k : String) (i : MemoryItem) {w : World}
    → IsValid w
    → IsMonotonic w.clock
    → entry w k ≡ some i
    → has_passed i (now w.clock) ≡ false
    → has_passed i (now (tick w.clock)) ≡ true
    → ((Memory.get_and_delete k w).0 ≡ not_found) × (entry (Memory.get_and_delete k w).1 k ≡ none)
get_and_delete_loses k i v mono e live late =
    let (reply, rest) = get_and_delete_lem k v mono in (reply ∙ rw (e, late), rest k ∙ rw eq_refl)

-- Cleanup answers no error, removes exactly the entries whose deadline has passed, and changes no
-- other.
pub cleanup_lem :
    {w : World}
    → IsValid w
    → ((Memory.cleanup w).0 ≡ done)
      × ((j : String) → entry (Memory.cleanup w).1 j ≡ live_at (now w.clock) (entry w j))
      × IsValid (Memory.cleanup w).1
unfolding Spec.cleanup view
cleanup_lem v = let a = cleanup-Agrees v in (a.reply, entry_of a, a.valid)

-- Drain meets no nil pointer: it returns a map of exactly the values of the entries whose deadline
-- has not passed, and leaves no entry behind.
pub drain_live :
    {w : World}
    → IsValid w
    → (items : Dict Bytes) × ((Memory.drain w).0 ≡ ok items)
      × ((k : String) → lookup k items ≡ value_of (live_at (now w.clock) (entry w k)))
      × ((k : String) → entry (Memory.drain w).1 k ≡ none)
      × IsValid (Memory.drain w).1
unfolding Spec.drain view
drain_live v =
    let (items, copied, shown, state, valid) = drain_lem v in
    (items, copied, shown, λ k. ap (λ s. s.entries k) state, valid)
