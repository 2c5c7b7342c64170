-- ===== src/Memory/Reads.antt =====
-- What `Get` of cache/memory.go returns and removes, after any state and after a `Set`.
use cachefx.Prelude.{
  String, ◌≡◌, sym, ap, ◌∙◌, true, false, none, some, List, [], ◌==◌, eq_refl, if◌then◌else◌,
  Bool-cases, Option-cases, inl, inr,
}
use cachefx.Errors.{ok, done}
use cachefx.Options.{SetOption, GetOption, apply}
use cachefx.Time.{IsMonotonic, now}
use cachefx.Memory
use cachefx.Memory.{Bytes, MemoryItem, World, default_options}
use cachefx.Memory.Valid.{IsValid, entry}
use cachefx.Memory.Spec
use cachefx.Memory.Spec.{has_passed}
use cachefx.Memory.Spec.Answers.{
  not_found, expired-Gone, Serves, get_missing, not_found-ne-ok, get_live-value, plain_found,
  settle_current, settle_reply,
}
use cachefx.Memory.Refines.{view, entry_of, set-Agrees}
use cachefx.Memory.Gets.{get-Agrees}

-- A Get that comes upon an entry whose deadline has passed, with any options, answers "not found",
-- removes that entry, and leaves every other key as it was.
pub get_expired :
    (k : String) (opts : List GetOption) (i : MemoryItem) {w : World}
    → IsValid w
    → IsMonotonic w.clock
    → entry w k ≡ some i
    → has_passed i (now w.clock) ≡ true
    → ((Memory.get k opts w).0 ≡ not_found)
      × ((j : String) → entry (Memory.get k opts w).1 j ≡ (if k == j then none else entry w j))
unfolding view
get_expired k opts i {w} v mono e passed =
    let a = get-Agrees k opts v in
    let (reply, rest) = expired-Gone k opts i (view w) mono e passed in
    (a.reply ∙ reply, λ j. entry_of a j ∙ rest j)

-- A Get, with any options, returns only the value of an entry that is in the cache under the key
-- and whose deadline has not passed when the call reads the clock.
pub get-Serves :
    (k : String) (opts : List GetOption) (value : Bytes) {w : World}
    → IsValid w
    → IsMonotonic w.clock
    → (Memory.get k opts w).0 ≡ ok value
    → Serves (entry w k) value (now w.clock)
unfolding view
get-Serves k opts value {w} v mono h =
    let answer = sym (get-Agrees k opts v).reply ∙ h in
    elim (Option-cases (entry w k)) [
      | inl missing ↦
          absurd (not_found-ne-ok value (sym (get_missing k opts (view w) missing) ∙ answer))
      | inr (i, e) ↦ elim (Bool-cases (has_passed i (now w.clock))) [
        | inl passed ↦
            absurd (
              not_found-ne-ok value (sym (expired-Gone k opts i (view w) mono e passed).0 ∙ answer))
        | inr current ↦ (i, e, get_live-value k opts i (view w) value e current answer, current)
      ]
    ]

-- A Get with no options of a live entry returns its value and changes no entry.
pub get_plain_live :
    (k : String) (i : MemoryItem) {w : World}
    → IsValid w
    → entry w k ≡ some i
    → has_passed i (now w.clock) ≡ false
    → ((Memory.get k [] w).0 ≡ ok i.value)
      × ((j : String) → entry (Memory.get k [] w).1 j ≡ entry w j)
unfolding view
get_plain_live k i {w} v e current =
    let a = get-Agrees k [] v in
    let q = plain_found k i (view w) e ∙ settle_current k i (view w) current in
    (a.reply ∙ ap (λ x. x.0) q, λ j. entry_of a j ∙ ap (λ x. x.1.entries j) q)

-- The entry that a `Set` makes, and the clock behind it.
abbrev pub made : Bytes → List SetOption → World → MemoryItem
made value opts w =
    let (base, c) = default_options w.ttl w.clock in
    record { value = value; valid_until = (apply opts base c).0.valid_until }

-- A Set answers no error, stores its entry under the key in place of any other, and leaves every
-- other key as it was; the cache stays well formed.
pub set_lem :
    (k : String) (value : Bytes) (opts : List SetOption) {w : World}
    → IsValid w
    → ((Memory.set k value opts w).0 ≡ done)
      × ((j : String)
          → entry (Memory.set k value opts w).1 j
            ≡ (if k == j then some (made value opts w) else entry w j))
      × IsValid (Memory.set k value opts w).1
unfolding Spec.set view
set_lem k value opts v = let a = set-Agrees k value opts v in (a.reply, entry_of a, a.valid)

-- A Get right after a Set of its key returns the value that was set, exactly if the deadline of the
-- new entry has not passed at the reading of the Get.
pub get-set_self :
    (k : String) (value : Bytes) (opts : List SetOption) {w : World}
    → IsValid w
    → (Memory.get k [] (Memory.set k value opts w).1).0 ≡ (
        if has_passed (made value opts w) (now (Memory.set k value opts w).1.clock)
        then not_found
        else ok value)
unfolding view
get-set_self k value opts {w} v =
    let (_, stored, v1) = set_lem k value opts v in
    let w1 = (Memory.set k value opts w).1 in
    let e : entry w1 k ≡ some (made value opts w) = stored k ∙ rw eq_refl in
    (get-Agrees k [] v1).reply
    ∙ ap (λ x. x.0) (plain_found k (made value opts w) (view w1) e)
    ∙ settle_reply k (made value opts w) (view w1)
