-- ===== src/Memory/Exclusive.antt =====
-- `SetOrFail` of cache/memory.go: who may take a key.
use cachefx.Prelude.{
  String, ◌≡◌, refl, ap, arith, ◌∙◌, Bool, true, false, not, Option, none, some, List, ◌==◌,
  eq_refl, if◌then◌else◌, Option-cases, inl, inr,
}
use cachefx.Errors.{sentinel, err_key_exists, err, Status, done}
use cachefx.Options.{SetOption}
use cachefx.Time.{Time, now, tick}
use cachefx.Memory
use cachefx.Memory.{Bytes, MemoryItem, World}
use cachefx.Memory.Valid.{IsValid, entry, at_clock}
use cachefx.Memory.Spec
use cachefx.Memory.Spec.{Store, has_passed, write, ticked}
use cachefx.Memory.Refines.{view, entry_of, ticked-view, set_or_fail-Agrees}
use cachefx.Memory.Reads.{made}

abbrev pub exists : Status
exists = err (sentinel err_key_exists)

-- An entry holds its key while its deadline has not passed.
abbrev pub holds : Option MemoryItem → Time → Bool
holds none t = false
holds (some i) t = not (has_passed i t)

-- `SetOrFail` reads the clock for its own test only if the key is there.
abbrev pub examined : Option MemoryItem → World → World
examined none w = w
examined (some i) w = at_clock (tick w.clock) w

holds-live :
    (o : Option MemoryItem) (t : Time)
    → holds o t ≡ true
    → (i : MemoryItem) × (o ≡ some i) × (has_passed i t ≡ false)
holds-live none t h = absurd (ground arith)
holds-live (some i) t h = (i, refl, ground arith)

holds-passed : (i : MemoryItem) (t : Time) → holds (some i) t ≡ false → has_passed i t ≡ true
holds-passed i t h = ground arith

entry-examined :
    (o : Option MemoryItem) (w : World) (j : String) → entry (examined o w) j ≡ entry w j
unfolding entry
entry-examined none w j = refl
entry-examined (some i) w j = refl

module _ (k : String) (value : Bytes) (opts : List SetOption) {w : World} (v : IsValid w) where
  refused :
      holds (entry w k) (now w.clock) ≡ true
      → Spec.set_or_fail k value opts (view w) ≡ (exists, ticked (view w))
  unfolding Spec.set_or_fail view
  refused h =
      let (i, e, current) = holds-live (entry w k) (now w.clock) h in
      rw (e, current, Spec.set_or_fail)

  -- what `SetOrFail` does where the key is free
  accepted :
      holds (entry w k) (now w.clock) ≡ false
      → Spec.set_or_fail k value opts (view w)
        ≡ Spec.set k value opts (view (examined (entry w k) w))
  unfolding Spec.set_or_fail view
  accepted h = elim (Option-cases (entry w k)) [
    | inl missing ↦ rw (missing, Spec.set_or_fail)
    | inr (i, e) ↦
        let passed : has_passed i (now w.clock) ≡ true = holds-passed i (now w.clock) (rw e at h) in
        rw (e, passed, Spec.set_or_fail) (ap (Spec.set k value opts) (ticked-view w))
  ]

  -- SetOrFail of a key that holds a live entry answers the error "key already exists" and changes no
  -- entry.
  pub set_or_fail_refused :
      holds (entry w k) (now w.clock) ≡ true
      → ((Memory.set_or_fail k value opts w).0 ≡ exists)
        × ((j : String) → entry (Memory.set_or_fail k value opts w).1 j ≡ entry w j)
  unfolding view
  set_or_fail_refused h =
      let a = set_or_fail-Agrees k value opts v in
      let q = refused h in
      (a.reply ∙ ap (λ x. x.0) q, λ j. entry_of a j ∙ ap (λ x. x.1.entries j) q)

  -- SetOrFail of a key that holds no entry, or one whose deadline has passed, answers no error and
  -- stores the new entry under that key alone.
  pub set_or_fail_accepted :
      holds (entry w k) (now w.clock) ≡ false
      → ((Memory.set_or_fail k value opts w).0 ≡ done)
        × ((j : String)
            → entry (Memory.set_or_fail k value opts w).1 j
              ≡ (if k == j then some (made value opts (examined (entry w k) w)) else entry w j))
  unfolding Spec.set view
  set_or_fail_accepted h =
      let a = set_or_fail-Agrees k value opts v in
      let q = accepted h in
      (
        a.reply ∙ ap (λ x. x.0) q,
        λ j.
            entry_of a j
            ∙ ap (λ x. x.1.entries j) q
            ∙ ap (λ o. if k == j then some (made value opts (examined (entry w k) w)) else o)
                (entry-examined (entry w k) w j),
      )

-- Of two SetOrFail calls in a row the second is refused, and takes nothing away from the first, if
-- the first was accepted and its entry is still live at the reading of the second.
pub set_or_fail_twice :
    (k : String) (value value' : Bytes) (opts opts' : List SetOption) {w : World}
    → IsValid w
    → holds (entry w k) (now w.clock) ≡ false
    → has_passed
        (made value opts (examined (entry w k) w))
        (now (Memory.set_or_fail k value opts w).1.clock)
      ≡ false
    → ((Memory.set_or_fail k value' opts' (Memory.set_or_fail k value opts w).1).0 ≡ exists)
      × (entry (Memory.set_or_fail k value' opts' (Memory.set_or_fail k value opts w).1).1 k
          ≡ some (made value opts (examined (entry w k) w)))
set_or_fail_twice k value value' opts opts' {w} v free current =
    let w1 = (Memory.set_or_fail k value opts w).1 in
    let taken : entry w1 k ≡ some (made value opts (examined (entry w k) w)) =
      (set_or_fail_accepted k value opts v free).1 k ∙ rw eq_refl in
    let v1 = (set_or_fail-Agrees k value opts v).valid in
    let (reply, rest) = set_or_fail_refused k value' opts' v1 (rw (taken, current)) in
    (reply, rest k ∙ taken)
