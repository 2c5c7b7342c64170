-- ===== src/Memory/Sweep.antt =====
-- `Cleanup` and `Drain` of cache/memory.go against the reference operations.
use cachefx.Prelude.{
  ℕ, String, ◌≡◌, refl, ap, ◌∙◌, not, Option, none, some, [], ◌∷◌, arith, eq_iff, eq_refl,
  Option-cases, inl, inr,
}
use cachefx.Errors.{ok}
use cachefx.Dict.{Dict, lookup, insert, IsMap, lookup-insert}
use cachefx.Time.{Time, now, tick}
use cachefx.Memory
use cachefx.Memory.{Bytes, MemoryItem, World, is_expired, deref, copy_values}
use cachefx.Memory.Valid.{
  IsValid, follow, entry, at_clock, keep, at_clock-IsValid, keep-IsValid, entry-keep,
}
use cachefx.Memory.Spec
use cachefx.Memory.Spec.{Store, ticked, live_at, value_of}
use cachefx.Memory.Refines.{
  view, Agrees, same_store, entry_at, entry_found, entry_missing, is_expired-has_passed,
}

abbrev live : Time → World → World
live t w = keep (λ p. not (is_expired (w.heap p) t)) w

-- `Cleanup` keeps the entries whose deadline has not passed.
kept_entry :
    (t : Time) {w : World}
    → IsValid w
    → (k : String) → entry (keep (λ p. not (is_expired (w.heap p) t)) w) k ≡ live_at t (entry w k)
kept_entry t {w} v k = elim (Option-cases (lookup k w.items)) [
  | inl missing ↦
      rw (entry-keep (λ p. not (is_expired (w.heap p) t)) v, missing, entry_missing w k missing)
  | inr (p, e) ↦
      let (i, found, _) = entry_at v k p e in
      rw
        (
          entry-keep (λ q. not (is_expired (w.heap q) t)) v,
          e,
          entry_found w k p e,
          found,
          is_expired-has_passed,
        )
        (ground arith)
]

pub empty-IsValid : (w : World) → IsValid (record w { items = [] })
unfolding lookup
empty-IsValid w = record {
  unique = tt;
  allocated = λ k p e. cc;
  stored = λ k p e. absurd (ground arith);
  owned = λ j k p e f. cc;
}

pub cleanup-Agrees : {w : World} → IsValid w → Agrees (Memory.cleanup w) (Spec.cleanup (view w))
unfolding Memory.cleanup Spec.cleanup view entry
cleanup-Agrees {w} v = record {
  reply = refl;
  state = same_store (at_clock (tick w.clock) w) (kept_entry (now w.clock) v);
  valid = keep-IsValid _ (at_clock-IsValid (tick w.clock) v);
}

-- The pointers of a map lead to items.
abbrev Leads : (ℕ → Option MemoryItem) → Dict ℕ → Type 0
Leads heap m = (k : String) (p : ℕ) → lookup k m ≡ some p → (i : MemoryItem) × (heap p ≡ some i)

module _ (heap : ℕ → Option MemoryItem) (j : String) (p : ℕ) (m : Dict ℕ)
    (leads : Leads heap ((j, p) ∷ m)) where
  tail-Leads : lookup j m ≡ none → Leads heap m
  unfolding lookup
  tail-Leads absent k q e = leads k q (ground (arith, eq_iff j k))

  head_leads : (i : MemoryItem) × (heap p ≡ some i)
  unfolding lookup
  head_leads = leads j p (rw eq_refl)

  insert_shown :
      (i : MemoryItem) (items : Dict Bytes)
      → heap p ≡ some i
      → ((k : String) → lookup k items ≡ value_of (follow heap (lookup k m)))
      → (k : String)
      → lookup k (insert j i.value items) ≡ value_of (follow heap (lookup k ((j, p) ∷ m)))
  unfolding lookup
  insert_shown i items found shown k = rw lookup-insert (ground (arith, shown k))

-- The loop of `Drain` meets no nil pointer, and copies the value of each item.
copy_values_lem :
    (heap : ℕ → Option MemoryItem) (m : Dict ℕ)
    → IsMap m
    → Leads heap m
    → (items : Dict Bytes) × (copy_values heap m ≡ ok items)
      × ((k : String) → lookup k items ≡ value_of (follow heap (lookup k m)))
unfolding copy_values lookup
copy_values_lem heap [] u leads = ([], refl, λ k. refl)
copy_values_lem heap ((j, p) ∷ m) u leads =
    let (items, copied, shown) = copy_values_lem heap m u.1 (tail-Leads heap j p m leads u.0) in
    let (i, found) = head_leads heap j p m leads in
    (insert j i.value items, ground arith, insert_shown heap j p m leads i items found shown)

-- A drain returns a map of exactly the entries that are live, and leaves the store empty.
pub drain_lem :
    {w : World}
    → IsValid w
    → (items : Dict Bytes) × ((Memory.drain w).0 ≡ ok items)
      × ((k : String) → lookup k items ≡ (Spec.drain (view w)).0 k)
      × (view (Memory.drain w).1 ≡ (Spec.drain (view w)).1)
      × IsValid (Memory.drain w).1
unfolding Memory.drain Spec.drain view lookup entry
drain_lem {w} v =
    let t = now w.clock in
    let kept = keep-IsValid (λ p. not (is_expired (w.heap p) t)) v in
    let (items, copied, shown) = copy_values_lem w.heap (live t w).items kept.unique kept.stored in
    (
      items,
      copied,
      λ k. shown k ∙ ap value_of (kept_entry t v k),
      refl,
      empty-IsValid (at_clock (tick w.clock) w),
    )
