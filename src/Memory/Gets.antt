-- ===== src/Memory/Gets.antt =====
-- `Get` and `GetAndDelete` of cache/memory.go against the reference operations of `Memory.Spec`.
use cachefx.Prelude.{
  ℕ, String, ◌≡◌, refl, ap, sym, ◌∙◌, Option, none, some, List, [], ◌∷◌, ◌==◌, eq_iff, eq_refl,
  eqb_iff, if◌then◌else◌, Bool-cases, Option-cases, ◌⊎◌, inl, inr,
}
use cachefx.Errors.{sentinel, err_key_not_found, Result, ok, err, ◌>>=◌}
use cachefx.Dict.{lookup, lookup-erase}
use cachefx.Options.{GetOptions, GetOption, no_get_options, and_delete, apply_get}
use cachefx.Time.{Time, now, tick}
use cachefx.Memory
use cachefx.Memory.{
  Bytes, MemoryItem, World, touch, is_expired, default_options, new_memory_item, new_item, store,
  refresh, write_deadline, evict, check_item, deref, getter, getter_with, examine,
}
use cachefx.Memory.Valid.{
  IsValid, entry, drop, at_clock-IsValid, drop-IsValid, write_deadline-IsValid,
  entry-write_deadline,
}
use cachefx.Memory.Spec
use cachefx.Memory.Spec.{Store, has_passed, write, ticked, settle, amend, live_at}
use cachefx.Memory.Refines.{
  view, Agrees, same_store, view-drop, agree_by, same-Agrees, ticked-Agrees, entry_at, entry_found,
  entry_missing, is_expired-has_passed, ticked-view,
}

-- `getValue` behind the getter
abbrev finish : String → Option ℕ × World → Result Bytes × World
finish k (found, w) = let (r, w1) = check_item k found w in (r >>= deref w1.heap, w1)

-- what the map may hold under the key when the item is checked: its pointer, or nothing
abbrev Holds : World → String → ℕ → Type 0
Holds w k p = (lookup k w.items ≡ some p) ⊎ (lookup k w.items ≡ none)

-- an absent key can be removed once more
entry-absent :
    (w : World) (k j : String)
    → lookup k w.items ≡ none
    → entry w j ≡ (if k == j then none else entry w j)
entry-absent w k j e = elim (Bool-cases (k == j)) [
  | inl same ↦ rw (same, ← (eq_iff k j).0 same, entry_missing w k e)
  | inr other ↦ rw other
]

view-absent : (w : World) (k : String) → lookup k w.items ≡ none → view w ≡ write k none (view w)
unfolding view
view-absent w k e = same_store w (λ j. entry-absent w k j e)

evict-Agrees :
    {A : Type 0} (a : A) (k : String) (p : ℕ) {w : World}
    → IsValid w
    → Holds w k p
    → Agrees (a, evict k p w) (a, write k none (view w))
unfolding evict
evict-Agrees a k p {w} v (inl e) =
    agree_by (rw (e, (eqb_iff p p).1 refl, evict)) refl
      (record { reply = refl; state = view-drop v k; valid = drop-IsValid k v })
evict-Agrees a k p {w} v (inr e) =
    agree_by (rw (e, evict)) refl (record { reply = refl; state = view-absent w k e; valid = v })

settle-Agrees :
    (k : String) (p : ℕ) (i : MemoryItem) {w : World}
    → IsValid w
    → Holds w k p
    → w.heap p ≡ some i
    → Agrees (finish k (some p, w)) (settle k i (view w))
unfolding check_item settle deref view
settle-Agrees k p i {w} v h found = elim (Bool-cases (has_passed i (now w.clock))) [
  | inl passed ↦
      agree_by (rw (found, is_expired-has_passed, passed, finish))
        (rw (passed, settle)
          (ap (λ s. (err (sentinel err_key_not_found), write k none s)) (ticked-view w)))
        (evict-Agrees (err (sentinel err_key_not_found)) k p (at_clock-IsValid (tick w.clock) v) h)
  | inr current ↦
      agree_by (rw (found, is_expired-has_passed, current, deref, found)) (rw (current, settle))
        (ticked-Agrees (ok i.value) v)
]

module _ (k : String) (p : ℕ) (i : MemoryItem) (f : Time → Time) {w : World} (v : IsValid w)
    (e : lookup k w.items ≡ some p) (found : w.heap p ≡ some i) where
  written : MemoryItem
  written = record i { valid_until = f i.valid_until }

  heap-write_deadline : (write_deadline f p w).heap p ≡ some written
  unfolding write_deadline written
  heap-write_deadline = rw ((eqb_iff p p).1 refl, found)

  entry-written :
      (j : String) → entry (write_deadline f p w) j ≡ (if k == j then some written else entry w j)
  unfolding written
  entry-written j = elim (Bool-cases (k == j)) [
    | inl same ↦
        rw (entry-write_deadline f k p v e, same, ← (eq_iff k j).0 same)
          (ap (touch f) (entry_found w k p e ∙ found))
    | inr other ↦ rw (entry-write_deadline f k p v e, other)
  ]

  view-written : view (write_deadline f p w) ≡ write k (some written) (view w)
  unfolding view write_deadline
  view-written = same_store w entry-written

  written-Agrees :
      Agrees
        (finish k (some p, write_deadline f p w))
        (settle k written (write k (some written) (view w)))
  written-Agrees = agree_by refl (ap (settle k written) (sym view-written)) (
      settle-Agrees k p written (write_deadline-IsValid f k p v) (inl (unfold write_deadline in e))
        heap-write_deadline)

module _ (k : String) {w : World} (v : IsValid w) where
  lookup-drop_self : lookup k (drop k w).items ≡ none
  lookup-drop_self = rw (lookup-erase k k w.items v.unique, eq_refl)

  dropped-Agrees :
      (p : ℕ) (i : MemoryItem)
      → w.heap p ≡ some i
      → Agrees (finish k (some p, drop k w)) (settle k i (write k none (view w)))
  dropped-Agrees p i found =
      agree_by refl (ap (settle k i) (sym (view-drop v k)))
        (settle-Agrees k p i (drop-IsValid k v) (inr lookup-drop_self) found)

module _ (o : GetOptions) (k : String) {w : World} (v : IsValid w) where
  amend-Agrees :
      (p : ℕ) (i : MemoryItem) (t : Time)
      → lookup k w.items ≡ some p
      → w.heap p ≡ some i
      → Agrees
          (finish k (
            if o.delete
            then (some p, drop k w)
            else (some p, write_deadline (refresh o w.ttl t) p w)))
          (amend o k i t (view w))
  unfolding amend view written
  amend-Agrees p i t e found = elim (Bool-cases o.delete) [
    | inl del ↦ agree_by (rw del) (rw (del, amend)) (dropped-Agrees k v p i found)
    | inr kept ↦
        agree_by (rw kept) (rw (kept, amend)) (written-Agrees k p i (refresh o w.ttl t) v e found)
  ]

module _ (o : GetOptions) (k : String) {w : World} (v : IsValid w) where
  getter_found-Agrees :
      (p : ℕ) (i : MemoryItem)
      → lookup k w.items ≡ some p
      → w.heap p ≡ some i
      → Agrees (finish k (getter_with o k w)) (Spec.get_with o k (view w))
  unfolding getter_with Spec.get_with view
  getter_found-Agrees p i e found = elim (Bool-cases (has_passed i (now w.clock))) [
    | inl passed ↦
        agree_by (rw (e, found, is_expired-has_passed, passed, examine))
          (rw (entry_found w k p e, found, passed, Spec.get_with) (ap (settle k i) (ticked-view w)))
          (settle-Agrees k p i (at_clock-IsValid (tick w.clock) v) (inl e) found)
    | inr current ↦
        agree_by (rw (e, found, is_expired-has_passed, current, examine))
          (rw (entry_found w k p e, found, current, Spec.get_with)
            (ap (amend o k i (now w.clock)) (ticked-view w)))
          (amend-Agrees o k (at_clock-IsValid (tick w.clock) v) p i (now w.clock) e found)
  ]

  getter_with-Agrees : Agrees (finish k (getter_with o k w)) (Spec.get_with o k (view w))
  unfolding getter_with Spec.get_with check_item view
  getter_with-Agrees = elim (Option-cases (lookup k w.items)) [
    | inl missing ↦
        agree_by (rw (missing, examine)) (rw (entry_missing w k missing, Spec.get_with))
          (ticked-Agrees (err (sentinel err_key_not_found)) v)
    | inr (p, e) ↦ let (i, found, _) = entry_at v k p e in getter_found-Agrees p i e found
  ]

get_plain-Agrees :
    (k : String) {w : World}
    → IsValid w
    → Agrees (finish k (lookup k w.items, w)) (Spec.get k [] (view w))
unfolding Spec.get check_item view
get_plain-Agrees k {w} v = elim (Option-cases (lookup k w.items)) [
  | inl missing ↦
      agree_by (rw (missing, finish)) (rw (entry_missing w k missing, Spec.get))
        (same-Agrees (err (sentinel err_key_not_found)) v)
  | inr (p, e) ↦
      let (i, found, _) = entry_at v k p e in
      agree_by (rw (e, finish)) (rw (entry_found w k p e, found, Spec.get))
        (settle-Agrees k p i v (inl e) found)
]

pub get-Agrees :
    (k : String) (opts : List GetOption) {w : World}
    → IsValid w
    → Agrees (Memory.get k opts w) (Spec.get k opts (view w))
unfolding Memory.get Spec.get
get-Agrees k [] v = get_plain-Agrees k v
get-Agrees k (opt ∷ opts) v = getter_with-Agrees (apply_get (opt ∷ opts) no_get_options) k v

pub get_and_delete-Agrees :
    (k : String) {w : World}
    → IsValid w
    → Agrees (Memory.get_and_delete k w) (Spec.get_and_delete k (view w))
unfolding Memory.get_and_delete Spec.get_and_delete
get_and_delete-Agrees k v = get-Agrees k (and_delete ∷ []) v
