-- ===== src/Memory/Valid.antt =====
-- cache/memory.go: the well-formedness of a `MemoryCache` and its heap, what the map shows of a key,
-- and both after each of the ways in which the methods write.
use cachefx.Prelude.{
  ℕ, ◌+◌, ◌<◌, String, ◌≡◌, ap, Bool, Option, none, some, arith, ◌==◌, eq_iff, eqb, if◌then◌else◌,
  Bool-cases, Option-cases, inl, inr,
}
use cachefx.Dict.{
  lookup, insert, erase, retain, IsMap, lookup-insert, lookup-erase, lookup-retain, insert-IsMap,
  erase-IsMap, retain-IsMap, only_if,
}
use cachefx.Memory.{MemoryItem, World, update, touch, write_deadline}
use cachefx.Time.{Time, Clock}

-- What the cache holds under a key, live or expired.
abbrev pub follow : (ℕ → Option MemoryItem) → Option ℕ → Option MemoryItem
follow h none = none
follow h (some p) = h p

unfoldable pub entry : World → String → Option MemoryItem
entry w k = follow w.heap (lookup k w.items)

-- The map holds no key twice, every pointer in it leads to an item, and no two keys share one.
pub record IsValid (w : World) : Type 0 where
  pub unique : IsMap w.items
  pub allocated : (k : String) (p : ℕ) → lookup k w.items ≡ some p → p < w.next
  pub stored :
      (k : String) (p : ℕ) → lookup k w.items ≡ some p → (i : MemoryItem) × (w.heap p ≡ some i)
  pub owned : (j k : String) (p : ℕ) → lookup j w.items ≡ some p → lookup k w.items ≡ some p → j ≡ k

-- The writes: a fresh item under a key, the removal of a key, a deadline, and the clock.
abbrev pub put : String → MemoryItem → World → World
put k i w = record w {
  items = insert k w.next w.items;
  heap = update w.heap w.next i;
  next = w.next + 1;
}

abbrev pub drop : String → World → World
drop k w = record w { items = erase k w.items }

abbrev pub at_clock : Clock → World → World
at_clock c w = record w { clock = c }

abbrev pub keep : (ℕ → Bool) → World → World
keep p w = record w { items = retain p w.items }

pub at_clock-IsValid : (c : Clock) {w : World} → IsValid w → IsValid (at_clock c w)
at_clock-IsValid c v = record {
  unique = v.unique;
  allocated = v.allocated;
  stored = v.stored;
  owned = v.owned;
}

module _ (k : String) {w : World} (v : IsValid w) where
  drop_found :
      (j : String) (p : ℕ) → lookup j (erase k w.items) ≡ some p → lookup j w.items ≡ some p
  drop_found j p e = ground (arith, lookup-erase k j w.items v.unique)

  pub drop-IsValid : IsValid (drop k w)
  drop-IsValid = record {
    unique = erase-IsMap k w.items v.unique;
    allocated = λ j p e. v.allocated j p (drop_found j p e);
    stored = λ j p e. v.stored j p (drop_found j p e);
    owned = λ i j p e f. v.owned i j p (drop_found i p e) (drop_found j p f);
  }

  pub entry-drop : (j : String) → entry (drop k w) j ≡ (if k == j then none else entry w j)
  unfolding entry
  entry-drop j = ground (arith, lookup-erase k j w.items v.unique)

module _ (keeps : ℕ → Bool) {w : World} (v : IsValid w) where
  keep_found :
      (j : String) (p : ℕ) → lookup j (retain keeps w.items) ≡ some p → lookup j w.items ≡ some p
  keep_found j p e = ground (arith, lookup-retain keeps j w.items v.unique)

  pub keep-IsValid : IsValid (keep keeps w)
  keep-IsValid = record {
    unique = retain-IsMap keeps w.items v.unique;
    allocated = λ j p e. v.allocated j p (keep_found j p e);
    stored = λ j p e. v.stored j p (keep_found j p e);
    owned = λ i j p e f. v.owned i j p (keep_found i p e) (keep_found j p f);
  }

  pub entry-keep :
      (j : String) → entry (keep keeps w) j ≡ follow w.heap (only_if keeps (lookup j w.items))
  unfolding entry
  entry-keep j = ap (follow w.heap) (lookup-retain keeps j w.items v.unique)

module _ (k : String) (i : MemoryItem) {w : World} (v : IsValid w) where
  put_stored :
      (j : String) (p : ℕ)
      → lookup j (insert k w.next w.items) ≡ some p
      → (x : MemoryItem) × (update w.heap w.next i p ≡ some x)
  put_stored j p e = elim (Bool-cases (k == j)) [
    | inl same ↦ (i, ground (arith, lookup-insert k j w.next w.items))
    | inr other ↦
        let old : lookup j w.items ≡ some p = ground (arith, lookup-insert k j w.next w.items) in
        let (x, found) = v.stored j p old in (x, ground (arith, v.allocated j p old))
  ]

  pub put-IsValid : IsValid (put k i w)
  put-IsValid = record {
    unique = insert-IsMap k w.next w.items v.unique;
    allocated = λ j p e. ground (arith, lookup-insert k j w.next w.items, v.allocated j p);
    stored = put_stored;
    owned = λ j l p e f. ground (
      arith,
      lookup-insert k j w.next w.items,
      lookup-insert k l w.next w.items,
      v.allocated j p,
      v.allocated l p,
      v.owned j l p,
      eq_iff k j,
      eq_iff k l,
    );
  }

  pub entry-put : (j : String) → entry (put k i w) j ≡ (if k == j then some i else entry w j)
  unfolding entry
  entry-put j = elim (Option-cases (lookup j w.items)) [
    | inl e ↦ ground (arith, lookup-insert k j w.next w.items)
    | inr (p, e) ↦ ground (arith, lookup-insert k j w.next w.items, v.allocated j p e)
  ]

module _ (f : Time → Time) (k : String) (p : ℕ) {w : World} (v : IsValid w) where
  write_stored :
      (q : ℕ) (i : MemoryItem)
      → w.heap q ≡ some i
      → (x : MemoryItem) × ((write_deadline f p w).heap q ≡ some x)
  unfolding write_deadline
  write_stored q i e = elim (Bool-cases (eqb p q)) [
    | inl same ↦ (record i { valid_until = f i.valid_until }, ground arith)
    | inr other ↦ (i, ground arith)
  ]

  pub write_deadline-IsValid : IsValid (write_deadline f p w)
  unfolding write_deadline
  write_deadline-IsValid = record {
    unique = v.unique;
    allocated = v.allocated;
    stored = λ j q e. let (i, found) = v.stored j q e in write_stored q i found;
    owned = v.owned;
  }

  pub entry-write_deadline :
      lookup k w.items ≡ some p
      → (j : String)
      → entry (write_deadline f p w) j ≡ (if k == j then touch f (entry w j) else entry w j)
  unfolding write_deadline entry
  entry-write_deadline e j = elim (Option-cases (lookup j w.items)) [
    | inl missing ↦ ground arith
    | inr (q, found) ↦ ground (arith, v.owned k j p e, eq_iff k j)
  ]
