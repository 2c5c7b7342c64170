-- ===== src/Memory/Spec/Answers.antt =====
-- What the reference Get answers in each of its cases.
use cachefx.Prelude.{
  ℕ, ◌+◌, ◌≤◌, String, ◌≡◌, ◌≢◌, refl, Bool, true, false, Option, none, some, List, [], ◌∷◌, arith,
  ◌==◌, eq_iff, if◌then◌else◌, Bool-cases, inl, inr,
}
use cachefx.Errors.{sentinel, err_key_not_found, Result, ok, err}
use cachefx.Options.{GetOption, GetOptions, no_get_options, apply_get}
use cachefx.Time.{Time, Clock, IsMonotonic, after_later, now}
use cachefx.Memory.{Bytes, MemoryItem, refresh}
use cachefx.Memory.Spec
use cachefx.Memory.Spec.{Store, has_passed, settle, amend, write, ticked}

abbrev pub not_found : Result Bytes
not_found = err (sentinel err_key_not_found)

-- A deadline that has passed has passed at every later reading.
pub has_passed_later :
    (i : MemoryItem) (c : Clock) (m n : ℕ)
    → IsMonotonic c
    → m ≤ n
    → has_passed i (c.at m) ≡ true
    → has_passed i (c.at n) ≡ true
unfolding has_passed
has_passed_later i c m n mono h e = ground (arith, after_later c m n i.valid_until mono h)

module _ (k : String) (i : MemoryItem) (s : Store) where
  pub settle_passed :
      has_passed i (now s.clock) ≡ true → settle k i s ≡ (not_found, write k none (ticked s))
  unfolding settle
  settle_passed e = rw e

  pub settle_current : has_passed i (now s.clock) ≡ false → settle k i s ≡ (ok i.value, ticked s)
  unfolding settle
  settle_current e = rw e

  pub plain_found : s.entries k ≡ some i → Spec.get k [] s ≡ settle k i s
  unfolding Spec.get
  plain_found e = rw (e, Spec.get)

  pub with_passed :
      (o : GetOptions)
      → s.entries k ≡ some i
      → has_passed i (now s.clock) ≡ true
      → Spec.get_with o k s ≡ settle k i (ticked s)
  unfolding Spec.get_with
  with_passed o e passed = rw (e, passed, Spec.get_with)

  pub with_current :
      (o : GetOptions)
      → s.entries k ≡ some i
      → has_passed i (now s.clock) ≡ false
      → Spec.get_with o k s ≡ amend o k i (now s.clock) (ticked s)
  unfolding Spec.get_with
  with_current o e current = rw (e, current, Spec.get_with)

-- A reply of the reference store that is "not found", with the key removed.
abbrev pub Gone : String → Store → Result Bytes × Store → Type 0
Gone k s (r, s') =
    (r ≡ not_found) × ((j : String) → s'.entries j ≡ (if k == j then none else s.entries j))

settle-Gone :
    (k : String) (i : MemoryItem) (s : Store)
    → has_passed i (now s.clock) ≡ true
    → Gone k s (settle k i s)
settle-Gone k i s e = rw (settle_passed k i s e) (refl, λ j. refl)

-- the reference Get at an expired entry
pub expired-Gone :
    (k : String) (opts : List GetOption) (i : MemoryItem) (s : Store)
    → IsMonotonic s.clock
    → s.entries k ≡ some i
    → has_passed i (now s.clock) ≡ true
    → Gone k s (Spec.get k opts s)
unfolding Spec.get
expired-Gone k [] i s mono e passed = rw (plain_found k i s e) (settle-Gone k i s passed)
expired-Gone k (opt ∷ opts) i s mono e passed =
    rw (with_passed k i s (apply_get (opt ∷ opts) no_get_options) e passed) (
      settle-Gone k i (ticked s)
        (has_passed_later i s.clock s.clock.reads (s.clock.reads + 1) mono (omega arith) passed))

pub not_found-ne-ok : (value : Bytes) → not_found ≢ ok value
not_found-ne-ok value e = cc

pub settle_reply :
    (k : String) (i : MemoryItem) (s : Store)
    → (settle k i s).0 ≡ (if has_passed i (now s.clock) then not_found else ok i.value)
unfolding settle
settle_reply k i s = ground arith

-- the entry whose value a reference Get returns
settle-live :
    (k : String) (i : MemoryItem) (s : Store) (value : Bytes)
    → (settle k i s).0 ≡ ok value
    → i.value ≡ value
unfolding settle
settle-live k i s value e = ground arith

amend-live :
    (o : GetOptions) (k : String) (i : MemoryItem) (t : Time) (s : Store) (value : Bytes)
    → (amend o k i t s).0 ≡ ok value
    → i.value ≡ value
unfolding amend refresh
amend-live o k i t s value e = elim (Bool-cases o.delete) [
  | inl del ↦ settle-live k i (write k none s) value (rw (del, amend) at e)
  | inr kept ↦
      let j : MemoryItem = record i { valid_until = refresh o s.ttl t i.valid_until } in
      settle-live k j (write k (some j) s) value (rw (kept, amend) at e)
]

-- An entry that a Get may return: it is there, with that value, and its deadline has not passed.
abbrev pub Serves : Option MemoryItem → Bytes → Time → Type 0
Serves o value t = (i : MemoryItem) × (o ≡ some i) × (i.value ≡ value) × (has_passed i t ≡ false)

pub get_with_missing :
    (k : String) (s : Store) (o : GetOptions)
    → s.entries k ≡ none
    → Spec.get_with o k s ≡ (not_found, ticked s)
unfolding Spec.get_with
get_with_missing k s o e = rw (e, Spec.get_with)

pub if_twice {ℓ} :
    {A : Type ℓ} (b : Bool) (x y : A)
    → (if b then x else (if b then x else y)) ≡ (if b then x else y)
if_twice true x y = refl
if_twice false x y = refl

-- An absent key can be removed once more.
pub erase_missing :
    (k j : String) (s : Store)
    → s.entries k ≡ none
    → s.entries j ≡ (if k == j then none else s.entries j)
erase_missing k j s e = elim (Bool-cases (k == j)) [
  | inl same ↦ rw (same, ← (eq_iff k j).0 same, e)
  | inr other ↦ rw other
]

pub get_missing :
    (k : String) (opts : List GetOption) (s : Store)
    → s.entries k ≡ none
    → (Spec.get k opts s).0 ≡ not_found
unfolding Spec.get Spec.get_with
get_missing k [] s e = rw (e, Spec.get)
get_missing k (opt ∷ opts) s e = rw (e, Spec.get_with)

pub get_live-value :
    (k : String) (opts : List GetOption) (i : MemoryItem) (s : Store) (value : Bytes)
    → s.entries k ≡ some i
    → has_passed i (now s.clock) ≡ false
    → (Spec.get k opts s).0 ≡ ok value
    → i.value ≡ value
unfolding Spec.get
get_live-value k [] i s value e current h = settle-live k i s value (rw (plain_found k i s e) at h)
get_live-value k (opt ∷ opts) i s value e current h =
    let o = apply_get (opt ∷ opts) no_get_options in
    amend-live o k i (now s.clock) (ticked s) value (rw (with_current k i s o e current) at h)
