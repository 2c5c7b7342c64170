-- ===== src/Factory/Swept.antt =====
-- factory.go over the caches of cache/memory.go: what the Cleanup of one of them does.
use cachefx.Prelude.{
  ℕ, ◌+◌, ◌≤◌, ◌≤ℤ◌, String, ◌≡◌, refl, ap, sym, ◌∙◌, subst, false, Option, none, some, arith, eqb,
  eqb_iff, if◌then◌else◌, Bool-cases, inl, inr,
}
use cachefx.Time.{Time, Clock, IsMonotonic, now, after_later}
use cachefx.Memory
use cachefx.Memory.{World, MemoryItem}
use cachefx.Memory.Valid.{IsValid, entry, at_clock, at_clock-IsValid}
use cachefx.Memory.Spec.{has_passed, live_at}
use cachefx.Memory.Removal.{cleanup_lem}
use cachefx.Factory.Backend.{Memories, on}

-- The entry of the memory cache at an address.
abbrev pub holding : Memories → ℕ → String → Option MemoryItem
holding m a k = entry (m.caches a) k

abbrev pub AllValid : Memories → Type 0
AllValid m = (a : ℕ) → IsValid (m.caches a)

-- What the Cleanup of memory caches does at most: entries go, but none whose deadline is still ahead
-- in the end, and the clock goes on.
pub record Swept (m m' : Memories) : Type 0 where
  pub kept :
      (a : ℕ) (k : String) (i : MemoryItem)
      → holding m a k ≡ some i
      → has_passed i (now m'.clock) ≡ false
      → holding m' a k ≡ some i
  pub old : (a : ℕ) (k : String) (i : MemoryItem) → holding m' a k ≡ some i → holding m a k ≡ some i
  pub same_clock : m'.clock.at ≡ m.clock.at
  pub later : m.clock.reads ≤ m'.clock.reads
  pub valid : AllValid m'

pub passed_later :
    (c : Clock) (j j' : ℕ) (i : MemoryItem)
    → IsMonotonic c
    → j ≤ j'
    → has_passed i (c.at j') ≡ false
    → has_passed i (c.at j) ≡ false
unfolding has_passed
passed_later c j j' i mono h ahead = ground (arith, ahead, after_later c j j' i.valid_until mono h)

pub on-holding :
    (a b : ℕ) (k : String) (m : Memories)
    → AllValid m
    → holding (on a Memory.cleanup m).1 b k
      ≡ (if eqb a b then live_at (now m.clock) (holding m b k) else holding m b k)
unfolding on entry
on-holding a b k m v = elim (Bool-cases (eqb a b)) [
  | inl same ↦ rw same (
      subst
        (λ d.
          entry (Memory.cleanup (at_clock m.clock (m.caches a))).1 k
          ≡ live_at (now m.clock) (holding m d k))
        ((eqb_iff a b).0 same) ((cleanup_lem (at_clock-IsValid m.clock (v a))).1 k))
  | inr other ↦ rw other refl
]

live_at-some : (t : Time) (i : MemoryItem) → has_passed i t ≡ false → live_at t (some i) ≡ some i
live_at-some t i ahead = rw ahead refl

some-live_at :
    (t : Time) (o : Option MemoryItem) (i : MemoryItem)
    → live_at t o ≡ some i
    → (o ≡ some i) × (has_passed i t ≡ false)
some-live_at t none i h = absurd (ground (arith, h))
some-live_at t (some j) i h = elim (Bool-cases (has_passed j t)) [
  | inl passed ↦ absurd (ground (arith, rw passed at h))
  | inr ahead ↦
      let same : some j ≡ some i = sym (live_at-some t j ahead) ∙ h in
      (same, ground (arith, same, ahead))
]

pub IsMonotonic-still : (c d : Clock) → d.at ≡ c.at → IsMonotonic c → IsMonotonic d
IsMonotonic-still c d same mono = record {
  mono = subst (λ f. (i j : ℕ) → i ≤ j → f i ≤ℤ f j) (sym same) mono.mono;
}

module _ (a : ℕ) (m : Memories) (v : AllValid m) where
  pub on-valid : AllValid (on a Memory.cleanup m).1
  unfolding on
  on-valid b = elim (Bool-cases (eqb a b)) [
    | inl same ↦ rw same (cleanup_lem (at_clock-IsValid m.clock (v a))).2
    | inr other ↦ rw other (v b)
  ]

  pub on-Swept : IsMonotonic m.clock → Swept m (on a Memory.cleanup m).1
  unfolding on Memory.cleanup
  on-Swept mono = record {
    kept = λ b k i there ahead.
        let ahead_now =
          passed_later m.clock m.clock.reads (m.clock.reads + 1) i mono (omega arith) ahead in
        on-holding a b k m v
        ∙ rw there (elim (Bool-cases (eqb a b)) [
          | inl same ↦ rw (same, ahead_now) refl
          | inr other ↦ rw other refl
        ]);
    old = λ b k i there. elim (Bool-cases (eqb a b)) [
      | inl same ↦
          (some-live_at (now m.clock) (holding m b k) i
            (rw same at (sym (on-holding a b k m v) ∙ there))).0
      | inr other ↦ rw other at (sym (on-holding a b k m v) ∙ there)
    ];
    same_clock = refl;
    later = omega arith;
    valid = on-valid;
  }

-- No entry of the cache at the address `a` has a deadline that had passed at `t`.
abbrev pub Fresh : Memories → ℕ → Time → Type 0
Fresh m a t = (k : String) (i : MemoryItem) → holding m a k ≡ some i → has_passed i t ≡ false

pub on-Fresh : (a : ℕ) (m : Memories) → AllValid m → Fresh (on a Memory.cleanup m).1 a (now m.clock)
on-Fresh a m v k i there =
    (some-live_at (now m.clock) (holding m a k) i
      (rw ((eqb_iff a a).1 refl) at (sym (on-holding a a k m v) ∙ there))).1

pub Swept-trans : (m m1 m2 : Memories) → IsMonotonic m.clock → Swept m m1 → Swept m1 m2 → Swept m m2
Swept-trans m m1 m2 mono x y = record {
  kept = λ a k i there ahead.
      let mono1 = IsMonotonic-still m.clock m1.clock x.same_clock mono in
      let ahead1 : has_passed i (m1.clock.at m2.clock.reads) ≡ false =
        ap (λ f. has_passed i (f m2.clock.reads)) (sym y.same_clock) ∙ ahead in
      y.kept a k i
        (x.kept a k i there
          (passed_later m1.clock m1.clock.reads m2.clock.reads i mono1 y.later ahead1))
        ahead;
  old = λ a k i there. x.old a k i (y.old a k i there);
  same_clock = y.same_clock ∙ x.same_clock;
  later = omega (arith, x.later, y.later);
  valid = y.valid;
}
