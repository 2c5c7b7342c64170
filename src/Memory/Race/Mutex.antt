-- ===== src/Memory/Race/Mutex.antt =====
-- The mutex of cache/memory.go under concurrent callers: who holds it.
use cachefx.Prelude.{
  ℕ, ◌≡◌, refl, sym, ap, ◌∙◌, Bool, true, false, eqb, eqb_iff, arith, if◌then◌else◌, inl, inr,
  Bool-cases,
}
use cachefx.Memory.{World}
use cachefx.Memory.Race.{
  Pc, Move, System, Step, Steps, start, moved, set, set_or_fail, delete, read, lock, unlock, miss,
  hit, expired, remove, begin_sweep, cleanup, drain, return, pick, here, next, examining,
}

-- Does a goroutine hold the mutex between two steps?
abbrev pub holds : Pc → Bool
holds (examining o k t) = true
holds _ = false

-- What a step of one goroutine does to the mutex: nothing, take it, or give it back.
pub data Locks : Bool → Bool → Bool → Bool → Type 0 where
  apart : (l : Bool) → Locks l false l false
  takes : Locks false false true true
  gives : Locks true true false false

pub Move-Locks :
    {w u : World} {l m : Bool} {p q : Pc} → Move w l p u m q → Locks l (holds p) m (holds q)
Move-Locks (set k value opts) = apart false
Move-Locks (set_or_fail k value opts) = apart false
Move-Locks (delete k) = apart false
Move-Locks (read k) = apart false
Move-Locks (lock k opt opts) = takes
Move-Locks (unlock o k t) = gives
Move-Locks (miss l k) = apart l
Move-Locks (hit l k p e) = apart l
Move-Locks (expired l k p e) = apart l
Move-Locks (remove k p) = apart false
Move-Locks (begin_sweep l b) = apart l
Move-Locks (cleanup t) = apart false
Move-Locks (drain t) = apart false
Move-Locks (return l r) = apart l

-- The mutex is locked exactly while a goroutine holds it, and one goroutine at most does.
pub record IsMutex (locked : Bool) (held : ℕ → Bool) : Type 0 where
  pub locked_by : locked ≡ true → (i : ℕ) × (held i ≡ true)
  pub only_locked : (i : ℕ) → held i ≡ true → locked ≡ true
  pub single : (i j : ℕ) → held i ≡ true → held j ≡ true → i ≡ j

-- A step of the goroutine `i` keeps this so; `held'` says who holds the mutex behind it.
Locks-IsMutex :
    {l m a b : Bool} (held held' : ℕ → Bool) (i : ℕ)
    → Locks l a m b
    → held i ≡ a
    → ((j : ℕ) → held' j ≡ (if eqb i j then b else held j))
    → IsMutex l held
    → IsMutex m held'
Locks-IsMutex held held' i (apart l) e shown h = record {
  locked_by = λ locked.
      let (j, holder) = h.locked_by locked in
      elim (Bool-cases (eqb i j)) [
        | inl same ↦ absurd (ground (arith, e, holder, ap held ((eqb_iff i j).0 same)))
        | inr other ↦ (j, shown j ∙ rw other holder)
      ];
  only_locked = λ j holder. h.only_locked j (ground (arith, e, shown j, holder));
  single = λ j k p q. h.single j k (ground (arith, e, shown j, p)) (ground (arith, e, shown k, q));
}
Locks-IsMutex held held' i takes e shown h = record {
  locked_by = λ locked. (i, ground (arith, shown i));
  only_locked = λ j holder. refl;
  single = λ j k p q. sym (holder_is j p) ∙ holder_is k q;
}
  where
    holder_is : (j : ℕ) → held' j ≡ true → i ≡ j
    holder_is j p = elim (Bool-cases (eqb i j)) [
      | inl same ↦ (eqb_iff i j).0 same
      | inr other ↦
          let old : held j ≡ true = ground (arith, shown j, other, p) in
          absurd (ground (arith, h.only_locked j old))
    ]
Locks-IsMutex held held' i gives e shown h = record {
  locked_by = λ locked. absurd (ground (arith, locked));
  only_locked = λ j holder. elim (Bool-cases (eqb i j)) [
    | inl same ↦ absurd (ground (arith, shown j, same, holder))
    | inr other ↦
        let old : held j ≡ true = ground (arith, shown j, other, holder) in
        absurd (ground (arith, other, (eqb_iff i j).1 (h.single i j e old)))
  ];
  single = λ j k p q. h.single j k (ground (arith, e, shown j, p)) (ground (arith, e, shown k, q));
}

holds-moved :
    (f : ℕ → Pc) (i : ℕ) (q : Pc) (j : ℕ)
    → holds (moved f i q j) ≡ (if eqb i j then holds q else holds (f j))
holds-moved f i q j = elim (Bool-cases (eqb i j)) [
  | inl same ↦ rw same refl
  | inr other ↦ rw other refl
]

abbrev pub IsExclusive : System → Type 0
IsExclusive s = IsMutex s.locked (λ i. holds (s.pc i))

pub Step-IsExclusive : {s t : System} → Step s t → IsExclusive s → IsExclusive t
Step-IsExclusive {s} (pick i {p = q} m) h =
    Locks-IsMutex (λ j. holds (s.pc j)) (λ j. holds (moved s.pc i q j)) i (Move-Locks m) refl
      (holds-moved s.pc i q) h

-- However the goroutines interleave, the mutex is locked exactly while one of them holds it.
pub Steps-IsExclusive : {w : World} {s : System} → Steps (start w) s → IsExclusive s
Steps-IsExclusive here = record {
  locked_by = λ locked. absurd (ground (arith, locked));
  only_locked = λ i holder. absurd (ground (arith, holder));
  single = λ i j p q. absurd (ground (arith, p));
}
Steps-IsExclusive (next r x) = Step-IsExclusive x (Steps-IsExclusive r)
