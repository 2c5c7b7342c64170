-- ===== src/Memory/Race/Progress.antt =====
-- The calls in progress on cache/memory.go under concurrent callers: none waits for ever.
use cachefx.Prelude.{
  ℕ, zero, suc, ◌*◌, ◌≤◌, ◌<◌, ◌≡◌, refl, sym, ap, ◌∙◌, Bool, true, false, none, some, eqb, eqb_iff,
  arith, ◌⊎◌, inl, inr, Bool-cases, subst, ltb,
}
use cachefx.Time.{now}
use cachefx.Memory.{World, is_expired}
use cachefx.Memory.Race.{
  Pc, Move, System, Steps, start, unlock, miss, hit, expired, remove, cleanup, drain, return, idle,
  examining, fetched, stale, answered, sweeping,
}
use cachefx.Memory.Race.Mutex.{holds, IsExclusive, Steps-IsExclusive}
use cachefx.Memory.Race.Ending.{
  is_idle, Continue, resume, Run, IsQuiet, Run-total, total-le, Run-IsExclusive, Run-IsQuiet,
}

-- A goroutine at `p` can take a step.
abbrev CanMove : World → Bool → Pc → Type 0
CanMove w l p = (u : World) × (m : Bool) × (q : Pc) × Move w l p u m q

-- The one that holds the mutex can, and so can any that is in a call while the mutex is free.
holder-CanMove : (w : World) (p : Pc) → holds p ≡ true → CanMove w true p
holder-CanMove w idle h = absurd (ground (arith, h))
holder-CanMove w (examining o k t) h = (_, _, _, unlock o k t)
holder-CanMove w (fetched k p) h = absurd (ground (arith, h))
holder-CanMove w (stale k p) h = absurd (ground (arith, h))
holder-CanMove w (answered r) h = absurd (ground (arith, h))
holder-CanMove w (sweeping b t) h = absurd (ground (arith, h))

free-CanMove : (w : World) (p : Pc) → is_idle p ≡ false → holds p ≡ false → CanMove w false p
free-CanMove w idle busy h = absurd (ground (arith, busy))
free-CanMove w (examining o k t) busy h = absurd (ground (arith, h))
free-CanMove w (fetched k none) busy h = (_, _, _, miss false k)
free-CanMove w (fetched k (some p)) busy h =
    elim (Bool-cases (is_expired (w.heap p) (now w.clock))) [
      | inl passed ↦ (_, _, _, expired false k p passed)
      | inr current ↦ (_, _, _, hit false k p current)
    ]
free-CanMove w (stale k p) busy h = (_, _, _, remove k p)
free-CanMove w (answered r) busy h = (_, _, _, return false r)
free-CanMove w (sweeping false t) busy h = (_, _, _, cleanup t)
free-CanMove w (sweeping true t) busy h = (_, _, _, drain t)

busy_holder : (p : Pc) → holds p ≡ true → is_idle p ≡ false
busy_holder idle h = absurd (ground (arith, h))
busy_holder (examining o k t) h = refl
busy_holder (fetched k p) h = refl
busy_holder (stale k p) h = refl
busy_holder (answered r) h = refl
busy_holder (sweeping b t) h = refl

idle_busy : {p : Pc} → p ≡ idle → is_idle p ≡ false → ⊥
idle_busy e busy = ground (arith, ap is_idle e, busy)

-- Only the first `n` goroutines are busy.
busy_below : (n : ℕ) (s : System) (i : ℕ) → IsQuiet n s → is_idle (s.pc i) ≡ false → i < n
busy_below n s i quiet busy = elim (Bool-cases (ltb i n)) [
  | inl below ↦ ground (arith, below)
  | inr above ↦ absurd (idle_busy (quiet i (ground (arith, above))) busy)
]

resumed :
    (n : ℕ) (s : System) (i : ℕ)
    → i < n
    → is_idle (s.pc i) ≡ false
    → CanMove s.world s.locked (s.pc i)
    → (u : System) × Continue n s u
resumed n s i below busy (w, l, p, m) = (_, resume i below busy m)

-- While a goroutine is in a call, one that is can go on: that one, or the one it waits for.
progress :
    (n : ℕ) (s : System) (i : ℕ)
    → IsExclusive s
    → IsQuiet n s
    → is_idle (s.pc i) ≡ false
    → (u : System) × Continue n s u
progress n s i h quiet busy = elim (Bool-cases s.locked) [
  | inl locked ↦
      let (j, holder) = h.locked_by locked in
      let busy_j = busy_holder (s.pc j) holder in
      resumed n s j (busy_below n s j quiet busy_j) busy_j (
        subst (λ l. CanMove s.world l (s.pc j)) (sym locked)
          (holder-CanMove s.world (s.pc j) holder))
  | inr free ↦ elim (Bool-cases (holds (s.pc i))) [
    | inl holder ↦ absurd (ground (arith, free, h.only_locked i holder))
    | inr waits ↦ resumed n s i (busy_below n s i quiet busy) busy (
        subst (λ l. CanMove s.world l (s.pc i)) (sym free)
          (free-CanMove s.world (s.pc i) busy waits))
  ]
]

idle_pc : (p : Pc) → is_idle p ≡ true → p ≡ idle
idle_pc idle h = refl
idle_pc (examining o k t) h = absurd (ground (arith, h))
idle_pc (fetched k p) h = absurd (ground (arith, h))
idle_pc (stale k p) h = absurd (ground (arith, h))
idle_pc (answered r) h = absurd (ground (arith, h))
idle_pc (sweeping b t) h = absurd (ground (arith, h))

abbrev Idle : (ℕ → Pc) → ℕ → Type 0
Idle f n = (i : ℕ) → i < n → f i ≡ idle

Idle-suc : (n : ℕ) (f : ℕ → Pc) → Idle f n → f n ≡ idle → Idle f (suc n)
Idle-suc n f h e i below = elim (Bool-cases (eqb i n)) [
  | inl same ↦ ap f ((eqb_iff i n).0 same) ∙ e
  | inr other ↦ h i (ground (arith, other))
]

-- the first `n` are idle, or one of them is not
find_busy : (n : ℕ) (f : ℕ → Pc) → Idle f n ⊎ ((i : ℕ) × (is_idle (f i) ≡ false))
find_busy zero f = inl (λ i below. absurd (omega arith))
find_busy (suc n) f = elim (Bool-cases (is_idle (f n))) [
  | inl done ↦ elim (find_busy n f) [
    | inl h ↦ inl (Idle-suc n f h (idle_pc (f n) done))
    | inr b ↦ inr b
  ]
  | inr busy ↦ inr (n, busy)
]

-- However `n` goroutines have interleaved their calls so far, the calls that they are in end: a run of
-- steps that go on with a call has at most four steps for each goroutine, and behind any such run all
-- goroutines are idle or there is one more such step.
pub calls_end :
    (n : ℕ) {w : World} {s : System} {k : ℕ} {t : System}
    → Steps (start w) s
    → IsQuiet n s
    → Run n s k t
    → (k ≤ 4 * n) × (((i : ℕ) → t.pc i ≡ idle) ⊎ ((u : System) × Continue n t u))
calls_end n {s = s} {t = t} steps quiet r = (
  omega (arith, Run-total r, total-le n s.pc),
  elim (find_busy n t.pc) [
    | inl idle_below ↦ inl (λ i. elim (Bool-cases (ltb i n)) [
      | inl below ↦ idle_below i (ground (arith, below))
      | inr above ↦ Run-IsQuiet r quiet i (ground (arith, above))
    ])
    | inr (i, busy) ↦
        inr
          (progress n t i (Run-IsExclusive r (Steps-IsExclusive steps)) (Run-IsQuiet r quiet) busy)
  ],
)
