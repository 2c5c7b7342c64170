-- ===== src/Memory/Race/Ending.antt =====
-- The calls in progress on cache/memory.go under concurrent callers: the steps that they have left.
use cachefx.Prelude.{
  ℕ, zero, suc, ◌+◌, ◌*◌, ◌≤◌, ◌<◌, ◌≡◌, refl, ap, ◌∙◌, Bool, true, false, eqb, eqb_iff, arith, inl,
  inr, Bool-cases,
}
use cachefx.Memory.{World}
use cachefx.Memory.Race.{
  Pc, Move, System, Step, moved, set, set_or_fail, delete, read, lock, unlock, miss, hit, expired,
  remove, begin_sweep, cleanup, drain, return, pick, idle, examining, fetched, stale, answered,
  sweeping,
}
use cachefx.Memory.Race.Mutex.{IsExclusive, Step-IsExclusive}

-- How many steps a call has left at most.
abbrev pub left : Pc → ℕ
left idle = 0
left (examining o k t) = 4
left (fetched k p) = 3
left (stale k p) = 2
left (answered r) = 1
left (sweeping b t) = 1

abbrev pub is_idle : Pc → Bool
is_idle idle = true
is_idle _ = false

-- the steps that the first `n` goroutines have left at most
abbrev pub total : ℕ → (ℕ → Pc) → ℕ
total zero f = 0
total (suc n) f = left (f n) + total n f

-- A step of one of the first `n` goroutines that goes on with a call.
pub data Continue (n : ℕ) (s : System) : System → Type 0 where
  resume :
      (i : ℕ) {w : World} {l : Bool} {p : Pc}
      → i < n
      → is_idle (s.pc i) ≡ false
      → Move s.world s.locked (s.pc i) w l p
      → Continue n s (record { world = w; locked = l; pc = moved s.pc i p })

-- A run of such steps, and their number.
pub data Run (n : ℕ) (s : System) : ℕ → System → Type 0 where
  begin : Run n s 0 s
  more : {k : ℕ} {t u : System} → Run n s k t → Continue n t u → Run n s (suc k) u

-- Only the first `n` goroutines are in a call.
abbrev pub IsQuiet : ℕ → System → Type 0
IsQuiet n s = (i : ℕ) → n ≤ i → s.pc i ≡ idle

Move-left :
    {w u : World} {l m : Bool} {p q : Pc} → Move w l p u m q → is_idle p ≡ false → left q < left p
Move-left (set k value opts) busy = absurd (ground (arith, busy))
Move-left (set_or_fail k value opts) busy = absurd (ground (arith, busy))
Move-left (delete k) busy = absurd (ground (arith, busy))
Move-left (read k) busy = absurd (ground (arith, busy))
Move-left (lock k opt opts) busy = absurd (ground (arith, busy))
Move-left (unlock o k t) busy = omega arith
Move-left (miss l k) busy = omega arith
Move-left (hit l k p e) busy = omega arith
Move-left (expired l k p e) busy = omega arith
Move-left (remove k p) busy = omega arith
Move-left (begin_sweep l b) busy = absurd (ground (arith, busy))
Move-left (cleanup t) busy = omega arith
Move-left (drain t) busy = omega arith
Move-left (return l r) busy = omega arith

moved_other : (f : ℕ → Pc) (i j : ℕ) (q : Pc) → eqb i j ≡ false → moved f i q j ≡ f j
moved_other f i j q h = rw h refl

moved_self : (f : ℕ → Pc) (i : ℕ) (q : Pc) → moved f i q i ≡ q
moved_self f i q = rw ((eqb_iff i i).1 refl) refl

total_above : (n i : ℕ) (f : ℕ → Pc) (q : Pc) → n ≤ i → total n (moved f i q) ≡ total n f
total_above zero i f q h = refl
total_above (suc n) i f q h =
    let same : moved f i q n ≡ f n = moved_other f i n q (ground arith) in
    omega (arith, ap left same, total_above n i f q)

-- A step of one goroutine changes its share of the total.
total-moved :
    (n i : ℕ) (f : ℕ → Pc) (q : Pc)
    → i < n
    → total n (moved f i q) + left (f i) ≡ total n f + left q
total-moved zero i f q h = absurd (omega arith)
total-moved (suc n) i f q h = elim (Bool-cases (eqb i n)) [
  | inl same ↦
      let e : i ≡ n = (eqb_iff i n).0 same in
      let own : moved f i q n ≡ q = rw same refl in
      omega (arith, ap left own, ap (λ j. left (f j)) e, total_above n i f q (omega (arith, e)))
  | inr other ↦
      let same : moved f i q n ≡ f n = moved_other f i n q other in
      omega (arith, ap left same, total-moved n i f q (ground (arith, other)))
]

Continue-total : {n : ℕ} {s t : System} → Continue n s t → total n t.pc < total n s.pc
Continue-total {n} {s} (resume i {p = p} below busy m) =
    omega (arith, total-moved n i s.pc p below, Move-left m busy)

pub Run-total :
    {n : ℕ} {s : System} {k : ℕ} {t : System} → Run n s k t → k + total n t.pc ≤ total n s.pc
Run-total begin = omega arith
Run-total (more r c) = omega (arith, Run-total r, Continue-total c)

pub total-le : (n : ℕ) (f : ℕ → Pc) → total n f ≤ 4 * n
total-le zero f = omega arith
total-le (suc n) f = omega (arith, left-le (f n), total-le n f)
  where
    left-le : (p : Pc) → left p ≤ 4
    left-le idle = omega arith
    left-le (examining o k t) = omega arith
    left-le (fetched k p) = omega arith
    left-le (stale k p) = omega arith
    left-le (answered r) = omega arith
    left-le (sweeping b t) = omega arith

Continue-Step : {n : ℕ} {s t : System} → Continue n s t → Step s t
Continue-Step (resume i below busy m) = pick i m

pub Run-IsExclusive :
    {n : ℕ} {s : System} {k : ℕ} {t : System} → Run n s k t → IsExclusive s → IsExclusive t
Run-IsExclusive begin h = h
Run-IsExclusive (more r c) h = Step-IsExclusive (Continue-Step c) (Run-IsExclusive r h)

pub Run-IsQuiet :
    {n : ℕ} {s : System} {k : ℕ} {t : System} → Run n s k t → IsQuiet n s → IsQuiet n t
Run-IsQuiet begin h = h
Run-IsQuiet {n} (more {t = t} r (resume i {p = p} below busy m)) h = λ j above.
    let other : eqb i j ≡ false = ground arith in
    moved_other t.pc i j p other ∙ Run-IsQuiet r h j above
