-- ===== src/Memory/Race/Calm.antt =====
-- cache/memory.go under concurrent callers that only read and clean: Gets with no options, and Cleanups.
use cachefx.Prelude.{
  ℕ, ◌+◌, String, ◌≡◌, refl, ap, sym, ◌∙◌, subst, Bool, true, false, not, Option, none, some, arith,
  ◌==◌, eq_iff, eqb, eqb_iff, Bool-cases, Option-cases, inl, inr, ◌≤ℤ◌, ltb_ℤ, ltb_ℤ→lt, lt→ltb_ℤ,
}
use cachefx.Dict.{lookup, lookup-erase, lookup-retain}
use cachefx.Time.{Time, IsMonotonic, is_zero, now, tick}
use cachefx.Memory.{MemoryItem, World, evict, is_expired, sweep}
use cachefx.Memory.Valid.{IsValid, at_clock, drop}
use cachefx.Memory.Race.{
  Pc, Move, System, moved, set, set_or_fail, delete, read, lock, unlock, miss, hit, expired, remove,
  begin_sweep, cleanup, drain, return, idle, examining, fetched, stale, answered, sweeping,
}

-- Is it a step of a Get with no options or of a Cleanup?
abbrev pub is_calm : {w u : World} {l m : Bool} {p q : Pc} → Move w l p u m q → Bool
is_calm (set k value opts) = false
is_calm (set_or_fail k value opts) = false
is_calm (delete k) = false
is_calm (read k) = true
is_calm (lock k opt opts) = false
is_calm (unlock o k t) = false
is_calm (miss l k) = true
is_calm (hit l k p e) = true
is_calm (expired l k p e) = true
is_calm (remove k p) = true
is_calm (begin_sweep l b) = true
is_calm (cleanup t) = true
is_calm (drain t) = false
is_calm (return l r) = true

-- Any number of such steps of any goroutines.
pub data CalmSteps (s : System) : System → Type 0 where
  calm_here : CalmSteps s s
  calm_next :
      {t : System} (i : ℕ) {w : World} {l : Bool} {p : Pc}
      → CalmSteps s t
      → (m : Move t.world t.locked (t.pc i) w l p) → is_calm m ≡ true
      → CalmSteps s (record { world = w; locked = l; pc = moved t.pc i p })

-- What a goroutine has judged is so at the time `u` too.
abbrev pub Judged : World → Pc → Time → Type 0
Judged w (stale k p) u = is_expired (w.heap p) u ≡ true
Judged w (sweeping b t) u = t ≤ℤ u
Judged w idle u = Unit
Judged w (examining o k t) u = Unit
Judged w (fetched k p) u = Unit
Judged w (answered r) u = Unit

expired_later :
    (o : Option MemoryItem) (t u : Time) → t ≤ℤ u → is_expired o t ≡ true → is_expired o u ≡ true
unfolding is_expired
expired_later none t u le h = refl
expired_later (some i) t u le h = elim (Bool-cases (is_zero i.valid_until)) [
  | inl zero ↦ absurd (ground (arith, rw zero at h))
  | inr ends ↦
      let passed : ltb_ℤ i.valid_until t ≡ true = rw ends at h in
      rw ends (lt→ltb_ℤ i.valid_until u (omega (arith, ltb_ℤ→lt i.valid_until t passed, le)))
]

pub live_before :
    (o : Option MemoryItem) (t u : Time) → t ≤ℤ u → is_expired o u ≡ false → is_expired o t ≡ false
live_before o t u le h = elim (Bool-cases (is_expired o t)) [
  | inl passed ↦ absurd (ground (arith, h, expired_later o t u le passed))
  | inr live ↦ live
]

-- The time goes on, and no item is written.
pub record Goes (w u : World) : Type 0 where
  pub heap : u.heap ≡ w.heap
  pub at : u.clock.at ≡ w.clock.at
  pub time : now w.clock ≤ℤ now u.clock

-- What is live in the end is in the map as it was.
abbrev pub Spares : World → World → Type 0
Spares w u =
    (k : String) (p : ℕ)
    → lookup k w.items ≡ some p
    → is_expired (w.heap p) (now u.clock) ≡ false
    → lookup k u.items ≡ some p

pub same-Goes : (w u : World) → u.heap ≡ w.heap → u.clock ≡ w.clock → Goes w u
same-Goes w u h c = record {
  heap = h;
  at = ap (λ d. d.at) c;
  time = subst (λ d. now w.clock ≤ℤ now d) (sym c) (omega arith);
}

ticked-Goes : (w : World) → IsMonotonic w.clock → Goes w (at_clock (tick w.clock) w)
ticked-Goes w m = record {
  heap = refl;
  at = refl;
  time = m.mono w.clock.reads (w.clock.reads + 1) (omega arith);
}

pub Judged-later :
    {w u : World} (p : Pc) → Goes w u → Judged w p (now w.clock) → Judged u p (now u.clock)
Judged-later {w} {u} (stale k p) g h =
    subst (λ heap. is_expired (heap p) (now u.clock) ≡ true) (sym g.heap)
      (expired_later (w.heap p) (now w.clock) (now u.clock) g.time h)
Judged-later (sweeping b t) g h = omega (arith, g.time, h)
Judged-later idle g h = tt
Judged-later (examining o k t) g h = tt
Judged-later (fetched k p) g h = tt
Judged-later (answered r) g h = tt

evict-Goes : (k : String) (p : ℕ) (w : World) → Goes w (evict k p w)
unfolding evict
evict-Goes k p w = elim (Option-cases (lookup k w.items)) [
  | inl e ↦ rw (e, evict) (same-Goes w w refl refl)
  | inr (q, e) ↦ elim (Bool-cases (eqb q p)) [
    | inl same ↦ rw (e, same, evict) (same-Goes w _ refl refl)
    | inr other ↦ rw (e, other, evict) (same-Goes w w refl refl)
  ]
]

drop-Spares :
    (k : String) (p : ℕ) (w : World)
    → IsValid w
    → lookup k w.items ≡ some p
    → is_expired (w.heap p) (now w.clock) ≡ true
    → Spares w (drop k w)
drop-Spares k p w v e passed j q there live = elim (Bool-cases (k == j)) [
  | inl same ↦
      let one : some p ≡ some q =
        sym e ∙ ap (λ x. lookup x w.items) ((eq_iff k j).0 same) ∙ there in
      absurd (ground (arith, one, passed, live))
  | inr other ↦ lookup-erase k j w.items v.unique ∙ rw other there
]

evict-Spares :
    (k : String) (p : ℕ) (w : World)
    → IsValid w
    → is_expired (w.heap p) (now w.clock) ≡ true
    → Spares w (evict k p w)
unfolding evict
evict-Spares k p w v passed = elim (Option-cases (lookup k w.items)) [
  | inl e ↦ rw (e, evict) (λ j q there live. there)
  | inr (q, e) ↦ elim (Bool-cases (eqb q p)) [
    | inl same ↦
        rw (e, same, evict) (drop-Spares k p w v (e ∙ ap some ((eqb_iff q p).0 same)) passed)
    | inr other ↦ rw (e, other, evict) (λ j r there live. there)
  ]
]

sweep-Spares : (t : Time) (w : World) → IsValid w → t ≤ℤ now w.clock → Spares w (sweep t w)
unfolding sweep
sweep-Spares t w v le k p there live =
    let kept = live_before (w.heap p) t (now w.clock) le live in
    lookup-retain (λ p. not (is_expired (w.heap p) t)) k w.items v.unique ∙ rw (there, kept) refl

-- What a step of a Get with no options or of a Cleanup does.
pub record Calm (w u : World) (q : Pc) : Type 0 where
  pub goes : Goes w u
  pub spares : Spares w u
  pub judged : Judged u q (now u.clock)

pub Move-Calm :
    {w u : World} {l m : Bool} {p q : Pc} (move : Move w l p u m q)
    → is_calm move ≡ true
    → IsValid w
    → IsMonotonic w.clock
    → Judged w p (now w.clock)
    → Calm w u q
unfolding sweep
Move-Calm (set k value opts) calm v m h = absurd (ground (arith, calm))
Move-Calm (set_or_fail k value opts) calm v m h = absurd (ground (arith, calm))
Move-Calm (delete k) calm v m h = absurd (ground (arith, calm))
Move-Calm (lock k opt opts) calm v m h = absurd (ground (arith, calm))
Move-Calm (unlock o k t) calm v m h = absurd (ground (arith, calm))
Move-Calm (drain t) calm v m h = absurd (ground (arith, calm))
Move-Calm {w} (read k) calm v m h = record {
  goes = same-Goes w w refl refl;
  spares = λ j p there live. there;
  judged = tt;
}
Move-Calm {w} (miss l k) calm v m h = record {
  goes = same-Goes w w refl refl;
  spares = λ j p there live. there;
  judged = tt;
}
Move-Calm {w} (return l r) calm v m h = record {
  goes = same-Goes w w refl refl;
  spares = λ j p there live. there;
  judged = tt;
}
Move-Calm {w} (hit l k p e) calm v m h = record {
  goes = ticked-Goes w m;
  spares = λ j p there live. there;
  judged = tt;
}
Move-Calm {w} (expired l k p e) calm v m h = record {
  goes = ticked-Goes w m;
  spares = λ j p there live. there;
  judged = expired_later (w.heap p) (now w.clock) (now (tick w.clock)) (ticked-Goes w m).time e;
}
Move-Calm {w} (remove k p) calm v m h = record {
  goes = evict-Goes k p w;
  spares = evict-Spares k p w v h;
  judged = tt;
}
Move-Calm {w} (begin_sweep l b) calm v m h = record {
  goes = ticked-Goes w m;
  spares = λ j p there live. there;
  judged = (ticked-Goes w m).time;
}
Move-Calm {w} (cleanup t) calm v m h = record {
  goes = same-Goes w (sweep t w) refl refl;
  spares = sweep-Spares t w v h;
  judged = tt;
}

pub Goes-trans : {w u x : World} → Goes w u → Goes u x → Goes w x
Goes-trans a b = record {
  heap = b.heap ∙ a.heap;
  at = b.at ∙ a.at;
  time = omega (arith, a.time, b.time);
}

pub Spares-trans : {w u x : World} → Goes w u → Goes u x → Spares w u → Spares u x → Spares w x
Spares-trans {w} {u} {x} a b first second k p there live =
    let middle = live_before (w.heap p) (now u.clock) (now x.clock) b.time live in
    second k p (first k p there middle)
      (subst (λ heap. is_expired (heap p) (now x.clock) ≡ false) (sym a.heap) live)

pub Goes-IsMonotonic : {w u : World} → Goes w u → IsMonotonic w.clock → IsMonotonic u.clock
Goes-IsMonotonic g m = record {
  mono = λ i j le. subst (λ at. at i ≤ℤ at j) (sym g.at) (m.mono i j le);
}
