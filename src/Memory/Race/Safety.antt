-- ===== src/Memory/Race/Safety.antt =====
-- What holds of cache/memory.go however its callers are interleaved.
use cachefx.Prelude.{
  ℕ, ◌<◌, String, ◌≡◌, ◌≢◌, sym, ap, ◌∙◌, Bool, false, Option, none, some, arith, eq_refl, eqb,
  eqb_iff, Bool-cases, Option-cases, inl, inr, List,
}
use cachefx.Dict.{lookup, lookup-insert}
use cachefx.Options.{SetOption, GetOptions}
use cachefx.Time.{Time}
use cachefx.Memory
use cachefx.Memory.{Bytes, World, evict, examine, is_expired}
use cachefx.Memory.Valid.{IsValid}
use cachefx.Memory.Refines.{set-Agrees}
use cachefx.Memory.Writes.{
  Writes, nothing, after, clock, clearing, Writes-IsValid, Away, Writes-Away, Writes-next,
  set-Writes, set_or_fail-Writes, delete-Writes, evict-Writes, examine-Writes, sweep-Writes,
}
use cachefx.Memory.Race.{
  Pc, Move, System, Step, Steps, start, moved, set, set_or_fail, delete, read, lock, unlock, miss,
  hit, expired, remove, begin_sweep, cleanup, drain, return, pick, here, next, fetched, stale,
}

pub Move-Writes : {w u : World} {l m : Bool} {p q : Pc} → Move w l p u m q → Writes w u
Move-Writes {w} (set k value opts) = set-Writes k value opts w
Move-Writes {w} (set_or_fail k value opts) = set_or_fail-Writes k value opts w
Move-Writes {w} (delete k) = delete-Writes k w
Move-Writes (read k) = nothing
Move-Writes {w} (lock k opt opts) = after nothing (clock _)
Move-Writes {w} (unlock o k t) = examine-Writes o k t w
Move-Writes (miss l k) = nothing
Move-Writes (hit l k p e) = after nothing (clock _)
Move-Writes (expired l k p e) = after nothing (clock _)
Move-Writes {w} (remove k p) = evict-Writes k p w
Move-Writes (begin_sweep l b) = after nothing (clock _)
Move-Writes {w} (cleanup t) = sweep-Writes t w
Move-Writes {w} (drain t) = after (sweep-Writes t w) clearing
Move-Writes (return l r) = nothing

Writes-trans : {w u x : World} → Writes w u → Writes u x → Writes w x
Writes-trans a nothing = a
Writes-trans a (after b y) = after (Writes-trans a b) y

Step-Writes : {s t : System} → Step s t → Writes s.world t.world
Step-Writes (pick i m) = Move-Writes m

Steps-Writes : {s t : System} → Steps s t → Writes s.world t.world
Steps-Writes here = nothing
Steps-Writes (next r x) = Writes-trans (Steps-Writes r) (Step-Writes x)

-- The pointer that a goroutine is about to act on.
abbrev pointer : Pc → Option ℕ
pointer (fetched k p) = p
pointer (stale k p) = some p
pointer _ = none

none-ne-some : {p : ℕ} → ◌≢◌ {A = Option ℕ} none (some p)
none-ne-some e = cc

abbrev IsBounded : ℕ → Pc → Type 0
IsBounded n pc = (p : ℕ) → pointer pc ≡ some p → p < n

examine_found :
    (o : GetOptions) (k : String) (t : Time) (w : World) → (examine o k t w).0 ≡ lookup k w.items
unfolding examine
examine_found o k t w = elim (Option-cases (lookup k w.items)) [
  | inl e ↦ rw (e, examine)
  | inr (p, e) ↦ elim (Bool-cases (is_expired (w.heap p) t)) [
    | inl passed ↦ rw (e, passed, examine)
    | inr live ↦ elim (Bool-cases o.delete) [
      | inl del ↦ rw (e, live, del, examine)
      | inr kept ↦ rw (e, live, kept, examine)
    ]
  ]
]

Move-IsBounded :
    {w u : World} {l m : Bool} {p q : Pc}
    → Move w l p u m q
    → IsValid w
    → IsBounded w.next p
    → IsBounded u.next q
Move-IsBounded (set k value opts) v b = λ p e. absurd (none-ne-some e)
Move-IsBounded (set_or_fail k value opts) v b = λ p e. absurd (none-ne-some e)
Move-IsBounded (delete k) v b = λ p e. absurd (none-ne-some e)
Move-IsBounded (read k) v b = λ p e. v.allocated k p e
Move-IsBounded (lock k opt opts) v b = λ p e. absurd (none-ne-some e)
Move-IsBounded {w} (unlock o k t) v b = λ p e.
    let old = v.allocated k p (sym (examine_found o k t w) ∙ e) in
    omega (arith, old, Writes-next (examine-Writes o k t w))
Move-IsBounded (miss l k) v b = λ p e. absurd (none-ne-some e)
Move-IsBounded (hit l k p e) v b = λ p e. absurd (none-ne-some e)
Move-IsBounded (expired l k p e) v b = b
Move-IsBounded (remove k p) v b = λ p e. absurd (none-ne-some e)
Move-IsBounded (begin_sweep l c) v b = λ p e. absurd (none-ne-some e)
Move-IsBounded (cleanup t) v b = λ p e. absurd (none-ne-some e)
Move-IsBounded (drain t) v b = λ p e. absurd (none-ne-some e)
Move-IsBounded (return l r) v b = λ p e. absurd (none-ne-some e)

record Inv (s : System) : Type 0 where
  valid : IsValid s.world
  bounded : (i : ℕ) → IsBounded s.world.next (s.pc i)

moved-IsBounded :
    (n : ℕ) (f : ℕ → Pc) (i j : ℕ) (q : Pc)
    → IsBounded n q
    → IsBounded n (f j)
    → IsBounded n (moved f i q j)
moved-IsBounded n f i j q new old = elim (Bool-cases (eqb i j)) [
  | inl same ↦ rw same new
  | inr other ↦ rw other old
]

Step-Inv : {s t : System} → Step s t → Inv s → Inv t
Step-Inv {s} (pick i {p = q} m) h = record {
  valid = Writes-IsValid (Move-Writes m) h.valid;
  bounded = λ j.
      moved-IsBounded _ s.pc i j q (Move-IsBounded m h.valid (h.bounded i))
        (λ p e. omega (arith, h.bounded j p e, Writes-next (Move-Writes m)));
}

Steps-Inv : {s t : System} → Steps s t → Inv s → Inv t
Steps-Inv here h = h
Steps-Inv (next r x) h = Step-Inv x (Steps-Inv r h)

start-Inv : {w : World} → IsValid w → Inv (start w)
start-Inv v = record { valid = v; bounded = λ i p e. absurd (none-ne-some e) }

-- a removal of what the map does not lead to
evict-Away : {k : String} {p : ℕ} (w : World) → Away k p w → evict k p w ≡ w
unfolding evict
evict-Away {k} {p} w a = elim (Option-cases (lookup k w.items)) [
  | inl e ↦ rw (e, evict)
  | inr (q, e) ↦ elim (Bool-cases (eqb q p)) [
    | inl same ↦ absurd (a.elsewhere (e ∙ ap some ((eqb_iff q p).0 same)))
    | inr other ↦ rw (e, other, evict)
  ]
]

set-Away :
    (k : String) (value : Bytes) (opts : List SetOption) (p : ℕ) (w : World)
    → p < w.next
    → Away k p (Memory.set k value opts w).1
unfolding Memory.set
set-Away k value opts p w h = record {
  old = omega (arith, h);
  elsewhere = λ e. ground (arith, lookup-insert k k w.next w.items, eq_refl k);
}

-- A goroutine has read an item of a key and judged it expired. If then any goroutine sets the key,
-- and any goroutines take any steps, the removal by the first changes nothing: it never takes away
-- what was stored in between.
pub removal_spares_set :
    {w : World} {s t : System} (i p : ℕ) (k : String) (value : Bytes) (opts : List SetOption)
    (pcs : ℕ → Pc)
    → IsValid w
    → Steps (start w) s
    → s.pc i ≡ stale k p
    → Steps (record { world = (Memory.set k value opts s.world).1; locked = false; pc = pcs }) t
    → evict k p t.world ≡ t.world
removal_spares_set {s} {t} i p k value opts pcs v r at_removal later =
    let inv = Steps-Inv r (start-Inv v) in
    let old = inv.bounded i p (ap pointer at_removal) in
    evict-Away t.world (
      Writes-Away k p (Steps-Writes later) ((set-Agrees k value opts inv.valid).valid)
        (set-Away k value opts p s.world old))
