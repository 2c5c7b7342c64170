-- ===== src/Memory/Writes.antt =====
-- Every change that a method of cache/memory.go makes is a sequence of single writes. What holds
-- across each of these holds across the methods, however they are interleaved.
use cachefx.Prelude.{
  ℕ, ◌<◌, ◌≤◌, String, ◌≢◌, some, List, [], arith, eqb, Bool, Bool-cases, Option-cases, inl, inr,
}
use cachefx.Dict.{lookup, lookup-insert, lookup-erase, lookup-retain}
use cachefx.Options.{SetOption, GetOptions, apply}
use cachefx.Time.{Time, Clock, now, tick}
use cachefx.Memory
use cachefx.Memory.{
  Bytes, MemoryItem, World, default_options, is_expired, refresh, write_deadline, evict, examine,
  sweep,
}
use cachefx.Memory.Valid.{
  IsValid, put, drop, at_clock, keep, at_clock-IsValid, drop-IsValid, keep-IsValid, put-IsValid,
  write_deadline-IsValid,
}
use cachefx.Memory.Sweep.{empty-IsValid}

pub data Write (w : World) : World → Type 0 where
  clock : (c : Clock) → Write w (at_clock c w)
  insertion : (k : String) (i : MemoryItem) → Write w (put k i w)
  removal : (k : String) → Write w (drop k w)
  deadline : (f : Time → Time) (p : ℕ) → Write w (write_deadline f p w)
  filtering : (test : ℕ → Bool) → Write w (keep test w)
  clearing : Write w (record w { items = [] })

pub data Writes (w : World) : World → Type 0 where
  nothing : Writes w w
  after : {u v : World} → Writes w u → Write u v → Writes w v

Write-IsValid : {w u : World} → Write w u → IsValid w → IsValid u
Write-IsValid (clock c) v = at_clock-IsValid c v
Write-IsValid (insertion k i) v = put-IsValid k i v
Write-IsValid (removal k) v = drop-IsValid k v
Write-IsValid (deadline f p) v = write_deadline-IsValid f "" p v
Write-IsValid (filtering test) v = keep-IsValid test v
Write-IsValid {w} clearing v = empty-IsValid w

pub Writes-IsValid : {w u : World} → Writes w u → IsValid w → IsValid u
Writes-IsValid nothing v = v
Writes-IsValid (after ws x) v = Write-IsValid x (Writes-IsValid ws v)

-- `p` was allocated, and the map does not lead from `k` to it.
pub record Away (k : String) (p : ℕ) (w : World) : Type 0 where
  pub old : p < w.next
  pub elsewhere : lookup k w.items ≢ some p

Write-Away : {w u : World} (k : String) (p : ℕ) → Write w u → IsValid w → Away k p w → Away k p u
unfolding write_deadline lookup
Write-Away k p (clock c) v a = record { old = a.old; elsewhere = a.elsewhere }
Write-Away {w} k p (insertion j i) v a = record {
  old = omega (arith, a.old);
  elsewhere = λ e. ground (arith, lookup-insert j k w.next w.items, a.old, a.elsewhere);
}
Write-Away {w} k p (removal j) v a = record {
  old = a.old;
  elsewhere = λ e. ground (arith, lookup-erase j k w.items v.unique, a.elsewhere);
}
Write-Away k p (deadline f q) v a = record { old = a.old; elsewhere = a.elsewhere }
Write-Away {w} k p (filtering test) v a = record {
  old = a.old;
  elsewhere = λ e. ground (arith, lookup-retain test k w.items v.unique, a.elsewhere);
}
Write-Away k p clearing v a = record { old = a.old; elsewhere = λ e. cc }

-- Pointers do not come back: what the map does not lead to it never leads to again.
pub Writes-Away :
    {w u : World} (k : String) (p : ℕ) → Writes w u → IsValid w → Away k p w → Away k p u
Writes-Away k p nothing v a = a
Writes-Away k p (after ws x) v a = Write-Away k p x (Writes-IsValid ws v) (Writes-Away k p ws v a)

Write-next : {w u : World} → Write w u → w.next ≤ u.next
unfolding write_deadline
Write-next (clock c) = omega arith
Write-next (insertion j i) = omega arith
Write-next (removal j) = omega arith
Write-next (deadline f q) = omega arith
Write-next (filtering test) = omega arith
Write-next clearing = omega arith

pub Writes-next : {w u : World} → Writes w u → w.next ≤ u.next
Writes-next nothing = omega arith
Writes-next (after ws x) = omega (arith, Writes-next ws, Write-next x)

pub set-Writes :
    (k : String) (value : Bytes) (opts : List SetOption) (w : World)
    → Writes w (Memory.set k value opts w).1
unfolding Memory.set
set-Writes k value opts w =
    let (base, c) = default_options w.ttl w.clock in
    let (o, c') = apply opts base c in
    after (after nothing (clock c'))
      (insertion k (record { value = value; valid_until = o.valid_until }))

Writes-trans : {w u x : World} → Writes w u → Writes u x → Writes w x
Writes-trans a nothing = a
Writes-trans a (after b y) = after (Writes-trans a b) y

pub set_or_fail-Writes :
    (k : String) (value : Bytes) (opts : List SetOption) (w : World)
    → Writes w (Memory.set_or_fail k value opts w).1
unfolding Memory.set_or_fail Memory.set
set_or_fail-Writes k value opts w = elim (Option-cases (lookup k w.items)) [
  | inl e ↦ rw (e, Memory.set_or_fail) (set-Writes k value opts w)
  | inr (p, e) ↦
      let ticked = after nothing (clock (tick w.clock)) in
      elim (Bool-cases (is_expired (w.heap p) (now w.clock))) [
        | inl passed ↦
            rw (e, passed, Memory.set_or_fail)
              (Writes-trans ticked (set-Writes k value opts (at_clock (tick w.clock) w)))
        | inr live ↦ rw (e, live, Memory.set_or_fail) ticked
      ]
]

pub delete-Writes : (k : String) (w : World) → Writes w (Memory.delete k w).1
unfolding Memory.delete
delete-Writes k w = after nothing (removal k)

pub evict-Writes : (k : String) (p : ℕ) (w : World) → Writes w (evict k p w)
unfolding evict
evict-Writes k p w = elim (Option-cases (lookup k w.items)) [
  | inl e ↦ rw (e, evict) nothing
  | inr (q, e) ↦ elim (Bool-cases (eqb q p)) [
    | inl same ↦ rw (e, same, evict) (after nothing (removal k))
    | inr other ↦ rw (e, other, evict) nothing
  ]
]

pub examine-Writes :
    (o : GetOptions) (k : String) (t : Time) (w : World) → Writes w (examine o k t w).1
unfolding examine
examine-Writes o k t w = elim (Option-cases (lookup k w.items)) [
  | inl e ↦ rw (e, examine) nothing
  | inr (p, e) ↦ elim (Bool-cases (is_expired (w.heap p) t)) [
    | inl passed ↦ rw (e, passed, examine) nothing
    | inr live ↦ elim (Bool-cases o.delete) [
      | inl del ↦ rw (e, live, del, examine) (after nothing (removal k))
      | inr kept ↦ rw (e, live, kept, examine) (after nothing (deadline (refresh o w.ttl t) p))
    ]
  ]
]

pub sweep-Writes : (t : Time) (w : World) → Writes w (sweep t w)
unfolding sweep
sweep-Writes t w = after nothing (filtering _)
