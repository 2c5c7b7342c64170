-- ===== src/Factory/Evicting.antt =====
-- factory.go over the caches of cache/memory.go: what a sweep leaves in them.
use cachefx.Prelude.{
  ℕ, ◌≡◌, refl, ap, sym, ◌∙◌, subst, true, false, ◌&&◌, Option, some, List, [], ◌∷◌, arith,
}
use cachefx.Errors.{succeeds, Status}
use cachefx.Time.{Time, IsMonotonic, now}
use cachefx.Memory
use cachefx.Memory.{World, MemoryItem}
use cachefx.Memory.Valid.{at_clock-IsValid}
use cachefx.Memory.Spec.{has_passed}
use cachefx.Memory.Removal.{cleanup_lem}
use cachefx.Factory
use cachefx.Factory.{Tracked, Wrapper, Program, Factory}
use cachefx.Factory.Backend.{Memories, memory_at, on}
use cachefx.Factory.Sweep.{cleaned, all_succeed, cleanup_all_lem}
use cachefx.Factory.Swept.{
  AllValid, Swept, Fresh, passed_later, IsMonotonic-still, on-Swept, on-Fresh, Swept-trans,
}

-- Every entry of the list stands for a wrapper of a memory cache.
abbrev pub AllInMemory : List Tracked → (ℕ → Option (Wrapper Memories)) → Type 0
AllInMemory [] wrappers = Unit
AllInMemory (c ∷ caches) wrappers =
    ((a : ℕ) × (t : ℕ) × (wrappers c.cache ≡ some (record { inner = memory_at a; tracker = t })))
    × AllInMemory caches wrappers

-- No cache of the list holds an entry whose deadline had passed at `t`.
abbrev pub AllFresh :
    (caches : List Tracked) (wrappers : ℕ → Option (Wrapper Memories))
    → AllInMemory caches wrappers
    → Time
    → Memories
    → Type 0
AllFresh [] wrappers h t m = Unit
AllFresh (c ∷ caches) wrappers h t m = Fresh m h.0.0 t × AllFresh caches wrappers h.1 t m

cleanup_eq :
    (c a t : ℕ) (p : Program Memories)
    → p.wrappers c ≡ some (record { inner = memory_at a; tracker = t })
    → Factory.cleanup c p
      ≡ ((on a Memory.cleanup p.inner).0, record p { inner = (on a Memory.cleanup p.inner).1 })
unfolding Factory.cleanup
cleanup_eq c a t p found = rw (found, Factory.cleanup) refl

on_succeeds : (a : ℕ) (m : Memories) → AllValid m → succeeds (on a Memory.cleanup m).0 ≡ true
unfolding on
on_succeeds a m v = ap succeeds (cleanup_lem (at_clock-IsValid m.clock (v a))).0

AllFresh-earlier :
    (caches : List Tracked) (wrappers : ℕ → Option (Wrapper Memories))
    (h : AllInMemory caches wrappers) (t t' : Time) (m : Memories)
    → ((i : MemoryItem) → has_passed i t' ≡ false → has_passed i t ≡ false)
    → AllFresh caches wrappers h t' m
    → AllFresh caches wrappers h t m
AllFresh-earlier [] wrappers h t t' m earlier fresh = tt
AllFresh-earlier (c ∷ caches) wrappers h t t' m earlier fresh = (
  λ k i there. earlier i (fresh.0 k i there),
  AllFresh-earlier caches wrappers h.1 t t' m earlier fresh.1,
)

-- What the Cleanup of a list of memory caches does.
abbrev pub Evicts :
    (caches : List Tracked) (p : Program Memories)
    → AllInMemory caches p.wrappers
    → Program Memories
    → Type 0
Evicts caches p h q =
    Swept p.inner q.inner
    × AllFresh caches p.wrappers h (now p.inner.clock) q.inner
    × (all_succeed caches p ≡ true)

-- the same, by what the first Cleanup answers and leaves
abbrev EvictsBehind :
    (c : Tracked) (caches : List Tracked) (p : Program Memories)
    → AllInMemory (c ∷ caches) p.wrappers
    → Status × Program Memories
    → Type 0
EvictsBehind c caches p h x =
    Swept p.inner (cleaned caches x.1).inner
    × AllFresh (c ∷ caches) p.wrappers h (now p.inner.clock) (cleaned caches x.1).inner
    × ((succeeds x.0 && all_succeed caches x.1) ≡ true)

cleaned-Evicts :
    (caches : List Tracked) (p : Program Memories) (h : AllInMemory caches p.wrappers)
    → AllValid p.inner
    → IsMonotonic p.inner.clock
    → Evicts caches p h (cleaned caches p)
cleaned-Evicts [] p h v mono = (
  record {
    kept = λ a k i there ahead. there;
    old = λ a k i there. there;
    same_clock = refl;
    later = omega arith;
    valid = v;
  },
  tt,
  refl,
)
cleaned-Evicts (c ∷ caches) p ((a, t, found), h) v mono =
    let m1 = (on a Memory.cleanup p.inner).1 in
    let first = on-Swept a p.inner v mono in
    let mono1 = IsMonotonic-still p.inner.clock m1.clock first.same_clock mono in
    let (swept, fresh, answers) =
      cleaned-Evicts caches (record p { inner = m1 }) h first.valid mono1 in
    let fresh_first : Fresh (cleaned caches (record p { inner = m1 })).inner a (now p.inner.clock) =
      λ k i there. on-Fresh a p.inner v k i (swept.old a k i there) in
    let earlier : (i : MemoryItem)
        → has_passed i (now m1.clock) ≡ false
        → has_passed i (now p.inner.clock) ≡ false =
      λ i ahead.
        passed_later p.inner.clock p.inner.clock.reads m1.clock.reads i mono first.later
          (ap (λ f. has_passed i (f m1.clock.reads)) (sym first.same_clock) ∙ ahead) in
    subst (EvictsBehind c caches p ((a, t, found), h)) (sym (cleanup_eq c.cache a t p found)) (
      Swept-trans p.inner m1 (cleaned caches (record p { inner = m1 })).inner mono first swept,
      (
        fresh_first,
        AllFresh-earlier caches p.wrappers h (now p.inner.clock) (now m1.clock)
            (cleaned caches (record p { inner = m1 })).inner earlier fresh,
      ),
      rw (on_succeeds a p.inner v) answers,
    )

-- CleanupAll of a factory whose tracked caches are all in memory and well formed, under a monotonic
-- clock: it succeeds; no cache it tracks is left with an entry that had expired when it began; no
-- cache loses an entry that has not expired when it ends, or gains one; and all stay well formed.
pub cleanup_all_evicts :
    (f : Factory Memories) (p : Program Memories)
    (h : AllInMemory (p.trackers f.tracker) p.wrappers)
    → AllValid p.inner
    → IsMonotonic p.inner.clock
    → (succeeds (Factory.cleanup_all f p).0 ≡ true)
      × AllFresh
          (p.trackers f.tracker)
          p.wrappers
          h
          (now p.inner.clock)
          (Factory.cleanup_all f p).1.inner
      × Swept p.inner (Factory.cleanup_all f p).1.inner
cleanup_all_evicts f p h v mono =
    let (state, answer, _) = cleanup_all_lem f p in
    let (swept, fresh, succeed) = cleaned-Evicts (p.trackers f.tracker) p h v mono in
    rw (state, answer) (succeed, fresh, swept)
