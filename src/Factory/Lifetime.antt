-- ===== src/Factory/Lifetime.antt =====
-- factory.go: a cache that its caller closed is never swept again, whatever is called after.
use cachefx.Prelude.{
  ℕ, ◌<◌, String, ◌≡◌, refl, sym, subst, some, List, [], ◌∷◌, arith, eqb, eqb_iff, Bool-cases,
  Option-cases, inl, inr,
}
use cachefx.Errors.{Result, ok, err}
use cachefx.Factory
use cachefx.Factory.{Tracked, Wrapper, Program, Factory, remove, add, write, full_name}
use cachefx.Factory.Registry.{Lacks, Lacks-add, remove_keeps}
use cachefx.Factory.Closing.{IsConsistent, close_lem, close_eq, new_lem}
use cachefx.Factory.Sweep.{cleaned, cleanup_all_lem}

-- The calls of a program that can change a tracker, and the sweeps.
pub data Call (S : Type 0) : Type 0 where
  call_new : Factory S → String → Call S
  call_close : ℕ → Call S
  call_cleanup : ℕ → Call S
  call_cleanup_all : Factory S → Call S

abbrev pub call : {S : Type 0} → Call S → Program S → Program S
call (call_new f name) p = (Factory.new f name p).1
call (call_close c) p = (Factory.close c p).1
call (call_cleanup c) p = (Factory.cleanup c p).1
call (call_cleanup_all f) p = (Factory.cleanup_all f p).1

abbrev pub calls : {S : Type 0} → List (Call S) → Program S → Program S
calls [] p = p
calls (x ∷ xs) p = calls xs (call x p)

-- The cache `c` was handed out, and the tracker `t` does not hold it.
abbrev pub IsGone : {S : Type 0} → ℕ → ℕ → Program S → Type 0
IsGone c t p = (c < p.next) × Lacks c (p.trackers t)

write-Lacks :
    (c t i : ℕ) (f : ℕ → List Tracked) (ts : List Tracked)
    → Lacks c (f t)
    → (Lacks c (f i) → Lacks c ts)
    → Lacks c (write f i ts t)
write-Lacks c t i f ts h keeps = elim (Bool-cases (eqb i t)) [
  | inl same ↦ rw same (keeps (subst (λ j. Lacks c (f j)) (sym ((eqb_iff i t).0 same)) h))
  | inr other ↦ rw other h
]

module _ {S : Type 0} (c t : ℕ) where
  new-IsGone :
      (f : Factory S) (name : String) (p : Program S)
      → IsGone c t p
      → (r : Result (cachefx.Cache.Cache S)) → (f.build (full_name f.prefix name) p.inner).0 ≡ r
      → IsGone c t (Factory.new f name p).1
  unfolding Factory.new
  new-IsGone f name p h (err e) found = rw (found, Factory.new) h
  new-IsGone f name p h (ok x) found =
      let entry : Tracked = record { name = full_name f.prefix name; cache = p.next } in
      rw (found, Factory.new)
        (
          omega (arith, h.0),
          write-Lacks c t f.tracker p.trackers (add entry (p.trackers f.tracker)) h.1
              (λ l. Lacks-add c entry (p.trackers f.tracker) l (ground (arith, h.0))),
        )

  close-IsGone : (d : ℕ) (p : Program S) → IsGone c t p → IsGone c t (Factory.close d p).1
  unfolding Factory.close
  close-IsGone d p h = elim (Option-cases (p.wrappers d)) [
    | inl absent ↦ rw (absent, Factory.close) h
    | inr (u, found) ↦
        rw (found, Factory.close)
          (
            h.0,
            write-Lacks c t u.tracker p.trackers (remove d (p.trackers u.tracker)) h.1
                (remove_keeps c d (p.trackers u.tracker)),
          )
  ]

  cleanup-IsGone : (d : ℕ) (p : Program S) → IsGone c t p → IsGone c t (Factory.cleanup d p).1
  unfolding Factory.cleanup
  cleanup-IsGone d p h = elim (Option-cases (p.wrappers d)) [
    | inl absent ↦ rw (absent, Factory.cleanup) h
    | inr (u, found) ↦ rw (found, Factory.cleanup) h
  ]

  cleaned-IsGone :
      (caches : List Tracked) (p : Program S) → IsGone c t p → IsGone c t (cleaned caches p)
  cleaned-IsGone [] p h = h
  cleaned-IsGone (d ∷ caches) p h =
      cleaned-IsGone caches (Factory.cleanup d.cache p).1 (cleanup-IsGone d.cache p h)

  call-IsGone : (x : Call S) (p : Program S) → IsGone c t p → IsGone c t (call x p)
  call-IsGone (call_new f name) p h =
      new-IsGone f name p h (f.build (full_name f.prefix name) p.inner).0 refl
  call-IsGone (call_close d) p h = close-IsGone d p h
  call-IsGone (call_cleanup d) p h = cleanup-IsGone d p h
  call-IsGone (call_cleanup_all f) p h =
      subst (IsGone c t) (sym (cleanup_all_lem f p).0) (cleaned-IsGone (p.trackers f.tracker) p h)

  calls-IsGone : (xs : List (Call S)) (p : Program S) → IsGone c t p → IsGone c t (calls xs p)
  calls-IsGone [] p h = h
  calls-IsGone (x ∷ xs) p h = calls-IsGone xs (call x p) (call-IsGone x p h)

-- On a consistent program, after the Close of a handed-out cache, failed or not, no later New, Close,
-- Cleanup or CleanupAll brings the cache back into its tracker, so no CleanupAll reaches it again.
pub closed_stays_untracked :
    {S : Type 0} (c : ℕ) (p : Program S) (u : Wrapper S) (xs : List (Call S))
    → IsConsistent p
    → c < p.next
    → p.wrappers c ≡ some u
    → Lacks c ((calls xs (Factory.close c p).1).trackers u.tracker)
closed_stays_untracked c p u xs v old found =
    let gone = (close_lem c p u v found).2 in
    (calls-IsGone c u.tracker xs (Factory.close c p).1
      (subst (λ q. c < q.1.next) (sym (close_eq c p u v found)) old, gone)).1

close-IsConsistent :
    {S : Type 0} (c : ℕ) (p : Program S) → IsConsistent p → IsConsistent (Factory.close c p).1
unfolding Factory.close
close-IsConsistent c p v = elim (Option-cases (p.wrappers c)) [
  | inl absent ↦ λ t. rw (absent, Factory.close) (v t)
  | inr (u, found) ↦ (close_lem c p u v found).3
]

pub cleanup-IsConsistent :
    {S : Type 0} (c : ℕ) (p : Program S) → IsConsistent p → IsConsistent (Factory.cleanup c p).1
unfolding Factory.cleanup
cleanup-IsConsistent c p v t = elim (Option-cases (p.wrappers c)) [
  | inl absent ↦ rw (absent, Factory.cleanup) (v t)
  | inr (u, found) ↦ rw (found, Factory.cleanup) (v t)
]

cleaned-IsConsistent :
    {S : Type 0} (caches : List Tracked) (p : Program S)
    → IsConsistent p
    → IsConsistent (cleaned caches p)
cleaned-IsConsistent [] p v = v
cleaned-IsConsistent (c ∷ caches) p v =
    cleaned-IsConsistent caches (Factory.cleanup c.cache p).1 (cleanup-IsConsistent c.cache p v)

call-IsConsistent :
    {S : Type 0} (x : Call S) (p : Program S) → IsConsistent p → IsConsistent (call x p)
call-IsConsistent (call_new f name) p v = (new_lem f name p v).1
call-IsConsistent (call_close c) p v = close-IsConsistent c p v
call-IsConsistent (call_cleanup c) p v = cleanup-IsConsistent c p v
call-IsConsistent (call_cleanup_all f) p v =
    subst IsConsistent (sym (cleanup_all_lem f p).0)
      (cleaned-IsConsistent (p.trackers f.tracker) p v)

-- Any calls of New, Close, Cleanup and CleanupAll, whether they fail or not, keep a program
-- consistent: no tracker ever holds a cache twice, or one that was not handed out.
pub calls-IsConsistent :
    {S : Type 0} (xs : List (Call S)) (p : Program S) → IsConsistent p → IsConsistent (calls xs p)
calls-IsConsistent [] p v = v
calls-IsConsistent (x ∷ xs) p v = calls-IsConsistent xs (call x p) (call-IsConsistent x p v)
