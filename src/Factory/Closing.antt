-- ===== src/Factory/Closing.antt =====
-- factory.go: what `New` and `Close` do to the trackers of a program.
use cachefx.Prelude.{
  ℕ, ◌+◌, ◌≤◌, String, ◌≡◌, refl, some, List, [], ◌∷◌, ◌++◌, arith, eqb, eqb_iff, Bool-cases, inl,
  inr,
}
use cachefx.Errors.{Result, ok, err, wrap_named}
use cachefx.Factory
use cachefx.Factory.{
  Tracked, Wrapper, Program, Factory, Build, remove, add, write, full_name, close_status,
}
use cachefx.Factory.Registry.{
  Lacks, IsRegistry, without, remove-without, without-Lacks, without-IsRegistry, older-Lacks,
  add-IsRegistry, grown-IsRegistry,
}

-- Every tracker holds each cache once at most, and only caches that were handed out.
abbrev pub IsConsistent : {S : Type 0} → Program S → Type 0
IsConsistent p = (t : ℕ) → IsRegistry p.next (p.trackers t)

write-IsRegistry :
    (n m : ℕ) (f : ℕ → List Tracked) (i : ℕ) (ts : List Tracked)
    → n ≤ m
    → ((t : ℕ) → IsRegistry n (f t))
    → IsRegistry m ts
    → (t : ℕ) → IsRegistry m (write f i ts t)
write-IsRegistry n m f i ts le v h t = elim (Bool-cases (eqb i t)) [
  | inl same ↦ rw same h
  | inr other ↦ rw other (grown-IsRegistry n m (f t) le (v t))
]

-- A factory with a tracker of its own starts with no cache.
pub new_factory-IsConsistent :
    {S : Type 0} (prefix : String) (build : Build S) (p : Program S)
    → IsConsistent p
    → IsConsistent (Factory.new_factory prefix build p).1
unfolding Factory.new_factory
new_factory-IsConsistent prefix build p v =
    write-IsRegistry p.next p.next p.trackers p.next_tracker [] (omega arith) v tt

-- What New does, by what the constructor of the backend returned.
abbrev pub NewAnswers :
    {S : Type 0} → Factory S → String → Program S → Result (cachefx.Cache.Cache S) → Type 0
NewAnswers f name p (err e) =
    ((Factory.new f name p).0 ≡ err (wrap_named "failed to create cache %q: %w" name e))
    × ((Factory.new f name p).1.trackers ≡ p.trackers)
NewAnswers f name p (ok c) =
    ((Factory.new f name p).0 ≡ ok p.next)
    × ((Factory.new f name p).1.trackers f.tracker
        ≡ p.trackers f.tracker ++ record { name = full_name f.prefix name; cache = p.next } ∷ [])
    × Lacks p.next (p.trackers f.tracker)
    × ((Factory.new f name p).1.wrappers p.next ≡ some (record { inner = c; tracker = f.tracker }))

fresh_answer :
    {S : Type 0} (f : Factory S) (name : String) (p : Program S)
    → IsConsistent p
    → (r : Result (cachefx.Cache.Cache S)) → (f.build (full_name f.prefix name) p.inner).0 ≡ r
    → NewAnswers f name p r × IsConsistent (Factory.new f name p).1
unfolding Factory.new
fresh_answer f name p v (err e) found = rw (found, Factory.new) ((refl, refl), v)
fresh_answer f name p v (ok c) found =
    let full = full_name f.prefix name in
    rw (found, Factory.new, (eqb_iff p.next p.next).1 refl, (eqb_iff f.tracker f.tracker).1 refl)
      (
        (refl, refl, older-Lacks p.next (p.trackers f.tracker) (v f.tracker), refl),
        write-IsRegistry p.next (p.next + 1) p.trackers f.tracker
            (add (record { name = full; cache = p.next }) (p.trackers f.tracker)) (omega arith) v
            (add-IsRegistry p.next full (p.trackers f.tracker) (v f.tracker)),
      )

-- New on a consistent program: if the constructor of the backend fails, the answer wraps its error and no
-- tracker changes; if not, the answer is the address of a wrapper of the new cache, which no entry of the
-- tracker had, and that wrapper is tracked last, under its full name. The program stays consistent.
pub new_lem :
    {S : Type 0} (f : Factory S) (name : String) (p : Program S)
    → IsConsistent p
    → NewAnswers f name p (f.build (full_name f.prefix name) p.inner).0
      × IsConsistent (Factory.new f name p).1
new_lem f name p v = fresh_answer f name p v (f.build (full_name f.prefix name) p.inner).0 refl

-- the program that a Close of the wrapper `u` leaves
abbrev pub closed : {S : Type 0} → ℕ → Wrapper S → Program S → Program S
closed c u p = record p {
  trackers = write p.trackers u.tracker (without c (p.trackers u.tracker));
  inner = (u.inner.close p.inner).1;
}

pub close_eq :
    {S : Type 0} (c : ℕ) (p : Program S) (u : Wrapper S)
    → IsConsistent p
    → p.wrappers c ≡ some u
    → Factory.close c p ≡ (close_status (u.inner.close p.inner).0, closed c u p)
unfolding Factory.close
close_eq c p u v found =
    rw (found, Factory.close, remove-without c p.next (p.trackers u.tracker) (v u.tracker)) refl

-- Close of a handed-out cache of a consistent program: whether or not the Close of the inner cache
-- succeeds, the tracker keeps exactly the entries of its other caches, in order, the other trackers and
-- the wrappers keep theirs, the answer is the inner answer with its error wrapped, and the program
-- stays consistent.
pub close_lem :
    {S : Type 0} (c : ℕ) (p : Program S) (u : Wrapper S)
    → IsConsistent p
    → p.wrappers c ≡ some u
    → ((Factory.close c p).0 ≡ close_status (u.inner.close p.inner).0)
      × ((Factory.close c p).1 ≡ closed c u p)
      × Lacks c ((Factory.close c p).1.trackers u.tracker)
      × IsConsistent (Factory.close c p).1
close_lem c p u v found =
    rw (close_eq c p u v found, (eqb_iff u.tracker u.tracker).1 refl)
      (
        refl,
        refl,
        without-Lacks c (p.trackers u.tracker),
        write-IsRegistry p.next p.next p.trackers u.tracker (without c (p.trackers u.tracker))
            (omega arith) v (without-IsRegistry c p.next (p.trackers u.tracker) (v u.tracker)),
      )
