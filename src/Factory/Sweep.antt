-- ===== src/Factory/Sweep.antt =====
-- factory.go: `CleanupAll` cleans every tracked cache, and joins the errors.
use cachefx.Prelude.{String, ◌≡◌, refl, ap, ◌∙◌, Bool, true, false, ◌&&◌, ◌||◌, List, [], ◌∷◌}
use cachefx.Errors.{Sentinel, Errors, nil, cons, ok, err, Status, is_any, result_is, succeeds}
use cachefx.Factory
use cachefx.Factory.{Tracked, Wrapper, Program, Factory, cleanup_each, report, join}

-- the program after the Cleanup of each cache of a list, in order
abbrev pub cleaned : {S : Type 0} → List Tracked → Program S → Program S
cleaned [] p = p
cleaned (c ∷ caches) p = cleaned caches (Factory.cleanup c.cache p).1

-- Does one of these Cleanup calls fail with an error that wraps the sentinel?
abbrev pub some_is : {S : Type 0} → Sentinel → List Tracked → Program S → Bool
some_is target [] p = false
some_is target (c ∷ caches) p =
    result_is target (Factory.cleanup c.cache p).0
    || some_is target caches (Factory.cleanup c.cache p).1

-- Do they all succeed?
abbrev pub all_succeed : {S : Type 0} → List Tracked → Program S → Bool
all_succeed [] p = true
all_succeed (c ∷ caches) p =
    succeeds (Factory.cleanup c.cache p).0 && all_succeed caches (Factory.cleanup c.cache p).1

abbrev no_errors : Errors → Bool
no_errors nil = true
no_errors (cons e errs) = false

report-is :
    (target : Sentinel) (name : String) (r : Status) (errs : Errors)
    → is_any target (report name r errs) ≡ (result_is target r || is_any target errs)
unfolding is_any
report-is target name (ok _) errs = refl
report-is target name (err e) errs = refl

report-no_errors :
    (name : String) (r : Status) (errs : Errors)
    → no_errors (report name r errs) ≡ (succeeds r && no_errors errs)
report-no_errors name (ok _) errs = refl
report-no_errors name (err e) errs = refl

join-is : (target : Sentinel) (errs : Errors) → result_is target (join errs) ≡ is_any target errs
unfolding is_any
join-is target nil = refl
join-is target (cons e errs) = refl

join-succeeds : (errs : Errors) → succeeds (join errs) ≡ no_errors errs
join-succeeds nil = refl
join-succeeds (cons e errs) = refl

module _ {S : Type 0} where
  each_cleaned :
      (caches : List Tracked) (p : Program S) → (cleanup_each caches p).1 ≡ cleaned caches p
  unfolding cleanup_each
  each_cleaned [] p = refl
  each_cleaned (c ∷ caches) p = each_cleaned caches (Factory.cleanup c.cache p).1

  each_is :
      (target : Sentinel) (caches : List Tracked) (p : Program S)
      → is_any target (cleanup_each caches p).0 ≡ some_is target caches p
  unfolding cleanup_each is_any
  each_is target [] p = refl
  each_is target (c ∷ caches) p =
      let r = Factory.cleanup c.cache p in
      report-is target c.name r.0 (cleanup_each caches r.1).0
      ∙ ap (λ b. result_is target r.0 || b) (each_is target caches r.1)

  each_succeeds :
      (caches : List Tracked) (p : Program S)
      → no_errors (cleanup_each caches p).0 ≡ all_succeed caches p
  unfolding cleanup_each
  each_succeeds [] p = refl
  each_succeeds (c ∷ caches) p =
      let r = Factory.cleanup c.cache p in
      report-no_errors c.name r.0 (cleanup_each caches r.1).0
      ∙ ap (λ b. succeeds r.0 && b) (each_succeeds caches r.1)

  -- CleanupAll calls Cleanup on every cache of the factory's tracker, in order, and goes on after one
  -- that fails. It succeeds exactly if all of them do, and `errors.Is` finds a sentinel in its error
  -- exactly if it finds it in the error of one of them.
  pub cleanup_all_lem :
      (f : Factory S) (p : Program S)
      → ((Factory.cleanup_all f p).1 ≡ cleaned (p.trackers f.tracker) p)
        × (succeeds (Factory.cleanup_all f p).0 ≡ all_succeed (p.trackers f.tracker) p)
        × ((target : Sentinel)
            → result_is target (Factory.cleanup_all f p).0
              ≡ some_is target (p.trackers f.tracker) p)
  unfolding Factory.cleanup_all
  cleanup_all_lem f p =
      let caches = p.trackers f.tracker in
      (
        each_cleaned caches p,
        join-succeeds (cleanup_each caches p).0 ∙ each_succeeds caches p,
        λ target. join-is target (cleanup_each caches p).0 ∙ each_is target caches p,
      )
