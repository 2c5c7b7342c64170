-- ===== src/Factory.antt =====
-- factory.go: the factory of caches, the tracker of those that it handed out, and the wrapper that
-- unregisters a cache when it is closed. Trackers and wrappers are shared by pointer, so they stand
-- on a heap; the caches behind the wrappers work on a state `S`. Between `Lock` and `Unlock` of the
-- tracker's mutex a method of it runs as one step.
pub mod Registry
pub mod Closing
pub mod Sweep
pub mod Lifetime
pub mod Names
pub mod Backend
pub mod RedisBackend
pub mod Apart
pub mod Swept
pub mod Evicting
use Prim.Native.String.{◌++◌ as str_append}
use cachefx.Prelude.{
  ℕ, ◌+◌, String, Bool, Option, none, some, List, [], ◌∷◌, ◌++◌, ◌==◌, eqb, if◌then◌else◌,
}
use cachefx.Errors.{
  Error, Errors, nil, cons, sentinel, wrap, wrap_named, joined, nil_dereference,
  err_invalid_factory_config, Result, ok, err, Status, done,
}
use cachefx.Time.{Duration}
use cachefx.Cache.{Cache}

-- `trackedCache`; an interface value is compared by the wrapper's address.
pub record Tracked : Type 0 where
  pub name : String
  pub cache : ℕ

-- `cacheTracker.add`
abbrev pub add : Tracked → List Tracked → List Tracked
add c caches = caches ++ c ∷ []

-- `cacheTracker.remove`
unfoldable pub remove : ℕ → List Tracked → List Tracked
remove c [] = []
remove c (tc ∷ caches) = let rest = remove c caches in if eqb tc.cache c then caches else tc ∷ rest

-- `cacheTracker.list`: a copy
abbrev pub list : List Tracked → List Tracked
list caches = caches

-- `unregisteringCache`
pub record Wrapper (S : Type 0) : Type 0 where
  pub inner : Cache S
  pub tracker : ℕ

-- the heap of wrappers and trackers, and the state of the caches
pub record Program (S : Type 0) : Type 0 where
  pub wrappers : ℕ → Option (Wrapper S)
  pub next : ℕ
  pub trackers : ℕ → List Tracked
  pub next_tracker : ℕ
  pub inner : S

abbrev pub Build : Type 0 → Type 0
Build S = String → S → Result (Cache S) × S

-- `factory`
pub record Factory (S : Type 0) : Type 0 where
  pub prefix : String
  pub build : Build S
  pub tracker : ℕ

abbrev pub write {ℓ} : {A : Type ℓ} → (ℕ → A) → ℕ → A → ℕ → A
write f i a j = if eqb i j then a else f j

-- the name behind a factory's prefix
unfoldable pub full_name : String → String → String
full_name prefix name = if prefix == "" then name else str_append prefix (str_append ":" name)

-- the error of `Close` of the wrapper
abbrev pub close_status : Status → Status
close_status (ok _) = done
close_status (err e) = err (wrap "failed to close cache: %w" e)

-- what `CleanupAll` appends for one cache
abbrev pub report : String → Status → Errors → Errors
report name (ok _) errs = errs
report name (err e) errs = cons (wrap_named "failed to cleanup cache %q: %w" name e) errs

-- `errors.Join`
abbrev pub join : Errors → Status
join nil = done
join (cons e errs) = err (joined (cons e errs))

module _ {S : Type 0} where
  -- `newFactory`
  unfoldable pub new_factory : String → Build S → Program S → Factory S × Program S
  new_factory prefix build p = (
    record { prefix = prefix; build = build; tracker = p.next_tracker },
    record p { trackers = write p.trackers p.next_tracker []; next_tracker = p.next_tracker + 1 },
  )

  -- `factory.New`: the address of the wrapper that it hands out.
  unfoldable pub new : Factory S → String → Program S → Result ℕ × Program S
  new f name p =
      let full = full_name f.prefix name in
      let (r, s) = f.build full p.inner in
      elim r [
        | err e ↦ (err (wrap_named "failed to create cache %q: %w" name e), record p { inner = s })
        | ok c ↦ (
          ok p.next,
          record p {
            wrappers = write p.wrappers p.next (some (record { inner = c; tracker = f.tracker }));
            next = p.next + 1;
            trackers =
                write p.trackers f.tracker
                  (add (record { name = full; cache = p.next }) (p.trackers f.tracker));
            inner = s;
          },
        )
      ]

  -- `factory.WithName`
  unfoldable pub with_name : Factory S → String → Factory S
  with_name f prefix = record f { prefix = full_name f.prefix prefix }

  -- `unregisteringCache.Close`
  unfoldable pub close : ℕ → Program S → Status × Program S
  unfolding remove
  close c p = elim (p.wrappers c) [
    | none ↦ (err nil_dereference, p)
    | some u ↦
        let (r, s) = u.inner.close p.inner in
        (
          close_status r,
          record p {
            trackers = write p.trackers u.tracker (remove c (p.trackers u.tracker));
            inner = s;
          },
        )
  ]

  -- `Cleanup` of a wrapper is that of the cache inside it.
  unfoldable pub cleanup : ℕ → Program S → Status × Program S
  cleanup c p = elim (p.wrappers c) [
    | none ↦ (err nil_dereference, p)
    | some u ↦ let (r, s) = u.inner.cleanup p.inner in (r, record p { inner = s })
  ]

  -- the loop of `CleanupAll`
  unfoldable pub cleanup_each : List Tracked → Program S → Errors × Program S
  unfolding cleanup
  cleanup_each [] p = (nil, p)
  cleanup_each (c ∷ caches) p =
      let (r, p1) = cleanup c.cache p in
      let (errs, p2) = cleanup_each caches p1 in (report c.name r errs, p2)

  -- `factory.CleanupAll`
  unfoldable pub cleanup_all : Factory S → Program S → Status × Program S
  unfolding cleanup_each
  cleanup_all f p = let (errs, p1) = cleanup_each (list (p.trackers f.tracker)) p in (join errs, p1)

-- `Config`
pub record Config : Type 0 where
  pub url : String
  pub sweep_interval : Duration

-- `url.Parse` (its error, or the scheme of the URL), and the constructors of the two backends, by the
-- full name of a cache; that of the Redis backend takes the URL too.
module _ {S : Type 0} (parse : String → Result String) (memory : Build S)
    (redis : String → Build S) where
  -- the `switch` on the scheme
  abbrev pub by_scheme : String → String → Program S → Result (Factory S) × Program S
  by_scheme url scheme p =
      if scheme == "memory"
      then (let (f, q) = new_factory "" memory p in (ok f, q))
      else if scheme == "redis"
      then (let (f, q) = new_factory "" (redis url) p in (ok f, q))
      else (
        err (wrap_named "%w: invalid scheme: %s" scheme (sentinel err_invalid_factory_config)),
        p,
      )

  -- `NewFactory`
  unfoldable pub factory_of : Config → Program S → Result (Factory S) × Program S
  unfolding new_factory
  factory_of config p =
      let url = if config.url == "" then "memory://" else config.url in
      elim (parse url) [
        | err e ↦ (
          err (
              wrap "%w: failed to parse url: %w"
                (joined (cons (sentinel err_invalid_factory_config) (cons e nil)))),
          p,
        )
        | ok scheme ↦ by_scheme url scheme p
      ]
