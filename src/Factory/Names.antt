-- ===== src/Factory/Names.antt =====
-- factory.go: prefixes and names, and which configurations give a factory.
use cachefx.Prelude.{
  ℕ, ◌+◌, String, ◌≡◌, refl, ap, sym, ◌∙◌, Bool, true, false, ◌||◌, if◌then◌else◌, some, [], ◌==◌,
  eqb_iff, eq_iff, Bool-cases, inl, inr, arith,
}
use Prim.Native.String.{◌++◌ as str_append}
use text.Mathlib.TextLemmas.{append_assoc, append-eq-nil_iff}
use cachefx.Errors.{Result, ok, err, is, err_invalid_factory_config, succeeds}
use cachefx.Cache.{Cache}
use cachefx.Factory
use cachefx.Factory.{
  Program, Factory, Build, Config, add, write, full_name, new_factory, with_name, factory_of,
}

-- Is it a configuration whose URL parses to the scheme of a backend?
abbrev pub is_supported : Result String → Bool
is_supported (ok scheme) = scheme == "memory" || scheme == "redis"
is_supported (err e) = false

-- What NewFactory answers: a factory with no prefix and a tracker of its own that holds no cache, or an
-- error that wraps ErrInvalidFactoryConfig, with nothing changed.
abbrev pub FactoryAnswers :
    {S : Type 0} → Bool → Program S → Result (Factory S) × Program S → Type 0
FactoryAnswers supported p (ok f, q) =
    (supported ≡ true)
    × (f.prefix ≡ "")
    × (f.tracker ≡ p.next_tracker)
    × (q.trackers f.tracker ≡ [])
FactoryAnswers supported p (err e, q) =
    (supported ≡ false) × (is err_invalid_factory_config e ≡ true) × (q ≡ p)

-- the URL that is parsed
abbrev pub used_url : Config → String
used_url config = if config.url == "" then "memory://" else config.url

module _ {S : Type 0} (parse : String → Result String) (memory : Build S)
    (redis : String → Build S) where
  by_scheme_answers :
      (url scheme : String) (p : Program S)
      → FactoryAnswers
          (is_supported (ok scheme))
          p
          (Factory.by_scheme parse memory redis url scheme p)
  unfolding is new_factory
  by_scheme_answers url scheme p = elim (Bool-cases (scheme == "memory")) [
    | inl m ↦ rw (m, (eqb_iff p.next_tracker p.next_tracker).1 refl) (refl, refl, refl, refl)
    | inr m ↦ elim (Bool-cases (scheme == "redis")) [
      | inl r ↦ rw (m, r, (eqb_iff p.next_tracker p.next_tracker).1 refl) (refl, refl, refl, refl)
      | inr r ↦ rw (m, r) (refl, refl, refl)
    ]
  ]

  parsed_answers :
      (config : Config) (p : Program S) (r : Result String)
      → parse (used_url config) ≡ r
      → FactoryAnswers (is_supported r) p (factory_of parse memory redis config p)
  unfolding factory_of is
  parsed_answers config p (ok scheme) found =
      rw (factory_of, found) (by_scheme_answers (used_url config) scheme p)
  parsed_answers config p (err e) found = rw (factory_of, found) (refl, refl, refl)

  -- NewFactory succeeds exactly if the URL of the configuration, or memory:// in place of an empty one,
  -- parses to the scheme of a backend: the factory has no prefix and a new, empty tracker. Any other
  -- configuration is answered with an error that wraps ErrInvalidFactoryConfig, and changes nothing.
  pub factory_of_lem :
      (config : Config) (p : Program S)
      → FactoryAnswers
          (is_supported (parse (used_url config)))
          p
          (factory_of parse memory redis config p)
  factory_of_lem config p = parsed_answers config p (parse (used_url config)) refl

never_both : true ≡ false → ⊥
never_both h = ground (arith, h)

joined_nonempty :
    (a b : String) → (b == "") ≡ false → (str_append a (str_append ":" b) == "") ≡ false
joined_nonempty a b h = elim (Bool-cases (str_append a (str_append ":" b) == "")) [
  | inl empty ↦
      let e : str_append ":" b ≡ "" =
        (append-eq-nil_iff.0 ((eq_iff (str_append a (str_append ":" b)) "").0 empty)).1 in
      absurd (never_both (sym ((eq_iff b "").1 (append-eq-nil_iff.0 e).1) ∙ h))
  | inr other ↦ other
]

full_name_assoc :
    (a b c : String) → (b == "") ≡ false → full_name (full_name a b) c ≡ full_name a (full_name b c)
unfolding full_name
full_name_assoc a b c h = elim (Bool-cases (a == "")) [
  | inl empty ↦ rw (empty, h) refl
  | inr other ↦
      rw (other, h, joined_nonempty a b h)
        (append_assoc a (str_append ":" b) (str_append ":" c)
          ∙ ap (str_append a) (append_assoc ":" b (str_append ":" c)))
]

-- What New does, by the full name alone: whether it succeeds, and the program that it leaves.
abbrev pub built :
    {S : Type 0} → Factory S → String → Result (Cache S) → Program S → Bool × Program S
built f full (err e) p = (false, record p { inner = (f.build full p.inner).1 })
built f full (ok c) p = (
  true,
  record p {
    wrappers = write p.wrappers p.next (some (record { inner = c; tracker = f.tracker }));
    next = p.next + 1;
    trackers =
        write p.trackers f.tracker
          (add (record { name = full; cache = p.next }) (p.trackers f.tracker));
    inner = (f.build full p.inner).1;
  },
)

-- Whether a New succeeds, and the program that it leaves.
abbrev pub outcome : {S : Type 0} → Result ℕ × Program S → Bool × Program S
outcome a = (succeeds a.0, a.1)

pub new-built :
    {S : Type 0} (f : Factory S) (name : String) (p : Program S) (r : Result (Cache S))
    → (f.build (full_name f.prefix name) p.inner).0 ≡ r
    → outcome (Factory.new f name p) ≡ built f (full_name f.prefix name) r p
unfolding Factory.new
new-built f name p (err e) found = rw (found, Factory.new) refl
new-built f name p (ok c) found = rw (found, Factory.new) refl

-- The caches of a factory that was derived by WithName with a non-empty prefix are those of the factory
-- it was derived from: New of a name through it builds, wraps and tracks the same cache as New of the
-- prefixed name, and both fail or neither does.
pub derived_new :
    {S : Type 0} (f : Factory S) (prefix name : String) (p : Program S)
    → (prefix == "") ≡ false
    → outcome (Factory.new (with_name f prefix) name p)
      ≡ outcome (Factory.new f (full_name prefix name) p)
unfolding with_name
derived_new f prefix name p h =
    let g = with_name f prefix in
    let inner_full = full_name g.prefix name in
    new-built g name p (f.build inner_full p.inner).0 refl
    ∙ ap (λ full. built f full (f.build full p.inner).0 p) (full_name_assoc f.prefix prefix name h)
    ∙ sym (
        new-built f (full_name prefix name) p
          (f.build (full_name f.prefix (full_name prefix name)) p.inner).0 refl)
