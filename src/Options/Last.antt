-- ===== src/Options/Last.antt =====
-- cache/options.go: what a list of options comes to, described without running it.
use cachefx.Prelude.{
  ◌≡◌, ◌↔◌, refl, sym, ◌∙◌, Bool, true, false, ◌||◌, Option, none, some, List, [], ◌∷◌, ◌++◌, arith,
}
use cachefx.Options.{
  Options, SetOption, with_ttl, with_valid_until, ttl_deadline, set_option, apply, GetOptions,
  GetOption, and_set_ttl, and_update_ttl, and_set_valid_until, and_default_ttl, and_delete,
  get_option, apply_get, no_get_options, is_empty,
}
use cachefx.Time.{Time, Duration, Clock}

-- The last answer that the options of a list give to a question, or `o` if none gives one.
abbrev pub latest {ℓ} : {A : Type ℓ} → (GetOption → Option A) → List GetOption → Option A → Option A
latest ask [] o = o
latest ask (opt ∷ opts) o = elim (ask opt) [
  | none ↦ latest ask opts o
  | some a ↦ latest ask opts (some a)
]

-- Whether some option of a list passes a test.
abbrev pub some_option : (GetOption → Bool) → List GetOption → Bool
some_option test [] = false
some_option test (opt ∷ opts) = test opt || some_option test opts

abbrev pub asked_valid_until : GetOption → Option Time
asked_valid_until (and_set_valid_until t) = some t
asked_valid_until _ = none

abbrev pub asked_set_ttl : GetOption → Option Duration
asked_set_ttl (and_set_ttl d) = some d
asked_set_ttl _ = none

abbrev pub asked_update_ttl : GetOption → Option Duration
asked_update_ttl (and_update_ttl d) = some d
asked_update_ttl _ = none

abbrev pub is_default_ttl : GetOption → Bool
is_default_ttl and_default_ttl = true
is_default_ttl _ = false

abbrev pub is_delete : GetOption → Bool
is_delete and_delete = true
is_delete _ = false

abbrev summary : List GetOption → GetOptions → GetOptions
summary opts o = record {
  valid_until = latest asked_valid_until opts o.valid_until;
  set_ttl = latest asked_set_ttl opts o.set_ttl;
  update_ttl = latest asked_update_ttl opts o.update_ttl;
  default_ttl = some_option is_default_ttl opts || o.default_ttl;
  delete = some_option is_delete opts || o.delete;
}

or_true : (b : Bool) → (b || true) ≡ true
or_true true = refl
or_true false = refl

or_false : (b : Bool) → (b || false) ≡ b
or_false true = refl
or_false false = refl

clash : ¬ (false ≡ true)
clash e = cc

apply_get-summary : (opts : List GetOption) (o : GetOptions) → apply_get opts o ≡ summary opts o
unfolding apply_get
apply_get-summary [] o = refl
apply_get-summary (and_set_ttl d ∷ opts) o = apply_get-summary opts (record o { set_ttl = some d })
apply_get-summary (and_update_ttl d ∷ opts) o =
    apply_get-summary opts (record o { update_ttl = some d })
apply_get-summary (and_set_valid_until t ∷ opts) o =
    apply_get-summary opts (record o { valid_until = some t })
apply_get-summary (and_default_ttl ∷ opts) o =
    rw (apply_get-summary opts (record o { default_ttl = true }), or_true)
apply_get-summary (and_delete ∷ opts) o =
    rw (apply_get-summary opts (record o { delete = true }), or_true)

-- The options that a Get works with: the last argument of each kind, and for the two flags whether
-- any option raises them.
pub apply_get-latest :
    (opts : List GetOption)
    → ((apply_get opts no_get_options).valid_until ≡ latest asked_valid_until opts none)
      × ((apply_get opts no_get_options).set_ttl ≡ latest asked_set_ttl opts none)
      × ((apply_get opts no_get_options).update_ttl ≡ latest asked_update_ttl opts none)
      × ((apply_get opts no_get_options).default_ttl ≡ some_option is_default_ttl opts)
      × ((apply_get opts no_get_options).delete ≡ some_option is_delete opts)
apply_get-latest opts = rw (apply_get-summary opts no_get_options) (
  refl,
  refl,
  refl,
  or_false (some_option is_default_ttl opts),
  or_false (some_option is_delete opts),
)

get_option-is_empty : (opt : GetOption) (o : GetOptions) → is_empty (get_option opt o) ≡ false
unfolding is_empty get_option
get_option-is_empty (and_set_ttl d) o = ground arith
get_option-is_empty (and_update_ttl d) o = ground arith
get_option-is_empty (and_set_valid_until t) o = ground arith
get_option-is_empty and_default_ttl o = ground arith
get_option-is_empty and_delete o = ground arith

stays_set :
    (opts : List GetOption) (o : GetOptions)
    → is_empty o ≡ false
    → is_empty (apply_get opts o) ≡ false
unfolding apply_get
stays_set [] o h = h
stays_set (opt ∷ opts) o h = stays_set opts (get_option opt o) (get_option-is_empty opt o)

pub opt-is_empty :
    (opt : GetOption) (opts : List GetOption)
    → is_empty (apply_get (opt ∷ opts) no_get_options) ≡ false
unfolding apply_get
opt-is_empty opt opts =
    stays_set opts (get_option opt no_get_options) (get_option-is_empty opt no_get_options)

-- The options come to nothing exactly if there are none: the test on their number and the test
-- `isEmpty` on what they come to agree.
pub is_empty-apply_get :
    (opts : List GetOption) → (is_empty (apply_get opts no_get_options) ≡ true) ↔ (opts ≡ [])
unfolding apply_get is_empty
is_empty-apply_get [] = (λ _. refl, λ _. refl)
is_empty-apply_get (opt ∷ opts) =
    (λ h. absurd (clash (sym (opt-is_empty opt opts) ∙ h)), λ h. absurd (cc))

-- The deadline that one option stands for, by the clock at which it is applied.
abbrev pub deadline : SetOption → Clock → Time
deadline (with_ttl ttl) c = (ttl_deadline ttl c).0
deadline (with_valid_until t) c = t

set_option-deadline :
    (opt : SetOption) (o : Options) (c : Clock)
    → (set_option opt o c).0.valid_until ≡ deadline opt c
unfolding set_option
set_option-deadline (with_ttl ttl) o c = refl
set_option-deadline (with_valid_until t) o c = refl

-- Of the options of a Set the last one decides the deadline, whatever the others and the default
-- say; the others are run, and may read the clock before it.
pub apply-last :
    (opts : List SetOption) (opt : SetOption) (o : Options) (c : Clock)
    → (apply (opts ++ opt ∷ []) o c).0.valid_until ≡ deadline opt (apply opts o c).1
unfolding apply
apply-last [] opt o c = set_option-deadline opt o c
apply-last (first ∷ opts) opt o c = let (o', c') = set_option first o c in apply-last opts opt o' c'
