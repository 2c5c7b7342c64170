-- ===== src/Options.antt =====
-- cache/options.go. An `Option` or a `GetOption` is the closure that its constructor function
-- returns: a constructor with the captured value here, run by `set_option` or `get_option`.
pub mod Last
use cachefx.Prelude.{
  Bool, true, false, not, ◌&&◌, Option, none, some, List, [], ◌∷◌, if◌then◌else◌, is_zero_ℤ,
}
use cachefx.Time.{Time, Duration, Clock, zero_time, add, is_negative, now, tick}

-- `options`
pub record Options : Type 0 where
  pub valid_until : Time

-- `Option`
pub data SetOption : Type 0 where
  with_ttl : Duration → SetOption
  with_valid_until : Time → SetOption

-- The closure of `WithTTL`: it reads the clock when it is applied.
unfoldable pub ttl_deadline : Duration → Clock → Time × Clock
ttl_deadline ttl c =
    if is_zero_ℤ ttl
    then (zero_time, c)
    else if is_negative ttl
    then (now c, tick c)
    else (add (now c) ttl, tick c)

unfoldable pub set_option : SetOption → Options → Clock → Options × Clock
unfolding ttl_deadline
set_option (with_ttl ttl) o c =
    let (t, c') = ttl_deadline ttl c in (record o { valid_until = t }, c')
set_option (with_valid_until t) o c = (record o { valid_until = t }, c)

-- `options.apply`
unfoldable pub apply : List SetOption → Options → Clock → Options × Clock
apply [] o c = (o, c)
apply (opt ∷ opts) o c = let (o', c') = set_option opt o c in apply opts o' c'

-- `getOptions`; a nil pointer is `none`.
pub record GetOptions : Type 0 where
  pub valid_until : Option Time
  pub set_ttl : Option Duration
  pub update_ttl : Option Duration
  pub default_ttl : Bool
  pub delete : Bool

-- `new(getOptions)`
abbrev pub no_get_options : GetOptions
no_get_options = record {
  valid_until = none;
  set_ttl = none;
  update_ttl = none;
  default_ttl = false;
  delete = false;
}

-- `GetOption`
pub data GetOption : Type 0 where
  and_set_ttl : Duration → GetOption
  and_update_ttl : Duration → GetOption
  and_set_valid_until : Time → GetOption
  and_default_ttl : GetOption
  and_delete : GetOption

unfoldable pub get_option : GetOption → GetOptions → GetOptions
get_option (and_set_ttl ttl) o = record o { set_ttl = some ttl }
get_option (and_update_ttl ttl) o = record o { update_ttl = some ttl }
get_option (and_set_valid_until t) o = record o { valid_until = some t }
get_option and_default_ttl o = record o { default_ttl = true }
get_option and_delete o = record o { delete = true }

-- `getOptions.apply`
unfoldable pub apply_get : List GetOption → GetOptions → GetOptions
unfolding get_option
apply_get [] o = o
apply_get (opt ∷ opts) o = apply_get opts (get_option opt o)

is_nil {ℓ} : {A : Type ℓ} → Option A → Bool
is_nil none = true
is_nil (some a) = false

-- `getOptions.isEmpty`
unfoldable pub is_empty : GetOptions → Bool
unfolding is_nil
is_empty o =
    is_nil o.valid_until
    && is_nil o.set_ttl
    && is_nil o.update_ttl
    && not o.default_ttl
    && not o.delete
