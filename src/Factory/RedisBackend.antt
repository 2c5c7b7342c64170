-- ===== src/Factory/RedisBackend.antt =====
-- factory.go and cache/redis.go: the constructor that NewFactory passes on for the scheme "redis", and the
-- hashes that its caches use.
use Prim.Native.String.{◌++◌ as str_append}
use text.Mathlib.TextLemmas.{append_cancel_right, append-eq-nil_iff}
use cachefx.Prelude.{
  String, true, false, ◌≡◌, refl, ap, sym, ◌∙◌, ◌==◌, eq_iff, none, Bool-cases, inl, inr, ℤ, pos,
  if◌then◌else◌, arith,
}
use cachefx.Errors.{Result, ok, err, wrap, sentinel, err_invalid_config}
use cachefx.Cache.{Cache}
use cachefx.Factory.{Build}
use cachefx.Redis.{RedisCache, Host, redis_cache}
use cachefx.Redis.Calls.{Client}
use cachefx.Redis.Config.{new_redis, full_prefix, has_colon, redis_cache_key}
use cachefx.Redis.Making.{Ends-has_colon}
use cachefx.Time.{Duration}

abbrev pub as_cache :
    {S : Type 0} → (Duration → ℤ) → Result (RedisCache S) → Result (Cache (Host S))
as_cache seconds (ok r) = ok (redis_cache seconds r)
as_cache seconds (err e) = err e

-- `cache.NewRedis` with the URL of the factory's configuration and the full name for the prefix
unfoldable pub build_redis :
    {S : Type 0} → (Duration → ℤ) → (String → Result (Client S)) → String → Build (Host S)
build_redis seconds dial url name h = (
  as_cache seconds
      (new_redis dial (record { client = none; url = url; prefix = name; ttl = pos 0 })),
  h,
)

-- the key of the hash of a cache, by its full name
abbrev pub key_of : String → String
key_of name = str_append (full_prefix name) redis_cache_key

-- A full name that is some text, and does not end in a colon.
pub record IsName (name : String) : Type 0 where
  pub nonempty : (name == "") ≡ false
  pub no_colon : has_colon name ≡ false

full_prefix_name : (name : String) → IsName name → full_prefix name ≡ str_append name ":"
unfolding full_prefix
full_prefix_name name h = rw (h.nonempty, h.no_colon) refl

pub key_of-inj : (a b : String) → IsName a → IsName b → key_of a ≡ key_of b → a ≡ b
key_of-inj a b ha hb e =
    let prefixes : full_prefix a ≡ full_prefix b =
      append_cancel_right (full_prefix a) (full_prefix b) redis_cache_key e in
    append_cancel_right a b ":" (sym (full_prefix_name a ha) ∙ prefixes ∙ full_prefix_name b hb)

-- A text with a colon behind it is not empty.
nonempty_colon : (a : String) → (str_append a ":" == "") ≡ false
nonempty_colon a = elim (Bool-cases (str_append a ":" == "")) [
  | inl empty ↦
      let colon : ":" ≡ "" = (append-eq-nil_iff.0 ((eq_iff (str_append a ":") "").0 empty)).1 in
      let same : false ≡ true = (eq_iff ":" "").1 colon in absurd (ground (arith, same))
  | inr other ↦ other
]

full_prefix_colon : (name : String) → full_prefix (str_append name ":") ≡ str_append name ":"
unfolding full_prefix
full_prefix_colon name = rw (nonempty_colon name, Ends-has_colon name) refl

key_of_colon : (name : String) → IsName name → key_of (str_append name ":") ≡ key_of name
key_of_colon name n =
    ap (λ prefix. str_append prefix redis_cache_key)
      (full_prefix_colon name ∙ sym (full_prefix_name name n))

module _ {S : Type 0} (seconds : Duration → ℤ) (dial : String → Result (Client S))
    (url : String) where
  -- what the constructor makes of a client, for the key of the hash
  abbrev pub made : Client S → String → RedisCache S
  made client key = record { client = client; owned_client = true; key = key; ttl = pos 0 }

  -- the cache, or the error, that NewRedis answers for the key of the hash
  abbrev dialled : String → Result (RedisCache S)
  dialled key =
      if url == ""
      then err (wrap "%w: no redis client or url provided" (sentinel err_invalid_config))
      else elim (dial url) [
        | err e ↦ err (wrap "failed to parse redis url: %w" e)
        | ok client ↦ ok (made client key)
      ]

  pub build_redis-dialled :
      (name : String) (h : Host S)
      → build_redis seconds dial url name h ≡ (as_cache seconds (dialled (key_of name)), h)
  unfolding build_redis new_redis
  build_redis-dialled name h = refl

  -- The Redis constructor makes one cache for a name and for the name with a colon behind it: their values
  -- stand in one hash.
  pub colon_names_share :
      (name : String) (h : Host S)
      → IsName name
      → build_redis seconds dial url (str_append name ":") h ≡ build_redis seconds dial url name h
  colon_names_share name h n =
      build_redis-dialled (str_append name ":") h
      ∙ ap (λ key. (as_cache seconds (dialled key), h)) (key_of_colon name n)
      ∙ sym (build_redis-dialled name h)
