-- ===== src/Redis/Making.antt =====
-- `NewRedis` of cache/redis.go.
use Prim.Native.String.{◌++◌ as str_append}
use Prim.Native.String.append.{nil, cons}
use Prim.Native.Char.{Char}
use cachefx.Prelude.{
  String, Bool, true, false, ◌≡◌, refl, ap, ◌∙◌, Option, none, some, ◌==◌, if◌then◌else◌,
  Bool-cases, inl, inr, eq_iff, sym, ◌⊎◌, arith,
}
use cachefx.Errors.{Result, ok, err, wrap, err_invalid_config, result_is, is}
use cachefx.Redis.{RedisCache}
use cachefx.Redis.Config.{RedisConfig, new_redis, full_prefix, failing, has_colon, redis_cache_key}
use cachefx.Redis.Calls.{Client}

-- The text ends in a colon.
abbrev pub Ends : String → Type 0
Ends s = (t : String) × (s ≡ str_append t ":")

append_cons :
    (c : Char) (s t : String) → str_append (String.◌∷◌ c s) t ≡ String.◌∷◌ c (str_append s t)
append_cons c s t = λ i. cons c s t i

append_nil : (t : String) → str_append "" t ≡ t
append_nil t = λ i. nil t i

has_colon-Ends : (s : String) → has_colon s ≡ true → Ends s
unfolding has_colon
has_colon-Ends String.[] h = absurd (ground (arith, h))
has_colon-Ends (String.◌∷◌ c String.[]) h =
    ("", (eq_iff (String.◌∷◌ c String.[]) ":").0 h ∙ sym (append_nil ":"))
has_colon-Ends (String.◌∷◌ c (String.◌∷◌ d s)) h =
    let (t, e) = has_colon-Ends (String.◌∷◌ d s) h in
    (String.◌∷◌ c t, ap (String.◌∷◌ c) e ∙ sym (append_cons c t ":"))

pub Ends-has_colon : (t : String) → has_colon (str_append t ":") ≡ true
unfolding has_colon
Ends-has_colon String.[] = ap has_colon (append_nil ":")
Ends-has_colon (String.◌∷◌ c String.[]) =
    let eq : str_append (String.◌∷◌ c String.[]) ":" ≡ String.◌∷◌ c ":" =
      append_cons c "" ":" ∙ ap (String.◌∷◌ c) (append_nil ":") in
    ap has_colon eq
Ends-has_colon (String.◌∷◌ c (String.◌∷◌ d s)) =
    let tail = append_cons d s ":" in
    ap has_colon (append_cons c (String.◌∷◌ d s) ":" ∙ ap (String.◌∷◌ c) tail)
    ∙ ap has_colon (sym tail)
    ∙ Ends-has_colon (String.◌∷◌ d s)

no_colon-Ends : (s : String) → has_colon s ≡ false → ¬ Ends s
no_colon-Ends s h (t, e) =
    let colon : has_colon s ≡ true = ap has_colon e ∙ Ends-has_colon t in ground (arith, h, colon)

-- The key is "cache" alone if there is no prefix; behind a prefix that ends in a colon it follows it, and
-- behind any other one there is a colon between the two.
abbrev pub Prefixed : String → String → Type 0
Prefixed prefix key =
    if prefix == ""
    then key ≡ "cache"
    else (Ends prefix × (key ≡ str_append prefix "cache"))
    ⊎ ((¬ Ends prefix) × (key ≡ str_append (str_append prefix ":") "cache"))

-- A cache under the prefix, with the TTL of the configuration and the client.
abbrev pub Made : {S : Type 0} → RedisConfig S → Client S → Bool → Result (RedisCache S) → Type 0
Made config client owned (err e) = ⊥
Made config client owned (ok r) =
    (r.client ≡ client)
    × (r.owned_client ≡ owned)
    × (r.ttl ≡ config.ttl)
    × Prefixed config.prefix r.key

-- with no client: what dialling the URL comes to
abbrev pub Dialled :
    {S : Type 0} → RedisConfig S → Result (Client S) → Result (RedisCache S) → Type 0
Dialled config (ok client) a = Made config client true a
Dialled config (err e) a = (format : String) × (a ≡ err (wrap format e))

abbrev pub Makes :
    {S : Type 0}
    → (String → Result (Client S))
    → RedisConfig S
    → Option (Client S)
    → Result (RedisCache S)
    → Type 0
Makes dial config (some client) a = Made config client false a
Makes dial config none a =
    if config.url == ""
    then result_is err_invalid_config a ≡ true
    else Dialled config (dial config.url) a

full_prefix-Prefixed :
    (prefix : String) → Prefixed prefix (str_append (full_prefix prefix) redis_cache_key)
unfolding full_prefix
full_prefix-Prefixed prefix = elim (Bool-cases (prefix == "")) [
  | inl empty ↦
      rw (empty, full_prefix) (ap (λ s. str_append s "cache") ((eq_iff prefix "").0 empty))
  | inr other ↦ elim (Bool-cases (has_colon prefix)) [
    | inl colon ↦ rw (other, full_prefix, colon) (inl (has_colon-Ends prefix colon, refl))
    | inr none_yet ↦ rw (other, full_prefix, none_yet) (inr (no_colon-Ends prefix none_yet, refl))
  ]
]

module _ {S : Type 0} (dial : String → Result (Client S)) (config : RedisConfig S) where
  dialled :
      (a : Result (Client S))
      → Dialled config a (elim a [
        | err e ↦ failing "failed to parse redis url: %w" e
        | ok client ↦ ok (record {
          client = client;
          owned_client = true;
          key = str_append (full_prefix config.prefix) redis_cache_key;
          ttl = config.ttl;
        })
      ])
  dialled (ok client) = (refl, refl, refl, full_prefix-Prefixed config.prefix)
  dialled (err e) = ("failed to parse redis url: %w", refl)

  made :
      (o : Option (Client S)) → Makes dial config o (new_redis dial (record config { client = o }))
  unfolding new_redis is
  made (some client) = (refl, refl, refl, full_prefix-Prefixed config.prefix)
  made none = elim (Bool-cases (config.url == "")) [
    | inl empty ↦ rw empty refl
    | inr other ↦ rw other (dialled (dial config.url))
  ]

  -- NewRedis uses the client of the configuration, which stays its owner's; with none it makes one of the
  -- URL, to be closed with the cache, or wraps the error; and with no URL either it answers
  -- ErrInvalidConfig. The key of the hash is "cache" behind the prefix, with a colon between them.
  pub new_redis_lem : Makes dial config config.client (new_redis dial config)
  unfolding new_redis
  new_redis_lem = made config.client
