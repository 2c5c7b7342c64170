-- ===== src/Redis/Config.antt =====
-- `NewRedis` of cache/redis.go, and its configuration.
use Prim.Native.String.{◌++◌ as str_append}
use cachefx.Prelude.{String, Bool, true, false, not, ◌&&◌, Option, none, some, ◌==◌, if◌then◌else◌}
use cachefx.Errors.{Error, sentinel, err_invalid_config, wrap, Result, ok, err}
use cachefx.Time.{Duration}
use cachefx.Redis.Calls.{Client}
use cachefx.Redis.{RedisCache}

-- `RedisConfig`
pub record RedisConfig (S : Type 0) : Type 0 where
  pub client : Option (Client S)
  pub url : String
  pub prefix : String
  pub ttl : Duration

-- `strings.HasSuffix(s, ":")`
unfoldable pub has_colon : String → Bool
has_colon String.[] = false
has_colon (String.◌∷◌ c String.[]) = String.◌∷◌ c String.[] == ":"
has_colon (String.◌∷◌ c (String.◌∷◌ d s)) = has_colon (String.◌∷◌ d s)

-- the prefix as `NewRedis` completes it
unfoldable pub full_prefix : String → String
unfolding has_colon
full_prefix prefix =
    if not (prefix == "") && not (has_colon prefix) then str_append prefix ":" else prefix

abbrev pub redis_cache_key : String
redis_cache_key = "cache"

abbrev pub failing : {A : Type 0} → String → Error → Result A
failing format e = err (wrap format e)

-- `NewRedis`; `dial` is `redis.ParseURL` with `redis.NewClient`.
unfoldable pub new_redis :
    {S : Type 0} → (String → Result (Client S)) → RedisConfig S → Result (RedisCache S)
unfolding full_prefix
new_redis dial config =
    let key = str_append (full_prefix config.prefix) redis_cache_key in
    elim config.client [
      | some client ↦
          ok (record { client = client; owned_client = false; key = key; ttl = config.ttl })
      | none ↦
          if config.url == ""
          then failing "%w: no redis client or url provided" (sentinel err_invalid_config)
          else elim (dial config.url) [
            | err e ↦ failing "failed to parse redis url: %w" e
            | ok client ↦
                ok (record { client = client; owned_client = true; key = key; ttl = config.ttl })
          ]
    ]
