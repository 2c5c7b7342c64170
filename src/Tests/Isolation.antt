-- ===== src/Tests/Isolation.antt =====
-- cache/redis.go and factory.go: caches that share one server.
use cachefx.Prelude.{String, ◌≡◌, refl, List, [], ◌∷◌, none, some, arith, true, false, eq_iff}
use cachefx.Errors.{Result, ok}
use cachefx.Factory
use cachefx.Factory.{Program, Wrapper, full_name, write}
use cachefx.Factory.Apart
use cachefx.Factory.Apart.{redis_factory}
use cachefx.Factory.RedisBackend
use cachefx.Factory.RedisBackend.{IsName, build_redis, key_of, made}
use cachefx.Cache.Issue.{issue}
use cachefx.Memory.Commands.{Command, set, get, drain, run}
use cachefx.Redis.{Host, redis_cache}
use cachefx.Redis.Calls.{Client}
use cachefx.Redis.Config.{full_prefix, has_colon, new_redis}
use cachefx.Redis.Documented.{Remote, documented_client}
use cachefx.Redis.Isolation
use cachefx.Redis.Within.{Keeps}
use cachefx.Tests.Redis.{latitude, itself, documented_client-IsClient, cache, whole_seconds, host}

abbrev calls : List Command
calls = set "a" (1 ∷ []) [] ∷ get "a" [] ∷ drain ∷ []

redis_run-Keeps_example :
    Keeps "app:cache" host.remote
      (run (issue (redis_cache whole_seconds cache)) calls host).1.remote
redis_run-Keeps_example =
    Isolation.redis_run-Keeps itself latitude whole_seconds cache documented_client-IsClient calls
      host

abbrev dial : String → Result (Client Remote)
dial url = ok (documented_client latitude)

abbrev url : String
url = "redis://localhost"

abbrev start : Program (Host Remote)
start = record {
  wrappers = λ _. none;
  next = 0;
  trackers = λ _. [];
  next_tracker = 1;
  inner = host;
}

abbrev users : Wrapper (Host Remote)
users = record {
  inner =
      redis_cache whole_seconds
        (made whole_seconds dial url (documented_client latitude) "app:users:cache");
  tracker = 0;
}

users-IsName : IsName (full_name "app" "users")
unfolding full_name has_colon
users-IsName = record { nonempty = refl; no_colon = refl }

app-IsName : IsName "app"
unfolding has_colon
app-IsName = record { nonempty = refl; no_colon = refl }

users-app : full_name "app" "users" ≡ "app" → ⊥
unfolding full_name
users-app e = let same : false ≡ true = (eq_iff "app:users" "app").1 e in ground (arith, same)

wraps_users :
    (Factory.new (redis_factory whole_seconds dial url "app" 0) "users" start).1.wrappers 0
    ≡ some users
unfolding Factory.new build_redis full_name full_prefix has_colon new_redis
wraps_users = refl

factory_caches_apart_example :
    (run (issue users.inner) calls host).1.remote.hashes (key_of "app")
    ≡ host.remote.hashes (key_of "app")
factory_caches_apart_example =
    Apart.factory_caches_apart itself latitude whole_seconds dial url (documented_client latitude)
      "app" "users" "app" 0 start users calls host refl refl documented_client-IsClient users-IsName
      app-IsName users-app wraps_users

colon_names_share_example :
    build_redis whole_seconds dial url "app:" host ≡ build_redis whole_seconds dial url "app" host
colon_names_share_example =
    RedisBackend.colon_names_share whole_seconds dial url "app" host app-IsName
