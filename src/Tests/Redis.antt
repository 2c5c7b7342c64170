-- ===== src/Tests/Redis.antt =====
-- cache/redis.go over the documented client, on a server with one hash.
use cachefx.Prelude.{
  ◌/◌, ◌≡◌, refl, true, false, none, some, [], ◌∷◌, ◌==◌, if◌then◌else◌, ℤ, pos, pos_part, ◌+ℤ◌,
  ◌≤ℤ◌, ◌<ℤ◌, ltb_ℤ, is_zero_ℤ,
}
use cachefx.Errors.{ok, err, sentinel, redis_nil}
use cachefx.Dict.{lookup, insert, erase, retain, IsMap}
use cachefx.Options.{
  with_ttl, with_valid_until, and_update_ttl, and_default_ttl, and_delete, apply, set_option,
  ttl_deadline, apply_get, is_empty,
}
use cachefx.Time.{Duration, now, unix}
use cachefx.Redis
use cachefx.Redis.{redis_cache, RedisCache, Host, item_options, base_options, ttl_args}
use cachefx.Redis.Config.{new_redis, RedisConfig}
use cachefx.Redis.Documented.{Remote, Latitude, documented_client, live_at, has_ended, reply_or_nil}
use cachefx.Redis.Laws.{IsClient, IsServer, >>=-Follows}
use cachefx.Redis.Fields.{field}
use cachefx.Redis.Renewing.{Still}
use cachefx.Redis.Storing
use cachefx.Redis.Storing.{Stores, deadline, left, in_time}
use cachefx.Redis.Adding
use cachefx.Redis.Adding.{AddAnswers}
use cachefx.Redis.Asked
use cachefx.Redis.Asked.{Gives}
use cachefx.Redis.Draining
use cachefx.Redis.Draining.{IsListing, DrainAnswers}
use cachefx.Redis.Failures
use cachefx.Redis.Replies.{Misses}
use cachefx.Redis.Unexpiring
use cachefx.Redis.Unexpiring.{Unexpiring}
use cachefx.Redis.Deleting
use cachefx.Redis.Deleting.{Taken}
use cachefx.Redis.Rounding
use cachefx.Redis.Rounding.{instant}
use cachefx.Redis.Defaults
use cachefx.Redis.Making
use cachefx.Redis.Making.{Made}
use cachefx.Memory
use cachefx.Memory.Valid.{entry}
use cachefx.Tests.Data.{program, one, item, one-IsValid}

unfoldable rules : Unit {0}
unfolding lookup insert erase retain apply set_option ttl_deadline apply_get is_empty item_options
    base_options ttl_args has_ended unix ◌+ℤ◌ ltb_ℤ is_zero_ℤ
rules = tt

-- whole seconds, rounded down, any time behind the epoch, and no UNLINK
abbrev pub latitude : Latitude
latitude = record {
  order = λ _ d. d;
  in_seconds = λ e. pos (pos_part e / 1000);
  in_range = λ e. ltb_ℤ (pos 0) e;
  has_unlink = false;
}

abbrev pub itself : Remote → Remote
itself s = s

documented_server-IsServer : IsServer itself latitude (documented_client latitude).server
documented_server-IsServer = record {
  h_get = λ key f s. (refl, refl);
  h_del = λ key f s. (refl, refl);
  h_get_all = λ key s. (refl, refl);
  h_expire_at = λ key e f s. (refl, refl);
  h_expire = λ key ttl f s. (refl, refl);
  h_ttl = λ key f s. (refl, refl);
  unlink = λ key s. (refl, refl);
  del = λ key s. (refl, refl);
}

pub documented_client-IsClient : IsClient itself latitude (documented_client latitude)
documented_client-IsClient = record {
  server = documented_server-IsServer;
  h_get = λ key f s. (refl, refl);
  h_del = λ key f s. (refl, refl);
  h_set_nx = λ key f v s. (refl, refl);
  h_expire_at = λ key t f s. (refl, refl);
  pipelined = λ cs s. (refl, refl);
  eval = λ m n h.
      >>=-Follows itself (reply_or_nil latitude) (reply_or_nil latitude) (λ a s. (refl, refl)) m n
        h;
  close = λ s. (refl, refl);
}

abbrev pub listing : IsListing latitude
listing = record { once = λ n d m. m; whole = λ n d k m. refl }

-- a minute
abbrev minute : Duration
minute = pos 60_000_000_000

abbrev pub cache : RedisCache Remote
cache = record {
  client = documented_client latitude;
  owned_client = true;
  key = "app:cache";
  ttl = minute;
}

-- the seconds of a duration
abbrev pub whole_seconds : Duration → ℤ
whole_seconds d = pos (pos_part d / 1_000_000_000)

-- "a" has half a minute to go, at 1,700,000,000 seconds behind the epoch.
abbrev pub host : Host Remote
host = record {
  clock = record { at = λ _. pos 63_835_596_800_000_000_000; reads = 0 };
  remote = record {
    hashes = λ key.
        if key == "app:cache"
        then ("a", record { value = 7 ∷ []; expires = some (pos 1_700_000_030_000) }) ∷ []
        else [];
    clock = record { at = λ _. pos 1_700_000_000_000; reads = 0 };
  };
}

pub host-IsMap : IsMap (host.remote.hashes "app:cache")
unfolding lookup
host-IsMap = (refl, tt)

still : Still host.remote.clock
still = (refl, refl)

redis_set_lem_example :
    Stores "app:cache" "n"
      (5 ∷ [])
      (pos 63_835_596_860_000_000_000)
      host.remote
      (left itself (Redis.set whole_seconds cache "n" (5 ∷ []) [] host))
unfolding rules
redis_set_lem_example =
    Storing.redis_set_lem itself latitude whole_seconds cache "n" (5 ∷ []) [] host
      documented_client-IsClient host-IsMap refl

redis_set_or_fail_lem_example :
    AddAnswers itself latitude whole_seconds cache "a"
      (5 ∷ [])
      (pos 63_835_596_860_000_000_000)
      host.remote
      (some (record { value = 7 ∷ []; expires = some (pos 1_700_000_030_000) }))
      (left itself (Redis.set_or_fail whole_seconds cache "a" (5 ∷ []) [] host))
unfolding rules
redis_set_or_fail_lem_example =
    Adding.redis_set_or_fail_lem itself latitude whole_seconds cache "a" (5 ∷ []) [] host
      documented_client-IsClient host-IsMap refl

redis_get_lem_example :
    Gives latitude whole_seconds minute "app:cache" "a"
      (and_update_ttl minute ∷ [])
      (now host.clock)
      host.remote
      (some (record { value = 7 ∷ []; expires = some (pos 1_700_000_030_000) }))
      (left itself (Redis.get whole_seconds cache "a" (and_update_ttl minute ∷ []) host))
unfolding rules
redis_get_lem_example =
    Asked.redis_get_lem itself latitude whole_seconds cache "a" (and_update_ttl minute ∷ []) host
      documented_client-IsClient host-IsMap still refl

redis_drain_lem_example :
    DrainAnswers "app:cache" host.remote (left itself (Redis.drain whole_seconds cache host))
redis_drain_lem_example =
    Draining.redis_drain_lem itself latitude whole_seconds cache host documented_client-IsClient
      host-IsMap listing

redis_errors_example :
    Misses ok (err (sentinel redis_nil)) (Redis.get whole_seconds cache "n" [] host).0
unfolding rules
redis_errors_example =
    (Failures.redis_errors whole_seconds cache "n" (5 ∷ []) [] and_delete [] host).2

redis_expiry_refused_example :
    Unexpiring "failed to set cache item: %w" "app:cache" "n" (5 ∷ []) host.remote (
      left itself (Redis.set whole_seconds cache "n" (5 ∷ []) (with_valid_until (pos 1) ∷ []) host))
    × Unexpiring "failed to set cache item ttl: %w" "app:cache" "n" (5 ∷ []) host.remote (
        left itself
          (Redis.set_or_fail whole_seconds cache "n" (5 ∷ []) (with_valid_until (pos 1) ∷ []) host))
unfolding rules
redis_expiry_refused_example =
    Unexpiring.redis_expiry_refused itself latitude whole_seconds cache "n" (5 ∷ [])
      (with_valid_until (pos 1) ∷ []) host documented_client-IsClient host-IsMap refl refl refl

-- a Set with half a second to live, half a second behind a whole one: gone at once
abbrev half_past : Host Remote
half_past = record host { clock = record { at = λ _. pos 63_835_596_800_100_000_000; reads = 0 } }

redis_set_bounds_example :
    (e : ℤ) × (field "app:cache"
        (Redis.set whole_seconds cache "n"
          (5 ∷ [])
          (with_ttl (pos 500_000_000) ∷ [])
          half_past).1.remote
        "n"
      ≡ live_at (pos 1_700_000_000_000) (some (record { value = 5 ∷ []; expires = some e })))
    × (instant e ≤ℤ pos 63_835_596_800_600_000_000)
    × (pos 63_835_596_800_600_000_000 <ℤ instant e +ℤ pos 1_000_000_000)
unfolding rules
redis_set_bounds_example =
    Rounding.redis_set_bounds itself latitude whole_seconds cache "n" (5 ∷ [])
      (with_ttl (pos 500_000_000) ∷ []) half_past documented_client-IsClient host-IsMap refl refl

abbrev config : RedisConfig Remote
config = record { client = none; url = "redis://localhost"; prefix = "app"; ttl = minute }

abbrev pub lasting_cache : RedisCache Remote
lasting_cache = record cache { ttl = pos 0 }

default_ttl_differs_example :
    (entry (Memory.get "a" (and_default_ttl ∷ []) one).1 "a"
      ≡ some (record item { valid_until = pos 0 }))
    × (field "app:cache"
          (Redis.get whole_seconds lasting_cache "a" (and_default_ttl ∷ []) host).1.remote
          "a"
        ≡ some (record { value = 7 ∷ []; expires = some (pos 1_700_000_030_000) }))
unfolding program rules
default_ttl_differs_example =
    Defaults.default_ttl_differs itself latitude whole_seconds lasting_cache "a" item
      (record { value = 7 ∷ []; expires = some (pos 1_700_000_030_000) }) host one-IsValid refl refl
      refl documented_client-IsClient host-IsMap still refl refl

new_redis_lem_example :
    Made config
      (documented_client latitude)
      true
      (new_redis (λ _. ok (documented_client latitude)) config)
new_redis_lem_example = Making.new_redis_lem (λ _. ok (documented_client latitude)) config

redis_get_and_delete_lem_example :
    Taken itself latitude whole_seconds cache "a" host.remote
      (some (record { value = 7 ∷ []; expires = some (pos 1_700_000_030_000) }))
      (left itself (Redis.get_and_delete whole_seconds cache "a" host))
unfolding rules
redis_get_and_delete_lem_example =
    Deleting.redis_get_and_delete_lem itself latitude whole_seconds cache "a" host
      documented_client-IsClient host-IsMap still
