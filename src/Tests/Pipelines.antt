-- ===== src/Tests/Pipelines.antt =====
-- cache/redis.go: two Sets of a key that the server handles at the same time.
use cachefx.Prelude.{refl, [], ◌∷◌, pos, is_zero_ℤ, ltb_ℤ, ◌+ℤ◌}
use cachefx.Redis.Documented.{millis}
use cachefx.Redis.Pipelines.Mixing
use cachefx.Redis.Pipelines.Forever
use cachefx.Redis.Pipelines.Forever.{Crosses}
use cachefx.Redis.Pipelines.{Write}
use cachefx.Tests.Redis.{latitude, host, host-IsMap}
use cachefx.Time.{zero_time, unix}

-- half a minute behind the server's time
abbrev brief : Write
brief = record { value = 1 ∷ []; deadline = pos 63_835_596_830_000_000_000 }

abbrev lasting : Write
lasting = record { value = 2 ∷ []; deadline = zero_time }

set_forever_expires_example : Crosses latitude "app:cache" "a" brief lasting host.remote
unfolding is_zero_ℤ unix ltb_ℤ ◌+ℤ◌ millis
set_forever_expires_example =
    Forever.set_forever_expires latitude "app:cache" "a" brief lasting host.remote host-IsMap refl
      refl refl refl
