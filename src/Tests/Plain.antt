-- ===== src/Tests/Plain.antt =====
-- The two backends with no default TTL, run side by side.
use cachefx.Prelude.{◌≡◌, refl, none, [], ◌∷◌, List, ltb_ℤ}
use cachefx.Errors.{done, ok, err, sentinel, err_key_exists, err_key_not_found}
use cachefx.Dict.{lookup}
use cachefx.Cache.Plain.{
  Values, Call, Answer, run, play, serve, status, bytes, set, set_or_fail, get, get_and_delete,
}
use cachefx.Memory.Interface.{memory_cache}
use cachefx.Memory.Plain.{Shows}
use cachefx.Redis.{Host, redis_cache}
use cachefx.Redis.Documented.{Remote}
use cachefx.Redis.Plain.{Serves}
use cachefx.Redis.Agreement
use cachefx.Tests.Data.{program, empty, empty-IsValid}
use cachefx.Tests.Redis.{
  itself, latitude, whole_seconds, lasting_cache, documented_client-IsClient, listing, host,
}

abbrev nothing : Values
nothing _ = none

-- a server with no hash
abbrev unused : Host Remote
unused = record host { remote = record { hashes = λ _. []; clock = host.remote.clock } }

abbrev calls : List Call
calls = set "a" (7 ∷ []) ∷ set_or_fail "a" (8 ∷ []) ∷ get "a" ∷ get_and_delete "a" ∷ get "a" ∷ []

abbrev answers : List Answer
answers =
    status done
    ∷ status (err (sentinel err_key_exists))
    ∷ bytes (ok (7 ∷ []))
    ∷ bytes (ok (7 ∷ []))
    ∷ bytes (err (sentinel err_key_not_found))
    ∷ []

empty-Shows : Shows empty nothing
unfolding program
empty-Shows = record { valid = empty-IsValid; no_ttl = refl; entries = refl }

unused-Serves : Serves itself latitude whole_seconds lasting_cache unused nothing
unfolding lookup
unused-Serves = record { valid = tt; fields = λ k. refl }

backends_agree_example :
    ((run (play memory_cache) calls empty).0 ≡ answers)
    × ((run (play (redis_cache whole_seconds lasting_cache)) calls unused).0 ≡ answers)
    × Shows (run (play memory_cache) calls empty).1 (run serve calls nothing).1
    × Serves itself latitude whole_seconds lasting_cache
        (run (play (redis_cache whole_seconds lasting_cache)) calls unused).1
        (run serve calls nothing).1
unfolding run serve ltb_ℤ
backends_agree_example =
    Agreement.backends_agree itself latitude whole_seconds lasting_cache documented_client-IsClient
      refl calls empty unused nothing listing empty-Shows unused-Serves
