-- ===== src/Redis/Agreement.antt =====
-- The two backends of cache/, with no default TTL and used with no option: they answer alike.
use cachefx.Prelude.{false, ◌≡◌, refl, ap, List, ℤ}
use cachefx.Time.{Duration, is_positive}
use cachefx.Cache.Plain
use cachefx.Cache.Plain.{
  Values, Step, IsPlain, Call, play, serve, run, run-Step, status, bytes, contents, set,
  set_or_fail, get, get_and_delete, delete, cleanup, drain, shown_items,
}
use cachefx.Memory.{World}
use cachefx.Memory.Interface.{memory_cache}
use cachefx.Memory.Plain.{Shows, memory_cache-IsPlain}
use cachefx.Redis
use cachefx.Redis.{RedisCache, Host, redis_cache, base_options, item_options, ttl_args}
use cachefx.Redis.Documented.{Remote, Latitude}
use cachefx.Redis.Laws.{IsClient}
use cachefx.Redis.Draining.{IsListing}
use cachefx.Redis.Plain.{
  Serves, set-Step, set_or_fail-Step, get_and_delete-Step, get-Step, delete-Step, drain-Step,
}

under :
    {S A : Type 0} {Shows : S → Values → Type 0} {x : A × S} {y : A × Values} (f : A → Plain.Answer)
    → Step Shows x y
    → Step Shows (f x.0, x.1) (f y.0, y.1)
under f step = record { answer = ap f step.answer; shown = step.shown }

module _ {S : Type 0} (view : S → Remote) (l : Latitude) (seconds : Duration → ℤ)
    (r : RedisCache S) where
  module _ (v : IsClient view l r.client) (no_ttl : is_positive r.ttl ≡ false) where
    play-Step :
        IsListing l
        → (call : Call) (h : Host S) (m : Values) → Serves view l seconds r h m
        → Step (Serves view l seconds r) (play (redis_cache seconds r) call h) (serve call m)
    unfolding play serve Redis.cleanup
    play-Step listing (set k value) h m holds = set-Step view l seconds r v no_ttl k value h m holds
    play-Step listing (set_or_fail k value) h m holds =
        under status (set_or_fail-Step view l seconds r v no_ttl k value h m holds)
    play-Step listing (get k) h m holds =
        under bytes (get-Step view l seconds r v no_ttl k h m holds)
    play-Step listing (get_and_delete k) h m holds =
        under bytes (get_and_delete-Step view l seconds r v no_ttl k h m holds)
    play-Step listing (delete k) h m holds =
        under status (delete-Step view l seconds r v no_ttl k h m holds)
    play-Step listing cleanup h m holds = record { answer = refl; shown = holds }
    play-Step listing drain h m holds = drain-Step view l seconds r v no_ttl h m listing holds

    -- The Redis cache with no default TTL is a map to a client that gives no options.
    pub redis_cache-IsPlain :
        IsListing l → IsPlain (Serves view l seconds r) (redis_cache seconds r)
    redis_cache-IsPlain listing = record {
      step = λ call {s = h} {m = m} holds. play-Step listing call h m holds;
    }

    -- The backends as the factory configures them, with no default TTL, over a client that behaves as
    -- documented, whatever the order in which the server lists a hash: from states that hold the same
    -- values for ever, any list of calls with no options gets the same answers from both caches, those of
    -- a map from keys to values, and the states behind it hold the same values again.
    pub backends_agree :
        (calls : List Call) (w : World) (h : Host S) (m : Values)
        → IsListing l
        → Shows w m
        → Serves view l seconds r h m
        → ((run (play memory_cache) calls w).0 ≡ (run serve calls m).0)
          × ((run (play (redis_cache seconds r)) calls h).0 ≡ (run serve calls m).0)
          × Shows (run (play memory_cache) calls w).1 (run serve calls m).1
          × Serves view l seconds r
              (run (play (redis_cache seconds r)) calls h).1
              (run serve calls m).1
    backends_agree calls w h m listing shows serves =
        let first = run-Step Shows memory_cache calls memory_cache-IsPlain shows in
        let second =
          run-Step (Serves view l seconds r) (redis_cache seconds r) calls {s = h} {m = m}
            (redis_cache-IsPlain listing) serves in
        (first.answer, second.answer, first.shown, second.shown)
