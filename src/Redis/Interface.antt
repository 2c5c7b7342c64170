-- ===== src/Redis/Interface.antt =====
-- `RedisCache` as an implementation of the interface `Cache`, over a client that behaves as documented.
use cachefx.Prelude.{
  Bytes, String, ◌≡◌, refl, ap, ◌∙◌, subst, some, List, [], eq_refl, ℤ, pos, is_zero_ℤ, none,
}
use cachefx.Errors.{ok}
use cachefx.Dict.{IsMap}
use cachefx.Cache.Laws.{IsStore, forever}
use cachefx.Options.{SetOption, with_ttl, ttl_deadline, no_get_options, apply_get, is_empty}
use cachefx.Options.Last.{apply-last}
use cachefx.Time.{Duration, Clock, zero_time, now, tick}
use cachefx.Redis
use cachefx.Redis.{RedisCache, Host, base_options, item_options, get_with, redis_cache}
use cachefx.Redis.Documented.{Remote, Latitude, live_at, has_ended, found, ticked}
use cachefx.Redis.Laws.{IsClient}
use cachefx.Redis.Methods.{seen, get_with-Follows}
use cachefx.Redis.Fields.{field}
use cachefx.Redis.Storing.{in_time, deadline, left, redis_set_lem, Stores, stored}
use cachefx.Redis.Reading.{get_plain-Answers}
use cachefx.Redis.Evaluating.{plain_reply}

deadline-forever :
    (ttl : Duration) (opts : List SetOption) (c : Clock) → deadline ttl (forever opts) c ≡ zero_time
unfolding item_options ttl_deadline is_zero_ℤ
deadline-forever ttl opts c =
    let (base, c1) = base_options ttl c in apply-last opts (with_ttl (pos 0)) base c1

module _ {S : Type 0} (view : S → Remote) (l : Latitude) (seconds : Duration → ℤ)
    (r : RedisCache S) where
  -- The hash of the cache lists no field twice.
  abbrev pub IsReady : Host S → Type 0
  IsReady h = IsMap ((view h.remote).hashes r.key)

  module _ (v : IsClient view l r.client) where
    set_forever :
        (k : String) (value : Bytes) (opts : List SetOption) (h : Host S)
        → IsReady h
        → Stores r.key k value zero_time
            (view h.remote)
            (left view (Redis.set seconds r k value (forever opts) h))
    unfolding is_zero_ℤ
    set_forever k value opts h m =
        let t = deadline-forever r.ttl opts h.clock in
        subst
          (λ x.
            Stores r.key k value x (view h.remote)
              (left view (Redis.set seconds r k value (forever opts) h)))
          t (redis_set_lem view l seconds r k value (forever opts) h v m (ap (in_time l) t))

    pub get_current :
        (k : String) (h : Host S)
        → ((Redis.get seconds r k [] h).0 ≡ plain_reply (found (view h.remote) r.key k))
          × (view (Redis.get seconds r k [] h).1.remote ≡ ticked (view h.remote))
    unfolding Redis.get get_with apply_get is_empty
    get_current k h =
        let (same, state) = get_with-Follows view l r v seconds no_get_options k h in
        let plain = get_plain-Answers view l seconds r k (seen view h) in
        (same ∙ ap (λ x. x.0) plain, ap (λ x. x.remote) state ∙ ap (λ x. x.1) plain)

    get-set_forever :
        (k : String) (value : Bytes) (opts : List SetOption) (h : Host S)
        → IsReady h
        → (Redis.get seconds r k [] (Redis.set seconds r k value (forever opts) h).1).0 ≡ ok value
    unfolding has_ended is_zero_ℤ
    get-set_forever k value opts h m =
        let h1 = (Redis.set seconds r k value (forever opts) h).1 in
        let (_, wrote) = set_forever k value opts h m in
        let lasting : stored value zero_time (now (tick (view h.remote).clock))
            ≡ some (record { value = value; expires = none }) =
          refl in
        let there : field r.key (view h1.remote) k
            ≡ some (record { value = value; expires = none }) =
          wrote.written k ∙ rw eq_refl lasting in
        (get_current k h1).0 ∙ ap (λ x. plain_reply (live_at (now (view h1.remote).clock) x)) there

  -- Over a client that behaves as documented the cache keeps what is set to live for ever: the Set answers
  -- no error, whatever its other options, and a Get right after it answers the value.
  pub redis_cache-IsStore : IsClient view l r.client → IsStore (redis_cache seconds r) IsReady
  redis_cache-IsStore v = record {
    set_done = λ k value opts {s = h} m. (set_forever v k value opts h m).0;
    set_ready = λ k value opts {s = h} m. (set_forever v k value opts h m).1.valid;
    get_set = λ k value opts {s = h} m. get-set_forever v k value opts h m;
  }
