-- ===== src/Redis/Defaults.antt =====
-- `AndDefaultTTL` where the default is no expiration: cache/memory.go and cache/redis.go differ.
use cachefx.Prelude.{
  String, true, false, ◌≡◌, refl, ap, sym, ◌∙◌, none, some, [], ◌∷◌, eq_refl, ℤ, pos, subst,
  is_zero_ℤ, ltb_ℤ, Option, if◌then◌else◌,
}
use cachefx.Dict.{IsMap}
use cachefx.Options.{and_default_ttl, apply_get, no_get_options, is_empty}
use cachefx.Time.{Time, Duration, is_positive, zero_time, now, tick}
use cachefx.Memory
use cachefx.Memory.{World}
use cachefx.Memory.Valid.{IsValid, entry}
use cachefx.Memory.Spec.{has_passed}
use cachefx.Memory.Refresh.{get_refreshes, chosen}
use cachefx.Redis
use cachefx.Redis.{RedisCache, Host, ttl_args}
use cachefx.Redis.Documented.{Remote, Latitude, Field, found, live_at}
use cachefx.Redis.Laws.{IsClient}
use cachefx.Redis.Fields.{field}
use cachefx.Redis.Renewing.{Still, renewed, live_inv}
use cachefx.Redis.Reading.{get-ReadAnswers, ReadAnswers}
use cachefx.Redis.Evaluating.{script_in_time}
use cachefx.Redis.Storing.{left}

module _ (seconds : Duration → ℤ) (ttl : Duration) (t : Time)
    (none_set : is_positive ttl ≡ false) where
  no_args :
      ttl_args seconds (apply_get (and_default_ttl ∷ []) no_get_options) ttl t ≡ (pos 0, pos 0)
  unfolding ttl_args apply_get
  no_args = rw none_set refl

memory_clears :
    (k : String) (i : Memory.MemoryItem) {w : World}
    → IsValid w
    → entry w k ≡ some i
    → has_passed i (now w.clock) ≡ false
    → is_positive w.ttl ≡ false
    → entry (Memory.get k (and_default_ttl ∷ []) w).1 k
      ≡ some (record i { valid_until = zero_time })
unfolding has_passed is_zero_ℤ
memory_clears k i {w} valid there live no_ttl =
    let result : Time → Option Memory.MemoryItem = λ u.
      if has_passed (record i { valid_until = u }) (now (tick w.clock))
      then none
      else some (record i { valid_until = u }) in
    let cleared : chosen (and_default_ttl ∷ []) w.ttl (now w.clock) i.valid_until ≡ zero_time =
      rw no_ttl refl in
    let written : entry (Memory.get k (and_default_ttl ∷ []) w).1 k
        ≡ result (chosen (and_default_ttl ∷ []) w.ttl (now w.clock) i.valid_until) =
      (get_refreshes k and_default_ttl [] i valid there live refl).1 k ∙ rw eq_refl refl in
    written ∙ ap result cleared

redis_keeps :
    {S : Type 0} (view : S → Remote) (l : Latitude) (seconds : Duration → ℤ) (r : RedisCache S)
    (k : String) (x : Field) (h : Host S)
    → IsClient view l r.client
    → IsMap ((view h.remote).hashes r.key)
    → Still (view h.remote).clock
    → found (view h.remote) r.key k ≡ some x
    → is_positive r.ttl ≡ false
    → field r.key (view (Redis.get seconds r k (and_default_ttl ∷ []) h).1.remote) k ≡ some x
unfolding apply_get ltb_ℤ is_empty
redis_keeps view l seconds r k x h v m still there no_ttl =
    let s = view h.remote in
    let args = no_args seconds r.ttl (now h.clock) no_ttl in
    let in_range : script_in_time l (apply_get (and_default_ttl ∷ []) no_get_options).delete
          (ttl_args seconds (apply_get (and_default_ttl ∷ []) no_get_options) r.ttl (now h.clock)).0
        ≡ true =
      rw args refl in
    let o = apply_get (and_default_ttl ∷ []) no_get_options in
    let u = now s.clock in
    let a = left view (Redis.get seconds r k (and_default_ttl ∷ []) h) in
    let answers = get-ReadAnswers view l seconds r k (and_default_ttl ∷ []) h v m still in_range in
    let (_, wrote) = subst (λ p. ReadAnswers view l seconds r o k h.clock s p a) there answers in
    let (same, _) = live_inv u (field r.key s k) x there in
    let kept = ap (λ args. live_at u (some (renewed l args u x))) args in
    wrote.written k ∙ rw eq_refl kept ∙ ap (live_at u) (sym same) ∙ there

-- A Get with AndDefaultTTL where the default TTL is not positive: the cache in memory takes the deadline of
-- a live entry away, and the cache in Redis, over a client that behaves as documented and a server
-- whose clock stands still for the commands of a script, leaves the expiry of the field as it was.
pub default_ttl_differs :
    {S : Type 0} (view : S → Remote) (l : Latitude) (seconds : Duration → ℤ) (r : RedisCache S)
    (k : String) (i : Memory.MemoryItem) (x : Field) (h : Host S) {w : World}
    → IsValid w
    → entry w k ≡ some i
    → has_passed i (now w.clock) ≡ false
    → is_positive w.ttl ≡ false
    → IsClient view l r.client
    → IsMap ((view h.remote).hashes r.key)
    → Still (view h.remote).clock
    → found (view h.remote) r.key k ≡ some x
    → is_positive r.ttl ≡ false
    → (entry (Memory.get k (and_default_ttl ∷ []) w).1 k
        ≡ some (record i { valid_until = zero_time }))
      × (field r.key (view (Redis.get seconds r k (and_default_ttl ∷ []) h).1.remote) k ≡ some x)
default_ttl_differs view l seconds r k i x h {w} valid there live no_ttl v m still found_x
      no_default =
    (
      memory_clears k i valid there live no_ttl,
      redis_keeps view l seconds r k x h v m still found_x no_default,
    )
