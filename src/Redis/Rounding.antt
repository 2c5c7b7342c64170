-- ===== src/Redis/Rounding.antt =====
-- The deadlines of cache/redis.go: Redis is told whole seconds.
use cachefx.Prelude.{
  Bytes, String, true, false, ◌+◌, ◌*◌, ◌≡◌, refl, ◌∙◌, some, List, eq_refl, ℤ, pos, negsuc, ◌+ℤ◌,
  ◌≤ℤ◌, ◌<ℤ◌, pos_part, neg_part, +ℤ_parts, arith,
}
use cachefx.Dict.{IsMap}
use cachefx.Options.{SetOption}
use cachefx.Time.{Time, Duration, is_zero, now, tick, unix, unix_bounds}
use cachefx.Redis
use cachefx.Redis.{RedisCache, Host}
use cachefx.Redis.Documented.{Remote, Latitude, live_at, millis}
use cachefx.Redis.Laws.{IsClient}
use cachefx.Redis.Fields.{field}
use cachefx.Redis.Storing.{in_time, deadline, redis_set_lem, stored}

-- milliseconds as nanoseconds
abbrev nanos : ℤ → ℤ
nanos (pos n) = pos (n * 1_000_000)
nanos (negsuc n) = negsuc (n * 1_000_000 + 999_999)

-- a number of milliseconds behind the epoch of Unix, as a `Time`
abbrev pub instant : ℤ → Time
instant e = nanos e +ℤ pos 62_135_596_800_000_000_000

nanos-millis :
    (s : ℤ)
    → (pos_part (nanos (millis s)) ≡ pos_part s * 1_000_000_000)
      × (neg_part (nanos (millis s)) ≡ neg_part s * 1_000_000_000)
unfolding millis
nanos-millis (pos n) = (omega arith, refl)
nanos-millis (negsuc n) = (refl, omega arith)

-- Truncated to a whole second, a time comes out less than a second early, and never late.
millis_unix :
    (t : Time)
    → (instant (millis (unix t)) ≤ℤ t) × (t <ℤ instant (millis (unix t)) +ℤ pos 1_000_000_000)
millis_unix t =
    let e = nanos (millis (unix t)) in
    let (p, n) = nanos-millis (unix t) in
    let (low, high) = unix_bounds t in
    let shifted = +ℤ_parts e (pos 62_135_596_800_000_000_000) in
    let later = +ℤ_parts (instant (millis (unix t))) (pos 1_000_000_000) in
    (omega (arith, p, n, low, high, shifted, later), omega (arith, p, n, low, high, shifted, later))

-- A Set with a deadline, over a client that behaves as documented and on a server that takes the deadline:
-- the field expires less than a second before the deadline and never after it, and is already gone
-- if the server's clock is that far.
pub redis_set_bounds :
    {S : Type 0} (view : S → Remote) (l : Latitude) (seconds : Duration → ℤ) (r : RedisCache S)
    (k : String) (value : Bytes) (opts : List SetOption) (h : Host S)
    → IsClient view l r.client
    → IsMap ((view h.remote).hashes r.key)
    → in_time l (deadline r.ttl opts h.clock) ≡ true
    → is_zero (deadline r.ttl opts h.clock) ≡ false
    → (e : ℤ) × (field r.key (view (Redis.set seconds r k value opts h).1.remote) k
        ≡ live_at
            (now (tick (view h.remote).clock))
            (some (record { value = value; expires = some e })))
      × (instant e ≤ℤ deadline r.ttl opts h.clock)
      × (deadline r.ttl opts h.clock <ℤ instant e +ℤ pos 1_000_000_000)
redis_set_bounds view l seconds r k value opts h v m ahead ends =
    let t = deadline r.ttl opts h.clock in
    let (_, wrote) = redis_set_lem view l seconds r k value opts h v m ahead in
    let u = now (tick (view h.remote).clock) in
    let lasting : stored value t u
        ≡ live_at u (some (record { value = value; expires = some (millis (unix t)) })) =
      rw ends refl in
    let (early, late) = millis_unix t in
    (millis (unix t), wrote.written k ∙ rw eq_refl lasting, early, late)
