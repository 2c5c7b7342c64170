-- ===== src/Factory/Apart.antt =====
-- factory.go over cache/redis.go: the caches that a Redis factory hands out share a server, and each works
-- on a hash of its own.
use mathlib.Core.Option.{some-injective}
use cachefx.Prelude.{
  ℕ, String, false, ◌≡◌, ◌≢◌, refl, ap, sym, ◌∙◌, subst, some, List, ◌==◌, eqb_iff, eq_iff,
  Bool-cases, inl, inr, ℤ,
}
use cachefx.Errors.{Result, ok}
use cachefx.Time.{Duration}
use cachefx.Cache.Issue.{issue}
use cachefx.Factory
use cachefx.Factory.{Factory, Program, Wrapper, full_name}
use cachefx.Factory.Names.{new-built}
use cachefx.Factory.RedisBackend.{
  build_redis, build_redis-dialled, made, key_of, key_of-inj, IsName,
}
use cachefx.Memory.Commands.{Command, run}
use cachefx.Redis.{Host, redis_cache}
use cachefx.Redis.Calls.{Client}
use cachefx.Redis.Documented.{Remote, Latitude}
use cachefx.Redis.Isolation.{redis_run-Keeps}
use cachefx.Redis.Laws.{IsClient}

-- A test that different texts do not pass.
differ : (a b : String) → a ≢ b → (a == b) ≡ false
differ a b h = elim (Bool-cases (a == b)) [
  | inl same ↦ absurd (h ((eq_iff a b).0 same))
  | inr other ↦ other
]

module _ {S : Type 0} (seconds : Duration → ℤ) (dial : String → Result (Client S))
    (url : String) where
  -- a factory that NewFactory made for the scheme "redis", or one derived from it
  abbrev pub redis_factory : String → ℕ → Factory (Host S)
  redis_factory prefix tracker = record {
    prefix = prefix;
    build = build_redis seconds dial url;
    tracker = tracker;
  }

  -- what stands behind the wrapper that New hands out
  wrapped_redis :
      (client : Client S) (prefix name : String) (tracker : ℕ) (p : Program (Host S))
      → (url == "") ≡ false
      → dial url ≡ ok client
      → (Factory.new (redis_factory prefix tracker) name p).1.wrappers p.next
        ≡ some (record {
          inner =
              redis_cache seconds (made seconds dial url client (key_of (full_name prefix name)));
          tracker = tracker;
        })
  wrapped_redis client prefix name tracker p u d =
      let f = redis_factory prefix tracker in
      let full = full_name prefix name in
      let c = redis_cache seconds (made seconds dial url client (key_of full)) in
      ap (λ o. o.1.wrappers p.next)
        (new-built f name p (ok c)
          (ap (λ x. x.0) (build_redis-dialled seconds dial url full p.inner) ∙ rw (u, d) refl))
      ∙ rw ((eqb_iff p.next p.next).1 refl) refl

module _ {S : Type 0} (view : S → Remote) (l : Latitude) (seconds : Duration → ℤ)
    (dial : String → Result (Client S)) (url : String) where
  -- Any calls on a cache that a Redis factory has handed out, over a client that behaves as documented,
  -- leave the hash of a cache with another full name as it is, if both names are some text that does not
  -- end in a colon.
  pub factory_caches_apart :
      (client : Client S) (prefix name other : String) (tracker : ℕ) (p : Program (Host S))
      (u : Wrapper (Host S)) (cs : List Command) (h : Host S)
      → (url == "") ≡ false
      → dial url ≡ ok client
      → IsClient view l client
      → IsName (full_name prefix name)
      → IsName other
      → full_name prefix name ≢ other
      → (Factory.new (redis_factory seconds dial url prefix tracker) name p).1.wrappers p.next
        ≡ some u
      → (view (run (issue u.inner) cs h).1.remote).hashes (key_of other)
        ≡ (view h.remote).hashes (key_of other)
  factory_caches_apart client prefix name other tracker p u cs h given dials v mine theirs apart
        wraps =
      let full = full_name prefix name in
      let r = made seconds dial url client (key_of full) in
      let w : Wrapper (Host S) = record { inner = redis_cache seconds r; tracker = tracker } in
      let same : w ≡ u =
        some-injective w u
          (sym (wrapped_redis seconds dial url client prefix name tracker p given dials) ∙ wraps) in
      let keys =
        differ (key_of full) (key_of other) (λ e. apart (key_of-inj full other mine theirs e)) in
      subst
        (λ x.
          (view (run (issue x.inner) cs h).1.remote).hashes (key_of other)
          ≡ (view h.remote).hashes (key_of other))
        same ((redis_run-Keeps view l seconds r v cs h).others (key_of other) keys)
