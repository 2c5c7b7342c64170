-- ===== src/Redis/Adding.antt =====
-- `SetOrFail` of cache/redis.go over a client that behaves as documented.
use cachefx.Prelude.{
  Bytes, String, Bool, true, false, ◌≡◌, refl, ap, sym, subst, Option, none, some, List, ℤ,
  Bool-cases, inl, inr,
}
use cachefx.Errors.{Result, ok, err, sentinel, err_key_exists, Status, done, wrap}
use cachefx.Dict.{IsMap}
use cachefx.Options.{SetOption}
use cachefx.Time.{Time, Duration, Clock, is_zero}
use cachefx.Redis
use cachefx.Redis.{
  RedisCache, Host, item_options, queue, set_until, expire_at, added, with_error, on_server,
}
use cachefx.Redis.Calls.{pure, ◌>>=◌}
use cachefx.Redis.Documented.{Remote, Latitude, Field, documented_client, found, ticked, add_field}
use cachefx.Redis.Laws.{IsClient, >>-ok}
use cachefx.Redis.Methods.{seen, documented, set_or_fail-Follows}
use cachefx.Redis.Fields.{Wrote-trans}
use cachefx.Redis.Storing.{
  in_time, zero_or, Stores, fresh, fresh-Wrote, fresh_expires, deadline, left,
}

module _ {S : Type 0} (view : S → Remote) (l : Latitude) (seconds : Duration → ℤ)
    (r : RedisCache S) where
  -- What SetOrFail does, by what the server has under the key.
  abbrev pub AddAnswers : String → Bytes → Time → Remote → Option Field → Status × Remote → Type 0
  AddAnswers k value t s (some _) a = (a.0 ≡ err (sentinel err_key_exists)) × (a.1 ≡ ticked s)
  AddAnswers k value t s none a = Stores r.key k value t s a

  -- `SetOrFail` of the documented client behind its `HSETNX`
  abbrev pub behind_add :
      String → List SetOption → Host Remote → Result Bool × Remote → Status × Host Remote
  behind_add k opts h x =
      ((λ _. (with_error (wrap "failed to set cache item: %w") x.0, record h { remote = x.1 }))
          >>= added seconds (documented l r) k opts)
        h

  fresh-Stores :
      (k : String) (value : Bytes) (t : Time) (s : Remote) (m : IsMap (s.hashes r.key)) (c : Clock)
      → in_time l t ≡ true
      → Stores r.key k value t s (
          left
            (λ s. s)
            (expire_at seconds
              (documented l r)
              k
              t
              (record { clock = c; remote = fresh l r.key k value t s m })))
  unfolding expire_at
  fresh-Stores k value t s m c ahead =
      let s1 = fresh l r.key k value t s m in
      let h1 : Host Remote = record { clock = c; remote = s1 } in
      let expired_at = expire_at seconds (documented l r) k t h1 in
      let new = fresh-Wrote l r.key k value t s m in
      elim (Bool-cases (is_zero t)) [
        | inl zero ↦ let eq : expired_at ≡ (done, h1) = rw zero refl in rw (eq, zero) (refl, new)
        | inr other ↦
            let (n, answer, wrote, _) =
              fresh_expires l r.key k value t s m (zero_or l t other ahead) in
            let expire = (documented_client l).h_expire_at r.key t k in
            let wrapped : Status × Host Remote → Status × Host Remote =
              λ x. (with_error (wrap "failed to set cache item ttl: %w") x.0, x.1) in
            let h2 : Host Remote = record { clock = c; remote = (expire s1).1 } in
            let eq : expired_at ≡ (done, h2) =
              rw other (ap wrapped (>>-ok (on_server expire) (pure tt) h1 answer)) in
            rw (eq, other) (refl, Wrote-trans new wrote)
      ]

  add-Answers :
      (k : String) (value : Bytes) (opts : List SetOption) (h : Host Remote) (o : Option Field)
      → found h.remote r.key k ≡ o
      → IsMap (h.remote.hashes r.key)
      → in_time l (deadline r.ttl opts h.clock) ≡ true
      → AddAnswers k value
          (deadline r.ttl opts h.clock)
          h.remote
          o
          (left (λ s. s) (Redis.set_or_fail seconds (documented l r) k value opts h))
  unfolding Redis.set_or_fail add_field added expire_at
  add-Answers k value opts h (some x) there m ahead =
      let eq : add_field l r.key k value h.remote ≡ (ok false, ticked h.remote) =
        rw (there, add_field) refl in
      subst
        (λ y.
          AddAnswers k value (deadline r.ttl opts h.clock) h.remote (some x)
            (left (λ s. s) (behind_add k opts h y)))
        (sym eq) (refl, refl)
  add-Answers k value opts h none absent m ahead =
      let t = deadline r.ttl opts h.clock in
      let fresh1 = fresh l r.key k value t h.remote m in
      let eq : add_field l r.key k value h.remote ≡ (ok true, fresh1) =
        rw (absent, add_field) refl in
      let c = (item_options r.ttl opts h.clock).1 in
      subst (λ y. AddAnswers k value t h.remote none (left (λ s. s) (behind_add k opts h y)))
        (sym eq) (fresh-Stores k value t h.remote m c ahead)

  -- SetOrFail over a client that behaves as documented, with a deadline that the server takes: while the
  -- key has a field that has not expired it answers ErrKeyExists and changes no field; if not, it
  -- does what Set does.
  pub redis_set_or_fail_lem :
      (k : String) (value : Bytes) (opts : List SetOption) (h : Host S)
      → IsClient view l r.client
      → IsMap ((view h.remote).hashes r.key)
      → in_time l (deadline r.ttl opts h.clock) ≡ true
      → AddAnswers k value
          (deadline r.ttl opts h.clock)
          (view h.remote)
          (found (view h.remote) r.key k)
          (left view (Redis.set_or_fail seconds r k value opts h))
  redis_set_or_fail_lem k value opts h v m ahead =
      let o = found (view h.remote) r.key k in
      let (same, state) = set_or_fail-Follows view l r v seconds k value opts h in
      subst (AddAnswers k value (deadline r.ttl opts h.clock) (view h.remote) o)
        (λ i. (sym same i, sym (ap (λ x. x.remote) state) i))
        (add-Answers k value opts (seen view h) o refl m ahead)
