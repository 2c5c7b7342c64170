-- ===== src/Redis/Unexpiring.antt =====
-- `Set` and `SetOrFail` of cache/redis.go where the server refuses the expiry.
use cachefx.Prelude.{Bytes, String, true, false, ◌≡◌, refl, ap, sym, subst, none, some, List, ℤ}
use cachefx.Errors.{Result, err, ok, wrap, Status, done}
use cachefx.Dict.{IsMap}
use cachefx.Options.{SetOption}
use cachefx.Time.{Time, Duration, is_zero, unix}
use cachefx.Redis
use cachefx.Redis.{
  RedisCache, Host, item_options, queue, set_until, added, expire_at, with_error, or_fail,
}
use cachefx.Redis.Documented.{
  documented_client, Remote, Latitude, found, ticked, out_of_range, add_field, set_field, queued,
  run_queue,
}
use cachefx.Redis.Calls.{◌>>◌, pure}
use cachefx.Redis.Laws.{IsClient}
use cachefx.Redis.Methods.{seen, documented, set_or_fail-Follows, set_until-Follows}
use cachefx.Redis.Fields.{Wrote, Wrote-ticked}
use cachefx.Redis.Storing.{deadline, left, fresh, fresh-Wrote}
use cachefx.Redis.Adding.{behind_add}

-- The answer is the error of the server, wrapped, and yet the field is there, and has no expiry.
abbrev pub Unexpiring : String → String → String → Bytes → Remote → Status × Remote → Type 0
Unexpiring format key k v s a =
    (a.0 ≡ err (wrap format out_of_range))
    × Wrote key k (some (record { value = v; expires = none })) s a.1

module _ (l : Latitude) (key k : String) (v : Bytes) (t : Time) (s : Remote)
    (m : IsMap (s.hashes key)) where
  abbrev fresh1 : Remote
  fresh1 = fresh l key k v t s m

  expire_refused :
      l.in_range (unix t) ≡ false
      → (documented_client l).h_expire_at key t k fresh1 ≡ (err out_of_range, ticked fresh1)
  expire_refused late = rw late refl

  -- a pipeline behind its last command
  abbrev last_of : Result (List ℤ) × Remote → Status × Remote
  last_of x =
      let (a, s1) = ((λ _. x) >> pure tt) fresh1 in (elim a [ ok _ ↦ done | err e ↦ err e ], s1)

  queue_refused :
      is_zero t ≡ false
      → l.in_range (unix t) ≡ false
      → run_queue l (queue key k v t) s ≡ (err out_of_range, ticked fresh1)
  unfolding run_queue queued set_field
  queue_refused other late = rw other (ap last_of (expire_refused late))

module _ {S : Type 0} (view : S → Remote) (l : Latitude) (seconds : Duration → ℤ)
    (r : RedisCache S) where
  set-Unexpiring :
      (k : String) (value : Bytes) (opts : List SetOption) (h : Host Remote)
      → IsMap (h.remote.hashes r.key)
      → is_zero (deadline r.ttl opts h.clock) ≡ false
      → l.in_range (unix (deadline r.ttl opts h.clock)) ≡ false
      → Unexpiring "failed to set cache item: %w" r.key k value h.remote
          (left (λ s. s) (Redis.set seconds (documented l r) k value opts h))
  unfolding Redis.set set_until
  set-Unexpiring k value opts h m other late =
      let t = deadline r.ttl opts h.clock in
      let answer = queue_refused l r.key k value t h.remote m other late in
      subst
        (λ (x : Status × Remote).
          Unexpiring "failed to set cache item: %w" r.key k value h.remote
            (with_error (wrap "failed to set cache item: %w") x.0, x.1))
        (sym answer) (refl, Wrote-ticked (fresh-Wrote l r.key k value t h.remote m))

  -- `SetOrFail` behind its HEXPIREAT
  abbrev behind_expire :
      List SetOption → Host Remote → Result (List ℤ) × Remote → Status × Host Remote
  behind_expire opts h x =
      let h1 : Host Remote = record { clock = (item_options r.ttl opts h.clock).1; remote = x.1 } in
      or_fail "failed to set cache item ttl: %w" ((λ _. (x.0, h1)) >> pure tt) h1

  set_or_fail-Unexpiring :
      (k : String) (value : Bytes) (opts : List SetOption) (h : Host Remote)
      → found h.remote r.key k ≡ none
      → IsMap (h.remote.hashes r.key)
      → is_zero (deadline r.ttl opts h.clock) ≡ false
      → l.in_range (unix (deadline r.ttl opts h.clock)) ≡ false
      → Unexpiring "failed to set cache item ttl: %w" r.key k value h.remote
          (left (λ s. s) (Redis.set_or_fail seconds (documented l r) k value opts h))
  unfolding Redis.set_or_fail add_field added expire_at
  set_or_fail-Unexpiring k value opts h absent m other late =
      let t = deadline r.ttl opts h.clock in
      let s1 = fresh l r.key k value t h.remote m in
      let eq : add_field l r.key k value h.remote ≡ (ok true, s1) = rw (absent, add_field) refl in
      subst
        (λ y.
          Unexpiring "failed to set cache item ttl: %w" r.key k value h.remote
            (left (λ s. s) (behind_add view l seconds r k opts h y)))
        (sym eq)
        (rw other (
          subst
            (λ x.
              Unexpiring "failed to set cache item ttl: %w" r.key k value h.remote
                (left (λ s. s) (behind_expire opts h x)))
            (sym (expire_refused l r.key k value t h.remote m late))
            (refl, Wrote-ticked (fresh-Wrote l r.key k value t h.remote m))))

  -- A deadline that the server refuses, over a client that behaves as documented: Set answers the error of
  -- the server, wrapped, and so does SetOrFail on a key that is free; both leave the value under the
  -- key, with no expiry.
  pub redis_expiry_refused :
      (k : String) (value : Bytes) (opts : List SetOption) (h : Host S)
      → IsClient view l r.client
      → IsMap ((view h.remote).hashes r.key)
      → found (view h.remote) r.key k ≡ none
      → is_zero (deadline r.ttl opts h.clock) ≡ false
      → l.in_range (unix (deadline r.ttl opts h.clock)) ≡ false
      → Unexpiring "failed to set cache item: %w" r.key k value
          (view h.remote)
          (left view (Redis.set seconds r k value opts h))
        × Unexpiring "failed to set cache item ttl: %w" r.key k value
            (view h.remote)
            (left view (Redis.set_or_fail seconds r k value opts h))
  unfolding Redis.set
  redis_expiry_refused k value opts h v m absent other late =
      let t = deadline r.ttl opts h.clock in
      let h1 : Host S = record h { clock = (item_options r.ttl opts h.clock).1 } in
      let (same, state) = set_until-Follows view l r v seconds k value t h1 in
      let (same', state') = set_or_fail-Follows view l r v seconds k value opts h in
      (
        subst (Unexpiring "failed to set cache item: %w" r.key k value (view h.remote))
            (λ i. (sym same i, sym (ap (λ x. x.remote) state) i))
            (set-Unexpiring k value opts (seen view h) m other late),
        subst (Unexpiring "failed to set cache item ttl: %w" r.key k value (view h.remote))
            (λ i. (sym same' i, sym (ap (λ x. x.remote) state') i))
            (set_or_fail-Unexpiring k value opts (seen view h) absent m other late),
      )
