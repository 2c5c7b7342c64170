-- ===== src/Redis/Storing.antt =====
-- `Set` of cache/redis.go over a client that behaves as documented.
use cachefx.Prelude.{
  Bytes, String, Bool, true, false, ◌||◌, ◌≡◌, refl, ap, sym, ◌∙◌, subst, Option, none, some, List,
  eq_refl, if◌then◌else◌, ℤ, Bool-cases, inl, inr,
}
use cachefx.Errors.{Result, ok, err, Status, done, wrap}
use cachefx.Dict.{insert, IsMap}
use cachefx.Options.{SetOption}
use cachefx.Time.{Time, Duration, Clock, is_zero, now, tick, unix}
use cachefx.Redis
use cachefx.Redis.{
  RedisCache, Host, item_options, queue, set_until, expire_at, added, with_error, on_server,
}
use cachefx.Redis.Calls.{pure}
use cachefx.Redis.Documented.{
  Remote, Latitude, Field, documented_client, has_ended, live_at, found, put, millis, set_field,
  queued, run_queue,
}
use cachefx.Redis.Laws.{IsClient, >>-ok}
use cachefx.Redis.Methods.{set_until-Follows}
use cachefx.Redis.Fields.{field, Wrote, insert-Wrote, Wrote-trans, Expires, expire_field-Wrote}

-- The entry that a Set makes with the deadline `t`, as the server has it at its time `u`.
abbrev pub stored : Bytes → Time → ℤ → Option Field
stored v t u =
    if is_zero t
    then some (record { value = v; expires = none })
    else live_at u (some (record { value = v; expires = some (millis (unix t)) }))

-- The deadline `t` is one that the server takes, or none.
abbrev pub in_time : Latitude → Time → Bool
in_time l t = is_zero t || l.in_range (unix t)

pub zero_or :
    (l : Latitude) (t : Time) → is_zero t ≡ false → in_time l t ≡ true → l.in_range (unix t) ≡ true
zero_or l t z h = rw z at h

-- An answer of success, and the field as a Set with the deadline `t` leaves it: with no expiry if `t` is
-- the zero time, and gone if its time has come when the server handles the expiry.
abbrev pub Stores : String → String → Bytes → Time → Remote → Status × Remote → Type 0
Stores key f v t s a = (a.0 ≡ done) × Wrote key f (stored v t (now (tick s.clock))) s a.1

module _ (l : Latitude) (key f : String) (v : Bytes) (t : Time) (s : Remote)
    (m : IsMap (s.hashes key)) where
  abbrev pub plain : Field
  plain = record { value = v; expires = none }

  abbrev pub fresh : Remote
  fresh = put key (insert f plain (s.hashes key)) s

  pub fresh-Wrote : Wrote key f (some plain) s fresh
  fresh-Wrote = insert-Wrote key f plain s m

  pub fresh_found : found fresh key f ≡ some plain
  unfolding has_ended
  fresh_found =
      let there : field key fresh f ≡ some plain = fresh-Wrote.written f ∙ rw eq_refl refl in
      ap (live_at (now fresh.clock)) there

  abbrev pub Expiring : Result (List ℤ) × Remote → Type 0
  Expiring a = Expires l key f (millis (unix t)) plain fresh a

  pub fresh_expires :
      l.in_range (unix t) ≡ true → Expiring ((documented_client l).h_expire_at key t f fresh)
  fresh_expires h =
      rw h (expire_field-Wrote l key f (millis (unix t)) plain fresh fresh-Wrote.valid fresh_found)

  -- a pipeline that ends with one more command
  abbrev ended : Status × Remote → Status × Remote
  ended (a, s1) = (elim a [ ok _ ↦ done | err e ↦ err e ], s1)

  pub queue-Stores : in_time l t ≡ true → Stores key f v t s (run_queue l (queue key f v t) s)
  unfolding run_queue queued set_field
  queue-Stores h = elim (Bool-cases (is_zero t)) [
    | inl zero ↦
        let eq : run_queue l (queue key f v t) s ≡ (done, fresh) = rw zero refl in
        rw (eq, zero) (refl, fresh-Wrote)
    | inr other ↦
        let (n, answer, wrote, _) = fresh_expires (zero_or l t other h) in
        let expire = (documented_client l).h_expire_at key t f in
        let eq : run_queue l (queue key f v t) s ≡ (done, (expire fresh).1) =
          rw other (ap ended (>>-ok expire (pure tt) fresh answer)) in
        rw (eq, other) (refl, Wrote-trans fresh-Wrote wrote)
  ]

-- The deadline of a Set, by the program's clock.
abbrev pub deadline : Duration → List SetOption → Clock → Time
deadline ttl opts c = (item_options ttl opts c).0.valid_until

-- The abstract state that a call leaves, beside its answer.
abbrev pub left : {S A : Type 0} → (S → Remote) → Result A × Host S → Result A × Remote
left view a = (a.0, view a.1.remote)

module _ {S : Type 0} (view : S → Remote) (l : Latitude) (seconds : Duration → ℤ)
    (r : RedisCache S) where
  -- Set over a client that behaves as documented, with a deadline that the server takes: it answers no
  -- error, and stores the value under its key alone, to expire at the second of the deadline.
  pub redis_set_lem :
      (k : String) (value : Bytes) (opts : List SetOption) (h : Host S)
      → IsClient view l r.client
      → IsMap ((view h.remote).hashes r.key)
      → in_time l (deadline r.ttl opts h.clock) ≡ true
      → Stores r.key k value
          (deadline r.ttl opts h.clock)
          (view h.remote)
          (left view (Redis.set seconds r k value opts h))
  unfolding Redis.set set_until
  redis_set_lem k value opts h v m ahead =
      let t = deadline r.ttl opts h.clock in
      let h1 : Host S = record h { clock = (item_options r.ttl opts h.clock).1 } in
      let (answer, wrote) = queue-Stores l r.key k value t (view h.remote) m ahead in
      let (same, state) = set_until-Follows view l r v seconds k value t h1 in
      (
        same ∙ ap (with_error (wrap "failed to set cache item: %w")) answer,
        subst (Wrote r.key k (stored value t (now (tick (view h.remote).clock))) (view h.remote))
            (sym (ap (λ x. x.remote) state)) wrote,
      )
