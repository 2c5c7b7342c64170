-- ===== src/Redis/Failures.antt =====
-- cache/redis.go over a client of which nothing is known: how its errors come out of the methods.
use cachefx.Prelude.{
  Bytes, String, Bool, true, false, ◌≡◌, refl, List, [], ◌∷◌, if◌then◌else◌, ℤ, Bool-cases, inl,
  inr,
}
use cachefx.Errors.{Result, ok, err, sentinel, err_key_exists, wrap, Status, done}
use cachefx.Options.{SetOption, GetOption, GetOptions, apply_get, no_get_options, is_empty}
use cachefx.Options.Last.{opt-is_empty}
use cachefx.Time.{Time, Duration, is_zero, now, tick}
use cachefx.Redis
use cachefx.Redis.{
  RedisCache, Host, queue, get_error, item_options, read_pairs, read_reply, bytes_result, or_fail,
  map_error, on_server, as_text, as_bytes, get_plain, get_by_script, get_with, set_until, expire_at,
  added, ttl_args,
}
use cachefx.Redis.Calls.{M, ◌>>=◌, Value}
use cachefx.Redis.Scripts.{hgetall_and_delete, get_and_update_ttl}
use cachefx.Redis.Storing.{deadline}
use cachefx.Redis.Replies.{
  Wraps, Misses, string_reply, DrainReads, called-Wraps, or_fail-Wraps, plain-Misses, script-Misses,
  drain-Reads,
}

module _ {S : Type 0} (seconds : Duration → ℤ) (r : RedisCache S) where
  -- the script of a Get with the options `o` at the time `t`
  abbrev pub get_script : GetOptions → String → Time → M S Value
  get_script o k t =
      get_and_update_ttl r.client.server r.key k (if o.delete then "1" else "0")
        (ttl_args seconds o r.ttl t).0 (ttl_args seconds o r.ttl t).1

  -- What a SetOrFail makes of the answers of its HSETNX, and of its HEXPIREAT if there is a deadline.
  abbrev pub AddWraps : Result Bool → Time → (Time → Result (List ℤ)) → Status → Type 0
  AddWraps (err e) t expire b = (format : String) × (b ≡ err (wrap format e))
  AddWraps (ok false) t expire b = b ≡ err (sentinel err_key_exists)
  AddWraps (ok true) t expire b = if is_zero t then b ≡ done else Wraps (expire t) b

  by_script-Misses :
      (k : String) (opt : GetOption) (more : List GetOption) (h : Host S)
      → Misses string_reply
          (r.client.eval
            (get_script (apply_get (opt ∷ more) no_get_options) k (now h.clock))
            h.remote).0
          (Redis.get seconds r k (opt ∷ more) h).0
  unfolding Redis.get get_with get_by_script
  by_script-Misses k opt more h =
      let o = apply_get (opt ∷ more) no_get_options in
      let a = r.client.eval (get_script o k (now h.clock)) h.remote in
      let script : is_empty o ≡ false = opt-is_empty opt more in
      rw (script, get_with) (script-Misses a.0 (record { clock = tick h.clock; remote = a.1 }))

  expire_at-Wraps :
      (k : String) (t : Time) (h : Host S)
      → (if is_zero t
          then (expire_at seconds r k t h).0 ≡ done
          else Wraps (r.client.h_expire_at r.key t k h.remote).0 (expire_at seconds r k t h).0)
  unfolding expire_at
  expire_at-Wraps k t h = elim (Bool-cases (is_zero t)) [
    | inl zero ↦ rw zero refl
    | inr other ↦
        let a = r.client.h_expire_at r.key t k h.remote in
        rw other (called-Wraps "failed to set cache item ttl: %w" a.0 (record h { remote = a.1 }))
  ]

  added-AddWraps :
      (k : String) (value : Bytes) (opts : List SetOption) (h : Host S) (a : Result Bool) (s : S)
      → AddWraps a
          (deadline r.ttl opts h.clock)
          (λ t. (r.client.h_expire_at r.key t k s).0)
          ((or_fail "failed to set cache item: %w" (λ _. (a, record h { remote = s }))
              >>= added seconds r k opts)
            h).0
  unfolding added
  added-AddWraps k value opts h (err e) s = ("failed to set cache item: %w", refl)
  added-AddWraps k value opts h (ok false) s = refl
  added-AddWraps k value opts h (ok true) s =
      let (o, c) = item_options r.ttl opts h.clock in
      expire_at-Wraps k o.valid_until (record { clock = c; remote = s })

  -- What a Close does to a client that the cache made, or was given.
  abbrev pub Closes : Bool → Result (Unit {0}) × S → Host S → Status × Host S → Type 0
  Closes true a h b = Wraps a.0 b.0 × (b.1 ≡ record h { remote = a.1 })
  Closes false a h b = b ≡ (done, h)

  close-Closes :
      (owned : Bool) (h : Host S)
      → Closes owned
          (r.client.close h.remote)
          h
          (Redis.close seconds (record r { owned_client = owned }) h)
  unfolding Redis.close
  close-Closes true h =
      let a = r.client.close h.remote in
      (or_fail-Wraps "failed to close redis client: %w" a.0 (record h { remote = a.1 }), refl)
  close-Closes false h = refl

  -- With any client: Delete and Set answer an error that wraps the one of their call, and succeed if that
  -- does. Get answers ErrKeyNotFound for `redis.Nil` and for a reply that is no string, and wraps every
  -- other error, with options and without. Drain reads a reply that is no array as no items, and
  -- panics exactly on an array of an odd number of items. SetOrFail answers ErrKeyExists if the field
  -- was not added, and passes on the errors of both its commands. Close closes a client that the cache
  -- made and wraps its error, and leaves one that it was given alone.
  pub redis_errors :
      (k : String) (value : Bytes) (opts : List SetOption) (opt : GetOption) (more : List GetOption)
      (h : Host S)
      → Wraps (r.client.h_del r.key k h.remote).0 (Redis.delete seconds r k h).0
        × Wraps
            (r.client.pipelined (queue r.key k value (deadline r.ttl opts h.clock)) h.remote).0
            (Redis.set seconds r k value opts h).0
        × Misses ok (r.client.h_get r.key k h.remote).0 (Redis.get seconds r k [] h).0
        × Misses string_reply
            (r.client.eval
              (get_script (apply_get (opt ∷ more) no_get_options) k (now h.clock))
              h.remote).0
            (Redis.get seconds r k (opt ∷ more) h).0
        × DrainReads
            (r.client.eval (hgetall_and_delete r.client.server r.key) h.remote).0
            (Redis.drain seconds r h).0
        × AddWraps
            (r.client.h_set_nx r.key k value h.remote).0
            (deadline r.ttl opts h.clock)
            (λ t. (r.client.h_expire_at r.key t k (r.client.h_set_nx r.key k value h.remote).1).0)
            (Redis.set_or_fail seconds r k value opts h).0
        × Closes r.owned_client (r.client.close h.remote) h (Redis.close seconds r h)
  unfolding Redis.delete Redis.set set_until Redis.get get_with get_plain apply_get is_empty
      Redis.drain Redis.set_or_fail
  redis_errors k value opts opt more h =
      let on = λ (s : S). record h { remote = s } in
      let deleted = r.client.h_del r.key k h.remote in
      let queued =
        r.client.pipelined (queue r.key k value (deadline r.ttl opts h.clock)) h.remote in
      let found = r.client.h_get r.key k h.remote in
      let add = r.client.h_set_nx r.key k value in
      let listed = r.client.eval (hgetall_and_delete r.client.server r.key) h.remote in
      (
        called-Wraps "failed to delete cache item: %w" deleted.0 (on deleted.1),
        or_fail-Wraps "failed to set cache item: %w" queued.0 (on queued.1),
        plain-Misses found.0 (on found.1),
        by_script-Misses k opt more h,
        drain-Reads "failed to drain cache: %w" listed.0 (on listed.1),
        added-AddWraps k value opts h (add h.remote).0 (add h.remote).1,
        close-Closes r.owned_client h,
      )
