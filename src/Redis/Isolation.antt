-- ===== src/Redis/Isolation.antt =====
-- Every method of cache/redis.go, over a client that behaves as documented, works on the hash of its cache
-- alone.
use cachefx.Prelude.{
  Bytes, String, Bool, true, false, refl, ap, sym, subst, List, [], ◌∷◌, if◌then◌else◌, ℤ,
  Bool-cases, inl, inr,
}
use cachefx.Options.{
  SetOption, GetOption, GetOptions, and_delete, apply_get, no_get_options, is_empty,
}
use cachefx.Time.{Time, Duration, is_zero, now, tick, unix}
use cachefx.Cache.Issue.{issue}
use cachefx.Memory.Commands.{
  Command, run, set, set_or_fail, get, get_and_delete, delete, cleanup, drain, close,
}
use cachefx.Redis
use cachefx.Redis.{
  RedisCache, Host, on_server, or_fail, map_error, get_error, bytes_result, read_reply,
  item_options, queue, ttl_args, get_plain, get_by_script, get_with, set_until, expire_at, added,
  redis_cache,
}
use cachefx.Redis.Calls.{M, ◌>>◌, pure}
use cachefx.Redis.Documented.{Remote, Latitude, documented_client, documented_server}
use cachefx.Redis.Laws.{Follows, IsClient}
use cachefx.Redis.Methods.{
  seen, documented, delete-Follows, drain-Follows, get_with-Follows, set_until-Follows,
  set_or_fail-Follows, close-Follows,
}
use cachefx.Redis.Scripts.{hgetall_and_delete, get_and_update_ttl}
use cachefx.Redis.Within.{
  Keeps, Keeps-trans, same-Keeps, Stays, pure-Stays, >>=-Stays, then-Stays, if-Stays, h_del-Stays,
  h_get-Stays, h_expire_at-Stays, add_field-Stays, queue-Stays, replied-Stays,
  hgetall_and_delete-Stays, get_and_update_ttl-Stays,
}

abbrev server_of : Host Remote → Remote
server_of h = h.remote

module _ (seconds : Duration → ℤ) (l : Latitude) (owner : RedisCache Remote) where
  abbrev r : RedisCache Remote
  r = record owner { client = documented_client l }

  delete-Stays : (k : String) → Stays server_of r.key (Redis.delete seconds r k)
  unfolding Redis.delete
  delete-Stays k h =
      then-Stays server_of r.key (on_server (r.client.h_del r.key k)) (pure tt)
        (λ h. h_del-Stays l r.key k h.remote) (pure-Stays server_of r.key tt) h

  drain-Stays : Stays server_of r.key (Redis.drain seconds r)
  unfolding Redis.drain
  drain-Stays =
      let script = hgetall_and_delete (documented_server l) r.key in
      >>=-Stays server_of r.key
        (or_fail "failed to drain cache: %w" (on_server (r.client.eval script)))
        (λ res h. (read_reply res, h))
        (λ h. replied-Stays l r.key script (hgetall_and_delete-Stays l r.key) h.remote)
        (λ res. pure-Stays server_of r.key res)

  get_with-Stays : (o : GetOptions) (k : String) → Stays server_of r.key (get_with seconds r o k)
  unfolding get_with get_plain get_by_script
  get_with-Stays o k h = elim (Bool-cases (is_empty o)) [
    | inl plain ↦ rw (plain, get_with) (h_get-Stays l r.key k h.remote)
    | inr scripted ↦
        let arg = if o.delete then "1" else "0" in
        let args = ttl_args seconds o r.ttl (now h.clock) in
        let script = get_and_update_ttl (documented_server l) r.key k arg args.0 args.1 in
        rw (scripted, get_with)
          (>>=-Stays server_of r.key (map_error get_error (on_server (r.client.eval script)))
            (λ result h. (bytes_result result, h))
            (λ h.
              replied-Stays l r.key script (get_and_update_ttl-Stays l r.key k arg args.0 args.1)
                h.remote)
            (λ result. pure-Stays server_of r.key result) (record h { clock = tick h.clock }))
  ]

  set_until-Stays :
      (k : String) (value : Bytes) (t : Time)
      → Stays server_of r.key (set_until seconds r k value t)
  unfolding set_until
  set_until-Stays k value t h = queue-Stays l r.key k value t h.remote

  expire_at-Stays : (k : String) (t : Time) → Stays server_of r.key (expire_at seconds r k t)
  unfolding expire_at
  expire_at-Stays k t =
      let format : String = "failed to set cache item ttl: %w" in
      let expire : M (Host Remote) (List ℤ) = on_server (r.client.h_expire_at r.key t k) in
      if-Stays server_of r.key (is_zero t) (pure tt) (or_fail format (expire >> pure tt))
        (pure-Stays server_of r.key tt)
        (then-Stays server_of r.key expire (pure tt)
          (λ h. h_expire_at-Stays l r.key (unix t) k h.remote) (pure-Stays server_of r.key tt))

  added-Stays :
      (k : String) (opts : List SetOption) (val : Bool)
      → Stays server_of r.key (added seconds r k opts val)
  unfolding added
  added-Stays k opts false h = pure-Stays server_of r.key tt h
  added-Stays k opts true h =
      let (o, c) = item_options r.ttl opts h.clock in
      expire_at-Stays k o.valid_until (record h { clock = c })

  set_or_fail-Stays :
      (k : String) (value : Bytes) (opts : List SetOption)
      → Stays server_of r.key (Redis.set_or_fail seconds r k value opts)
  unfolding Redis.set_or_fail
  set_or_fail-Stays k value opts =
      >>=-Stays server_of r.key
        (or_fail "failed to set cache item: %w" (on_server (r.client.h_set_nx r.key k value)))
        (added seconds r k opts) (λ h. add_field-Stays l r.key k value h.remote)
        (added-Stays k opts)

  close-Stays : Stays server_of r.key (Redis.close seconds r)
  unfolding Redis.close
  close-Stays =
      if-Stays server_of r.key r.owned_client
        (or_fail "failed to close redis client: %w" (on_server r.client.close)) (pure tt)
        (λ h. pure-Stays (λ s. s) r.key tt h.remote) (pure-Stays server_of r.key tt)

-- What holds over the documented client holds over one that follows it.
followed :
    {S A : Type 0} (view : S → Remote) (key : String) (m : M (Host S) A) (n : M (Host Remote) A)
    → Follows (seen view) m n
    → Stays server_of key n
    → Stays (λ h. view h.remote) key m
followed view key m n follows stays h =
    subst (Keeps key (view h.remote)) (sym (ap server_of (follows h).1)) (stays (seen view h))

module _ {S : Type 0} (view : S → Remote) (l : Latitude) (seconds : Duration → ℤ) (r : RedisCache S)
    (v : IsClient view l r.client) where
  abbrev shows : Host S → Remote
  shows h = view h.remote

  abbrev doc : RedisCache Remote
  doc = documented l r

  get-Stays : (k : String) (opts : List GetOption) → Stays shows r.key (Redis.get seconds r k opts)
  unfolding Redis.get
  get-Stays k opts =
      let o = apply_get opts no_get_options in
      followed view r.key (get_with seconds r o k) (get_with seconds doc o k)
        (get_with-Follows view l r v seconds o k) (get_with-Stays seconds l doc o k)

  set-Stays :
      (k : String) (value : Bytes) (opts : List SetOption)
      → Stays shows r.key (Redis.set seconds r k value opts)
  unfolding Redis.set
  set-Stays k value opts h =
      let (o, c) = item_options r.ttl opts h.clock in
      followed view r.key (set_until seconds r k value o.valid_until)
        (set_until seconds doc k value o.valid_until)
        (set_until-Follows view l r v seconds k value o.valid_until)
        (set_until-Stays seconds l doc k value o.valid_until) (record h { clock = c })

  issue-Keeps :
      (c : Command) (h : Host S)
      → Keeps r.key (shows h) (shows (issue (redis_cache seconds r) c h).1)
  unfolding issue Redis.get_and_delete Redis.cleanup
  issue-Keeps (set k value opts) h = set-Stays k value opts h
  issue-Keeps (set_or_fail k value opts) h =
      followed view r.key (Redis.set_or_fail seconds r k value opts)
        (Redis.set_or_fail seconds doc k value opts)
        (set_or_fail-Follows view l r v seconds k value opts)
        (set_or_fail-Stays seconds l doc k value opts) h
  issue-Keeps (get k opts) h = get-Stays k opts h
  issue-Keeps (get_and_delete k) h = get-Stays k (and_delete ∷ []) h
  issue-Keeps (delete k) h =
      followed view r.key (Redis.delete seconds r k) (Redis.delete seconds doc k)
        (delete-Follows view l r v seconds k) (delete-Stays seconds l doc k) h
  issue-Keeps cleanup h = same-Keeps r.key refl
  issue-Keeps drain h =
      followed view r.key (Redis.drain seconds r) (Redis.drain seconds doc)
        (drain-Follows view l r v seconds) (drain-Stays seconds l doc) h
  issue-Keeps close h =
      followed view r.key (Redis.close seconds r) (Redis.close seconds doc)
        (close-Follows view l r v seconds) (close-Stays seconds l doc) h

  -- Any list of calls on a Redis cache, over a client that behaves as documented, with any options and
  -- whatever the server refuses: no hash but that of the cache changes, and no hash comes to hold a
  -- field twice.
  pub redis_run-Keeps :
      (cs : List Command) (h : Host S)
      → Keeps r.key (shows h) (shows (run (issue (redis_cache seconds r)) cs h).1)
  unfolding run
  redis_run-Keeps [] h = same-Keeps r.key refl
  redis_run-Keeps (c ∷ cs) h =
      Keeps-trans (issue-Keeps c h) (redis_run-Keeps cs (issue (redis_cache seconds r) c h).1)
