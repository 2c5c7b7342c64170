-- ===== src/Redis/Methods.antt =====
-- The methods of `RedisCache` over a client that behaves as documented: each answers, and leaves, what it
-- does over the documented client.
use cachefx.Prelude.{
  Bytes, String, Bool, true, false, ◌≡◌, refl, ap, List, if◌then◌else◌, ℤ, Bool-cases, inl, inr,
}
use cachefx.Errors.{Error, Result, wrap}
use cachefx.Options.{GetOptions, SetOption, is_empty}
use cachefx.Time.{Time, Duration, is_zero, now, tick}
use cachefx.Redis
use cachefx.Redis.{
  RedisCache, Host, on_server, or_fail, map_error, with_error, get_error, bytes_result, read_reply,
  item_options, queue, ttl_args, get_plain, get_by_script, get_with, set_until, expire_at, added,
}
use cachefx.Redis.Calls.{M, ◌>>=◌, ◌>>◌, pure}
use cachefx.Redis.Documented.{Remote, Latitude, documented_client}
use cachefx.Redis.Laws.{Follows, pure-Follows, if-Follows, >>=-Follows, then-Follows, IsClient}
use cachefx.Redis.Follow.{hgetall_and_delete-Follows, get_and_update_ttl-Follows}
use cachefx.Redis.Scripts.{hgetall_and_delete, get_and_update_ttl}

-- the program beside the abstract state of its server
abbrev pub seen : {S : Type 0} → (S → Remote) → Host S → Host Remote
seen view h = record { clock = h.clock; remote = view h.remote }

-- the same cache over the documented client
abbrev pub documented : {S : Type 0} → Latitude → RedisCache S → RedisCache Remote
documented l r = record {
  client = documented_client l;
  owned_client = r.owned_client;
  key = r.key;
  ttl = r.ttl;
}

module _ {S : Type 0} (view : S → Remote) where
  on_server-Follows :
      {A : Type 0} (m : M S A) (n : M Remote A)
      → Follows view m n
      → Follows (seen view) (on_server m) (on_server n)
  on_server-Follows m n h t =
      let (answer, state) = h t.remote in
      (answer, ap (λ (s : Remote). record { clock = t.clock; remote = s }) state)

  map_error-Follows :
      {A : Type 0} (f : Error → Error) (m : M S A) (n : M Remote A)
      → Follows view m n
      → Follows (seen view) (map_error f (on_server m)) (map_error f (on_server n))
  map_error-Follows f m n h t =
      let (answer, state) = on_server-Follows m n h t in (ap (with_error f) answer, state)

-- What a call hands to the rest of a method.
abbrev replied : {T A B : Type 0} → (A → Result B) → A → M T B
replied f a t = (f a, t)

module _ {S : Type 0} (view : S → Remote) (l : Latitude) (r : RedisCache S)
    (v : IsClient view l r.client) where
  abbrev doc : RedisCache Remote
  doc = documented l r

  -- a call whose answer is dropped, its error wrapped
  called-Follows :
      {A : Type 0} (format : String) (m : M S A) (n : M Remote A)
      → Follows view m n
      → Follows
          (seen view)
          (or_fail format (on_server m >> pure tt))
          (or_fail format (on_server n >> pure tt))
  called-Follows format m n h t =
      let (answer, state) =
        then-Follows (seen view) (on_server m) (on_server n) (pure tt) (pure tt)
          (on_server-Follows view m n h) (pure-Follows (seen view) tt) t in
      (ap (with_error (wrap format)) answer, state)

  replied-Follows :
      {A B : Type 0} (f : A → Result B) (m : M (Host S) A) (n : M (Host Remote) A)
      → Follows (seen view) m n
      → Follows (seen view) (m >>= replied f) (n >>= replied f)
  replied-Follows f m n h =
      >>=-Follows (seen view) (replied f) (replied f) (λ a t. (refl, refl)) m n h

  module _ (seconds : Duration → ℤ) where
    pub delete-Follows :
        (k : String) → Follows (seen view) (Redis.delete seconds r k) (Redis.delete seconds doc k)
    unfolding Redis.delete
    delete-Follows k =
        called-Follows "failed to delete cache item: %w" (r.client.h_del r.key k)
          (doc.client.h_del r.key k) (v.h_del r.key k)

    pub drain-Follows : Follows (seen view) (Redis.drain seconds r) (Redis.drain seconds doc)
    unfolding Redis.drain
    drain-Follows =
        let m = r.client.eval (hgetall_and_delete r.client.server r.key) in
        let n = doc.client.eval (hgetall_and_delete doc.client.server r.key) in
        replied-Follows read_reply (map_error (wrap "failed to drain cache: %w") (on_server m))
          (map_error (wrap "failed to drain cache: %w") (on_server n))
          (map_error-Follows view (wrap "failed to drain cache: %w") m n (
            v.eval (hgetall_and_delete r.client.server r.key)
              (hgetall_and_delete doc.client.server r.key)
              (hgetall_and_delete-Follows view l r.client.server v.server r.key)))

    get_plain-Follows :
        (k : String) → Follows (seen view) (get_plain seconds r k) (get_plain seconds doc k)
    unfolding get_plain
    get_plain-Follows k =
        map_error-Follows view get_error (r.client.h_get r.key k) (doc.client.h_get r.key k)
          (v.h_get r.key k)

    get_by_script-Follows :
        (o : GetOptions) (k : String) (t : Time)
        → Follows (seen view) (get_by_script seconds r o k t) (get_by_script seconds doc o k t)
    unfolding get_by_script
    get_by_script-Follows o k t =
        let arg = if o.delete then "1" else "0" in
        let (ts, delta) = ttl_args seconds o r.ttl t in
        let script = get_and_update_ttl r.client.server r.key k arg ts delta in
        let script' = get_and_update_ttl doc.client.server r.key k arg ts delta in
        replied-Follows bytes_result (map_error get_error (on_server (r.client.eval script)))
          (map_error get_error (on_server (doc.client.eval script')))
          (map_error-Follows view get_error (r.client.eval script) (doc.client.eval script') (
            v.eval script script'
              (get_and_update_ttl-Follows view l r.client.server v.server r.key k arg ts delta)))

    pub get_with-Follows :
        (o : GetOptions) (k : String)
        → Follows (seen view) (get_with seconds r o k) (get_with seconds doc o k)
    unfolding get_with
    get_with-Follows o k h = elim (Bool-cases (is_empty o)) [
      | inl plain ↦ rw (plain, get_with) (get_plain-Follows k h)
      | inr script ↦
          rw (script, get_with)
            (get_by_script-Follows o k (now h.clock) (record h { clock = tick h.clock }))
    ]

    pub set_until-Follows :
        (k : String) (value : Bytes) (t : Time)
        → Follows (seen view) (set_until seconds r k value t) (set_until seconds doc k value t)
    unfolding set_until
    set_until-Follows k value t =
        let cs = queue r.key k value t in
        map_error-Follows view (wrap "failed to set cache item: %w") (r.client.pipelined cs)
          (doc.client.pipelined cs) (v.pipelined cs)

    expire_at-Follows :
        (k : String) (t : Time)
        → Follows (seen view) (expire_at seconds r k t) (expire_at seconds doc k t)
    unfolding expire_at
    expire_at-Follows k t =
        let format : String = "failed to set cache item ttl: %w" in
        let m = r.client.h_expire_at r.key t k in
        let n = doc.client.h_expire_at r.key t k in
        if-Follows (seen view) (is_zero t) (pure tt) (or_fail format (on_server m >> pure tt))
          (pure tt) (or_fail format (on_server n >> pure tt)) (pure-Follows (seen view) tt)
          (called-Follows format m n (v.h_expire_at r.key t k))

    added-Follows :
        (k : String) (opts : List SetOption) (val : Bool)
        → Follows (seen view) (added seconds r k opts val) (added seconds doc k opts val)
    unfolding added
    added-Follows k opts false h = (refl, refl)
    added-Follows k opts true h =
        let (o, c) = item_options r.ttl opts h.clock in
        expire_at-Follows k o.valid_until (record h { clock = c })

    pub set_or_fail-Follows :
        (k : String) (value : Bytes) (opts : List SetOption)
        → Follows
            (seen view)
            (Redis.set_or_fail seconds r k value opts)
            (Redis.set_or_fail seconds doc k value opts)
    unfolding Redis.set_or_fail
    set_or_fail-Follows k value opts =
        let m = r.client.h_set_nx r.key k value in
        let n = doc.client.h_set_nx r.key k value in
        >>=-Follows (seen view) (added seconds r k opts) (added seconds doc k opts)
          (added-Follows k opts) (map_error (wrap "failed to set cache item: %w") (on_server m))
          (map_error (wrap "failed to set cache item: %w") (on_server n))
          (map_error-Follows view (wrap "failed to set cache item: %w") m n
            (v.h_set_nx r.key k value))

    pub close-Follows : Follows (seen view) (Redis.close seconds r) (Redis.close seconds doc)
    unfolding Redis.close
    close-Follows =
        if-Follows (seen view) r.owned_client
          (map_error (wrap "failed to close redis client: %w") (on_server r.client.close)) (pure tt)
          (map_error (wrap "failed to close redis client: %w") (on_server doc.client.close))
          (pure tt)
          (map_error-Follows view (wrap "failed to close redis client: %w") r.client.close
            doc.client.close v.close)
          (pure-Follows (seen view) tt)

-- What a call answers, and the program that it leaves, as the abstract state shows it.
abbrev pub shown : {S A : Type 0} → (S → Remote) → Result A × Host S → Result A × Host Remote
shown view x = (x.0, seen view x.1)

pub shown-Follows :
    {S A : Type 0} (view : S → Remote) (m : M (Host S) A) (n : M (Host Remote) A)
    → Follows (seen view) m n
    → (h : Host S) → shown view (m h) ≡ n (seen view h)
shown-Follows view m n f h = λ i. ((f h).0 i, (f h).1 i)
