-- ===== src/Redis/Plain.antt =====
-- cache/redis.go with no default TTL, used with no option over a client that behaves as documented: a map
-- from keys to values, as cache/memory.go is.
use cachefx.Prelude.{
  Bytes, String, false, ◌≡◌, refl, ap, ◌∙◌, sym, subst, fun_ext, Option, none, some, [], ◌∷◌, ℤ,
  is_zero_ℤ,
}
use cachefx.Errors.{ok, done}
use cachefx.Options.{apply_get, and_delete, no_get_options, is_empty}
use cachefx.Time.{Duration, zero_time, is_positive, now}
use cachefx.Cache.Plain
use cachefx.Cache.Plain.{
  Values, Step, IsPlain, Call, play, serve, run, run-Step, status, bytes, contents, set,
  set_or_fail, get, get_and_delete, delete, cleanup, drain, shown_items,
}
use cachefx.Redis
use cachefx.Redis.{RedisCache, Host, redis_cache, base_options, item_options, ttl_args}
use cachefx.Redis.Documented.{Remote, Latitude, found, value_of}
use cachefx.Redis.Laws.{IsClient}
use cachefx.Redis.Storing.{Stores, left, redis_set_lem, in_time}
use cachefx.Redis.Adding.{AddAnswers, redis_set_or_fail_lem}
use cachefx.Redis.Evaluating.{GetAnswers, plain_reply}
use cachefx.Redis.Reading.{get-ReadAnswers}
use cachefx.Redis.Deleting.{redis_delete_lem, deletes}
use cachefx.Redis.Draining.{IsListing, redis_drain_lem}
use cachefx.Redis.Interface.{get_current}
use cachefx.Redis.Holds.{
  lasting, Holds, reply-lasting, value-lasting, found-lasting, Wrote-Holds, absent-Holds,
  no_deadline,
}

module _ {S : Type 0} (view : S → Remote) (l : Latitude) (seconds : Duration → ℤ)
    (r : RedisCache S) where
  -- The server holds the values under the key of the cache.
  abbrev pub Serves : Host S → Values → Type 0
  Serves h m = Holds r.key (view h.remote) m

  module _ (v : IsClient view l r.client) (no_ttl : is_positive r.ttl ≡ false) where
    pub set-Step :
        (k : String) (value : Bytes) (h : Host S) (m : Values)
        → Serves h m
        → Step Serves (play (redis_cache seconds r) (set k value) h) (serve (set k value) m)
    unfolding play serve is_zero_ℤ
    set-Step k value h m holds =
        let t = no_deadline r.ttl h.clock no_ttl in
        let a = left view (Redis.set seconds r k value [] h) in
        let stores = redis_set_lem view l seconds r k value [] h v holds.valid (ap (in_time l) t) in
        let (answer, wrote) = subst (λ x. Stores r.key k value x (view h.remote) a) t stores in
        record {
          answer = ap status answer;
          shown = Wrote-Holds r.key k holds (some value) a.1 wrote;
        }

    added-Step :
        (k : String) (value : Bytes) (h : Host S) (m : Values) (o : Option Bytes)
        → m k ≡ o
        → Serves h m
        → AddAnswers view l seconds r k value zero_time
            (view h.remote)
            (lasting o)
            (left view (Redis.set_or_fail seconds r k value [] h))
        → Step Serves (Redis.set_or_fail seconds r k value [] h) (Plain.added k value m o)
    unfolding is_zero_ℤ
    added-Step k value h m none e holds (answer, wrote) = record {
      answer = answer;
      shown =
          Wrote-Holds r.key k holds (some value)
            (left view (Redis.set_or_fail seconds r k value [] h)).1 wrote;
    }
    added-Step k value h m (some u) e holds (answer, state) = record {
      answer = answer;
      shown =
          subst (λ s. Holds r.key s m) (sym state)
            (record { valid = holds.valid; fields = holds.fields });
    }

    pub set_or_fail-Step :
        (k : String) (value : Bytes) (h : Host S) (m : Values)
        → Serves h m
        → Step Serves (Redis.set_or_fail seconds r k value [] h) (Plain.added k value m (m k))
    unfolding is_zero_ℤ
    set_or_fail-Step k value h m holds =
        let t = no_deadline r.ttl h.clock no_ttl in
        let a = left view (Redis.set_or_fail seconds r k value [] h) in
        let adds =
          redis_set_or_fail_lem view l seconds r k value [] h v holds.valid (ap (in_time l) t) in
        let at_zero =
          subst
            (λ x.
              AddAnswers view l seconds r k value x (view h.remote) (found (view h.remote) r.key k)
                a)
            t adds in
        added-Step k value h m (m k) refl holds (
          subst (λ p. AddAnswers view l seconds r k value zero_time (view h.remote) p a)
            (found-lasting r.key k holds) at_zero)

    taken-Step :
        (k : String) (h : Host S) (m : Values) (o : Option Bytes) (args : ℤ × ℤ)
        → m k ≡ o
        → Serves h m
        → GetAnswers l r.key k
            (apply_get (and_delete ∷ []) no_get_options)
            args
            (view h.remote)
            (lasting o)
            (left view (Redis.get_and_delete seconds r k h))
        → Step Serves
            (Redis.get_and_delete seconds r k h)
            (Plain.value_or_missing o, Plain.write k none m)
    unfolding apply_get
    taken-Step k h m none args e holds (answer, state) = record {
      answer = answer;
      shown =
          subst (λ s. Holds r.key s (Plain.write k none m)) (sym state)
            (absent-Holds r.key k holds e);
    }
    taken-Step k h m (some u) args e holds (answer, wrote) = record {
      answer = answer;
      shown =
          Wrote-Holds r.key k holds none (left view (Redis.get_and_delete seconds r k h)).1 wrote;
    }

    pub get_and_delete-Step :
        (k : String) (h : Host S) (m : Values)
        → Serves h m
        → Step Serves
            (Redis.get_and_delete seconds r k h)
            (Plain.value_or_missing (m k), Plain.write k none m)
    unfolding Redis.get_and_delete is_empty apply_get
    get_and_delete-Step k h m holds =
        let o = apply_get (and_delete ∷ []) no_get_options in
        let args = ttl_args seconds o r.ttl (now h.clock) in
        let a = left view (Redis.get_and_delete seconds r k h) in
        let got =
          get-ReadAnswers view l seconds r k (and_delete ∷ []) h v holds.valid tt
            (deletes l args.0) in
        taken-Step k h m (m k) args refl holds (
          subst (λ p. GetAnswers l r.key k o args (view h.remote) p a) (found-lasting r.key k holds)
            got)

    pub get-Step :
        (k : String) (h : Host S) (m : Values)
        → Serves h m
        → Step Serves (Redis.get seconds r k [] h) (Plain.value_or_missing (m k), m)
    get-Step k h m holds =
        let a = get_current view l seconds r v k h in
        record {
          answer = a.0 ∙ ap plain_reply (found-lasting r.key k holds) ∙ reply-lasting (m k);
          shown =
              subst (λ s. Holds r.key s m) (sym a.1)
                (record { valid = holds.valid; fields = holds.fields });
        }

    pub delete-Step :
        (k : String) (h : Host S) (m : Values)
        → Serves h m
        → Step Serves (Redis.delete seconds r k h) (done, Plain.write k none m)
    delete-Step k h m holds =
        let (answer, wrote) = redis_delete_lem view l seconds r k h v holds.valid in
        record {
          answer = answer;
          shown = Wrote-Holds r.key k holds none (view (Redis.delete seconds r k h).1.remote) wrote;
        }

    pub drain-Step :
        (h : Host S) (m : Values)
        → IsListing l
        → Serves h m
        → Step Serves (play (redis_cache seconds r) drain h) (serve drain m)
    unfolding play serve
    drain-Step h m listing holds =
        let (items, answer, shown, emptied) =
          redis_drain_lem view l seconds r h v holds.valid listing in
        record {
          answer =
              ap (λ x. contents (shown_items x)) answer
              ∙ ap (λ f. contents (ok f))
                  (fun_ext (λ k.
                    shown k ∙ ap value_of (found-lasting r.key k holds) ∙ value-lasting (m k)));
          shown = record { valid = emptied.valid; fields = emptied.gone };
        }
