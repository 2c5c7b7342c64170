-- ===== src/Redis/Deleting.antt =====
-- `Delete` and `GetAndDelete` of cache/redis.go over a client that behaves as documented.
use cachefx.Prelude.{
  Bytes, String, true, false, ◌≡◌, refl, ap, sym, ◌∙◌, subst, Option, none, some, [], ◌∷◌, ◌==◌, ℤ,
  eq_refl, eq_iff, if◌then◌else◌, Bool-cases, inl, inr,
}
use cachefx.Errors.{done, Result}
use cachefx.Dict.{IsMap}
use cachefx.Options.{and_delete, apply_get, no_get_options, is_empty}
use cachefx.Time.{Duration, now}
use cachefx.Redis
use cachefx.Redis.{RedisCache, Host, ttl_args}
use cachefx.Redis.Documented.{Remote, Latitude, Field, found, live_at}
use cachefx.Redis.Laws.{IsClient}
use cachefx.Redis.Methods.{seen, documented, delete-Follows}
use cachefx.Redis.Fields.{field, Wrote, erase-Wrote}
use cachefx.Redis.Storing.{left}
use cachefx.Redis.Reading.{get-ReadAnswers}
use cachefx.Redis.Evaluating.{GetAnswers, plain_reply, script_in_time}
use cachefx.Redis.Renewing.{Still}

module _ (l : Latitude) where
  pub deletes :
      (ts : ℤ) → script_in_time l (apply_get (and_delete ∷ []) no_get_options).delete ts ≡ true
  unfolding apply_get
  deletes ts = refl

same_field :
    (key k g : String) (s : Remote)
    → field key s g ≡ (if k == g then field key s k else field key s g)
same_field key k g s = elim (Bool-cases (k == g)) [
  | inl same ↦ rw same (ap (field key s) (sym ((eq_iff k g).0 same)))
  | inr other ↦ rw other refl
]

module _ {S : Type 0} (view : S → Remote) (l : Latitude) (seconds : Duration → ℤ)
    (r : RedisCache S) where
  delete-Wrote :
      (k : String) (h : Host Remote)
      → IsMap (h.remote.hashes r.key)
      → (let a = left (λ s. s) (Redis.delete seconds (documented l r) k h) in
          (a.0 ≡ done) × Wrote r.key k none h.remote a.1)
  unfolding Redis.delete
  delete-Wrote k h m = (refl, erase-Wrote r.key k h.remote m)

  -- Delete over a client that behaves as documented: it answers no error, whether or not the key is there,
  -- and leaves every key but its own, and every other hash, as they were.
  pub redis_delete_lem :
      (k : String) (h : Host S)
      → IsClient view l r.client
      → IsMap ((view h.remote).hashes r.key)
      → ((Redis.delete seconds r k h).0 ≡ done)
        × Wrote r.key k none (view h.remote) (view (Redis.delete seconds r k h).1.remote)
  redis_delete_lem k h v m =
      let (same, state) = delete-Follows view l r v seconds k h in
      let (answer, wrote) = delete-Wrote k (seen view h) m in
      (
        same ∙ answer,
        subst (Wrote r.key k none (view h.remote)) (sym (ap (λ x. x.remote) state)) wrote,
      )

  -- nothing is found behind the call, and the other fields are there
  abbrev pub Taken : String → Remote → Option Field → Result Bytes × Remote → Type 0
  Taken k s o a =
      (a.0 ≡ plain_reply o)
      × (found a.1 r.key k ≡ none)
      × ((g : String) → field r.key a.1 g ≡ (if k == g then field r.key a.1 k else field r.key s g))
      × ((j g : String) → (r.key == j) ≡ false → field j a.1 g ≡ field j s g)

  taken :
      (k : String) (o : Option Field) (s : Remote) (a : Result Bytes × Remote) (args : ℤ × ℤ)
      → Still s.clock
      → found s r.key k ≡ o
      → GetAnswers l r.key k (apply_get (and_delete ∷ []) no_get_options) args s o a
      → Taken k s o a
  unfolding apply_get
  taken k none s a args still absent (answer, state) =
      subst (λ s'. Taken k s none (a.0, s')) (sym state)
        (
          answer,
          ap (λ u. live_at u (field r.key s k)) still.0 ∙ absent,
          λ g. same_field r.key k g s,
          λ j g _. refl,
        )
  taken k (some x) s a args still there (answer, wrote) =
      let gone : field r.key a.1 k ≡ none = wrote.written k ∙ rw eq_refl refl in
      (
        answer,
        ap (live_at (now a.1.clock)) gone,
        λ g. wrote.written g ∙ ap (λ o. if k == g then o else field r.key s g) (sym gone),
        wrote.others,
      )

  -- GetAndDelete over a client that behaves as documented, on a server whose clock stands still for the
  -- commands of a script: it answers the value of a field that has not expired and ErrKeyNotFound if
  -- there is none; behind it the key has no such field, and every other field is as it was.
  pub redis_get_and_delete_lem :
      (k : String) (h : Host S)
      → IsClient view l r.client
      → IsMap ((view h.remote).hashes r.key)
      → Still (view h.remote).clock
      → Taken k
          (view h.remote)
          (found (view h.remote) r.key k)
          (left view (Redis.get_and_delete seconds r k h))
  unfolding Redis.get_and_delete is_empty apply_get
  redis_get_and_delete_lem k h v m still =
      let args =
        ttl_args seconds (apply_get (and_delete ∷ []) no_get_options) r.ttl (now h.clock) in
      let get = get-ReadAnswers view l seconds r k (and_delete ∷ []) h v m tt (deletes l args.0) in
      taken k (found (view h.remote) r.key k) (view h.remote)
        (left view (Redis.get seconds r k (and_delete ∷ []) h)) args still refl get
