-- ===== src/Redis/Reading.antt =====
-- `Get` of cache/redis.go over a client that behaves as documented.
use cachefx.Prelude.{
  ◌||◌, Bytes, String, true, ◌≡◌, refl, ap, sym, subst, Option, none, some, List, if◌then◌else◌, ℤ,
  Bool-cases, inl, inr,
}
use cachefx.Errors.{Result, is}
use cachefx.Dict.{IsMap}
use cachefx.Options.{GetOptions, GetOption, apply_get, no_get_options, is_empty}
use cachefx.Time.{Time, Duration, Clock, now, tick}
use cachefx.Redis
use cachefx.Redis.{
  RedisCache, Host, ttl_args, get_plain, get_by_script, get_with, get_error, with_error, map_error,
  bytes_result,
}
use cachefx.Redis.Calls.{◌>>=◌, Value}
use cachefx.Redis.Documented.{Remote, Latitude, Field, found, ticked, or_nil, value_of}
use cachefx.Redis.Scripts.{get_and_update_ttl}
use cachefx.Redis.Laws.{IsClient}
use cachefx.Redis.Methods.{seen, documented, get_with-Follows}
use cachefx.Redis.Storing.{left}
use cachefx.Redis.Renewing.{StillFor}
use cachefx.Redis.Evaluating.{
  plain_reply, GetAnswers, Scripted, script_in_time, behind_h_get, evaluated, flag_of, delete_flag,
}

module _ {S : Type 0} (view : S → Remote) (l : Latitude) (seconds : Duration → ℤ)
    (r : RedisCache S) where
  -- `Get` of the documented client behind its call of `eval`
  abbrev behind_eval : Host Remote → Result Value × Remote → Result Bytes × Host Remote
  behind_eval h x =
      ((λ _. (with_error get_error x.0, record h { remote = x.1 })) >>= λ result h1.
      (bytes_result result, h1))
        h

  Scripted-GetAnswers :
      (k : String) (o : GetOptions) (args : ℤ × ℤ) (h : Host Remote) (p : Option Field)
      (x : Result Value × Remote)
      → Scripted l r.key k o.delete args h.remote p x
      → GetAnswers l r.key k o args h.remote p (left (λ s. s) (behind_eval h x))
  unfolding get_error is
  Scripted-GetAnswers k o args h none x e =
      subst (λ y. GetAnswers l r.key k o args h.remote none (left (λ s. s) (behind_eval h y)))
        (sym e) (refl, refl)
  Scripted-GetAnswers k o args h (some f) x (answer, wrote) =
      subst
        (λ y.
          GetAnswers l r.key k o args h.remote (some f) (left (λ s. s) (behind_eval h (y, x.1))))
        (sym answer) (refl, wrote)

  get_by_script-Answers :
      (o : GetOptions) (k : String) (t : Time) (h : Host Remote)
      → IsMap (h.remote.hashes r.key)
      → StillFor o.delete h.remote.clock
      → script_in_time l o.delete (ttl_args seconds o r.ttl t).0 ≡ true
      → GetAnswers l r.key k o
          (ttl_args seconds o r.ttl t)
          h.remote
          (found h.remote r.key k)
          (left (λ s. s) (get_by_script seconds (documented l r) o k t h))
  unfolding get_by_script get_and_update_ttl
  get_by_script-Answers o k t h m still ahead =
      let (ts, delta) = ttl_args seconds o r.ttl t in
      let p = found h.remote r.key k in
      let run = evaluated l r.key k h.remote m o.delete ts delta p refl still ahead in
      Scripted-GetAnswers k o (ts, delta) h p
        (behind_h_get l r.key k h.remote m (flag_of o.delete) ts delta (value_of p))
        (subst
          (λ b.
            Scripted l r.key k o.delete (ts, delta) h.remote p
              (behind_h_get l r.key k h.remote m b ts delta (value_of p)))
          (sym (delete_flag o.delete)) run)

  -- What a Get answers and leaves, on the abstract state `s` of the server.
  abbrev pub ReadAnswers :
      GetOptions → String → Clock → Remote → Option Field → Result Bytes × Remote → Type 0
  ReadAnswers o k c s p a =
      if is_empty o
      then (a.0 ≡ plain_reply p) × (a.1 ≡ ticked s)
      else GetAnswers l r.key k o (ttl_args seconds o r.ttl (now c)) s p a

  h_get_answer :
      (p : Option Field) (s : Remote)
      → Path
          (Result Bytes × Remote)
          (with_error get_error (or_nil l (value_of p) s).0, (or_nil l (value_of p) s).1)
          (plain_reply p, s)
  unfolding get_error is
  h_get_answer none s = refl
  h_get_answer (some x) s = refl

  pub get_plain-Answers :
      (k : String) (h : Host Remote)
      → left (λ s. s) (get_plain seconds (documented l r) k h)
        ≡ (plain_reply (found h.remote r.key k), ticked h.remote)
  unfolding get_plain
  get_plain-Answers k h = h_get_answer (found h.remote r.key k) (ticked h.remote)

  get_with-Answers :
      (o : GetOptions) (k : String) (h : Host Remote)
      → IsMap (h.remote.hashes r.key)
      → StillFor (is_empty o || o.delete) h.remote.clock
      → script_in_time l o.delete (ttl_args seconds o r.ttl (now h.clock)).0 ≡ true
      → ReadAnswers o k h.clock h.remote
          (found h.remote r.key k)
          (left (λ s. s) (get_with seconds (documented l r) o k h))
  unfolding get_with
  get_with-Answers o k h m still ahead = elim (Bool-cases (is_empty o)) [
    | inl plain ↦
        let answer = get_plain-Answers k h in
        rw (plain, get_with) (ap (λ x. x.0) answer, ap (λ x. x.1) answer)
    | inr script ↦
        rw (script, get_with)
          (get_by_script-Answers o k (now h.clock) (record h { clock = tick h.clock }) m
            (rw script at still) ahead)
  ]

  -- Get over a client that behaves as documented, if the time that the script is to write is one that the
  -- server takes, and the server's clock stands still for a script that may write one. With no options
  -- it answers the value of a field that has not expired, and ErrKeyNotFound for any other, and
  -- changes nothing. With options it answers the same; it then deletes the field if the options say so,
  -- and if not it gives the field the expiry that they come to. No other field changes.
  pub get-ReadAnswers :
      (k : String) (opts : List GetOption) (h : Host S)
      → IsClient view l r.client
      → IsMap ((view h.remote).hashes r.key)
      → (let o = apply_get opts no_get_options in
          StillFor (is_empty o || o.delete) (view h.remote).clock)
      → (let o = apply_get opts no_get_options in
          script_in_time l o.delete (ttl_args seconds o r.ttl (now h.clock)).0 ≡ true)
      → ReadAnswers
          (apply_get opts no_get_options)
          k
          h.clock
          (view h.remote)
          (found (view h.remote) r.key k)
          (left view (Redis.get seconds r k opts h))
  unfolding Redis.get
  get-ReadAnswers k opts h v m still ahead =
      let o = apply_get opts no_get_options in
      let (same, state) = get_with-Follows view l r v seconds o k h in
      subst (ReadAnswers o k h.clock (view h.remote) (found (view h.remote) r.key k))
        (λ i. (sym same i, sym (ap (λ x. x.remote) state) i))
        (get_with-Answers o k (seen view h) m still ahead)
