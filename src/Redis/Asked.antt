-- ===== src/Redis/Asked.antt =====
-- `Get` of cache/redis.go over a client that behaves as documented: the expiry that its options ask for,
-- told by the list of the options and by the field, without the numbers that the code hands to its script.
use cachefx.Prelude.{
  Bytes, String, Bool, true, false, not, ◌||◌, ◌≡◌, refl, ap, sym, ◌∙◌, subst, Option, none, some,
  List, [], ◌∷◌, if◌then◌else◌, ℤ, pos, negsuc, pos_part, ◌+ℤ◌, ltb_ℤ, Bool-cases, inl, inr, arith,
}
use cachefx.Errors.{Result, ok}
use cachefx.Dict.{IsMap}
use cachefx.Options.{GetOption, apply_get, no_get_options, is_empty}
use cachefx.Options.Last.{
  latest, some_option, asked_valid_until, asked_set_ttl, asked_update_ttl, is_default_ttl,
  is_delete, apply_get-latest, opt-is_empty,
}
use cachefx.Time.{Time, Duration, Clock, is_positive, add, now, unix}
use cachefx.Redis
use cachefx.Redis.{RedisCache, Host, ttl_args}
use cachefx.Redis.Documented.{
  Remote, Latitude, Field, found, ticked, live_at, millis, negated, ttl_reply,
}
use cachefx.Redis.Scripts.{current_ttl}
use cachefx.Redis.Laws.{IsClient}
use cachefx.Redis.Fields.{Wrote}
use cachefx.Redis.Storing.{left}
use cachefx.Redis.Renewing.{StillFor, renewed}
use cachefx.Redis.Evaluating.{not_found, plain_reply, GetAnswers, script_in_time}
use cachefx.Redis.Reading.{ReadAnswers, get-ReadAnswers}

-- What the options ask for: an expiry at a time, or one that is later by a duration.
pub data Wish : Type 0 where
  until : Time → Wish
  longer : Duration → Wish

-- by the last argument of each kind of option, the default TTL and the time of the program
abbrev pub by_kind :
    Option Time → Option Duration → Option Duration → Bool → Duration → Time → Option Wish
by_kind (some v) set_ttl update_ttl default_ttl ttl t = some (until v)
by_kind none (some d) update_ttl default_ttl ttl t = some (until (add t d))
by_kind none none (some d) default_ttl ttl t = some (longer d)
by_kind none none none true ttl t = if is_positive ttl then some (until (add t ttl)) else none
by_kind none none none false ttl t = none

-- The wish of a list of options: the last `AndSetValidUntil`; with none, the last `AndSetTTL`, counted from
-- the time `t`; with none, the last `AndUpdateTTL`; with none, a positive default TTL counted from `t`, if
-- there is an `AndDefaultTTL`.
abbrev pub wish : List GetOption → Duration → Time → Option Wish
wish opts ttl t =
    by_kind (latest asked_valid_until opts none) (latest asked_set_ttl opts none)
      (latest asked_update_ttl opts none) (some_option is_default_ttl opts) ttl t

-- the whole seconds that a field has left at the server's time `u`: none if it has no expiry
abbrev pub seconds_left : Latitude → ℤ → Option ℤ → ℤ
seconds_left l u none = pos 0
seconds_left l u (some e) = pos (pos_part (l.in_seconds (e +ℤ negated u)))

-- The expiry of a field that had `old`, behind a wish at the server's time `u`; `seconds` are the seconds of a
-- duration. A time up to the epoch, and a duration of less than a second, leave it as it was.
abbrev pub granted : Latitude → (Duration → ℤ) → Option Wish → ℤ → Option ℤ → Option ℤ
granted l seconds none u old = old
granted l seconds (some (until v)) u old =
    if ltb_ℤ (pos 0) (unix v) then some (millis (unix v)) else old
granted l seconds (some (longer d)) u old =
    if ltb_ℤ (pos 0) (seconds d)
    then some (u +ℤ millis (seconds_left l u old +ℤ seconds d))
    else old

-- The server takes the time of a wish, if it has to.
abbrev pub can_grant : Latitude → Option Wish → Bool
can_grant l none = true
can_grant l (some (until v)) = not (ltb_ℤ (pos 0) (unix v)) || l.in_range (unix v)
can_grant l (some (longer d)) = true

abbrev pub no_options : List GetOption → Bool
no_options [] = true
no_options (opt ∷ opts) = false

-- What a Get answers and leaves, by its options, the time of the program, the server `s`, and what that has
-- under the key.
abbrev pub Gives :
    Latitude
    → (Duration → ℤ)
    → Duration
    → String
    → String
    → List GetOption
    → Time
    → Remote
    → Option Field
    → Result Bytes × Remote
    → Type 0
Gives l seconds ttl key k [] t s p a = (a.0 ≡ plain_reply p) × (a.1 ≡ ticked s)
Gives l seconds ttl key k (opt ∷ opts) t s none a = (a.0 ≡ not_found) × (a.1 ≡ ticked s)
Gives l seconds ttl key k (opt ∷ opts) t s (some x) a =
    (a.0 ≡ ok x.value)
    × Wrote key k
        (if some_option is_delete (opt ∷ opts)
          then none
          else live_at (now s.clock) (
              some (record x {
                expires = granted l seconds (wish (opt ∷ opts) ttl t) (now s.clock) x.expires;
              })))
        s a.1

-- the numbers of the script, by a wish
abbrev args_of : (Duration → ℤ) → Option Wish → ℤ × ℤ
args_of seconds none = (pos 0, pos 0)
args_of seconds (some (until v)) = (unix v, pos 0)
args_of seconds (some (longer d)) = (pos 0, seconds d)

clamped : (z : ℤ) → (if ltb_ℤ z (pos 0) then pos 0 else z) ≡ pos (pos_part z)
unfolding ltb_ℤ
clamped (pos n) = ground arith
clamped (negsuc n) = ground arith

current_ttl-seconds_left :
    (l : Latitude) (u : ℤ) (value : Bytes) (o : Option ℤ)
    → current_ttl (ttl_reply l (some (record { value = value; expires = o })) u ∷ [])
      ≡ seconds_left l u o
unfolding current_ttl ttl_reply
current_ttl-seconds_left l u value none = clamped (negsuc 0)
current_ttl-seconds_left l u value (some e) = clamped (l.in_seconds (e +ℤ negated u))

module _ (l : Latitude) (seconds : Duration → ℤ) where
  args_by :
      (v : Option Time) (s u : Option Duration) (b : Bool) (ttl : Duration) (t : Time)
      → ttl_args seconds
          (record { valid_until = v; set_ttl = s; update_ttl = u; default_ttl = b; delete = false })
          ttl
          t
        ≡ args_of seconds (by_kind v s u b ttl t)
  unfolding ttl_args
  args_by (some v) s u b ttl t = refl
  args_by none (some d) u b ttl t = refl
  args_by none none (some d) b ttl t = refl
  args_by none none none true ttl t = elim (Bool-cases (is_positive ttl)) [
    | inl positive ↦ rw positive refl
    | inr other ↦ rw other refl
  ]
  args_by none none none false ttl t = refl

  ttl_args-wish :
      (opts : List GetOption) (ttl : Duration) (t : Time)
      → ttl_args seconds (apply_get opts no_get_options) ttl t ≡ args_of seconds (wish opts ttl t)
  unfolding ttl_args
  ttl_args-wish opts ttl t =
      let (v, s, u, b, _) = apply_get-latest opts in
      (λ i.
        ttl_args seconds
          (record {
            valid_until = v i;
            set_ttl = s i;
            update_ttl = u i;
            default_ttl = b i;
            delete = false;
          })
          ttl t)
      ∙ args_by (latest asked_valid_until opts none) (latest asked_set_ttl opts none)
          (latest asked_update_ttl opts none) (some_option is_default_ttl opts) ttl t

  renewed-granted :
      (w : Option Wish) (u : ℤ) (x : Field)
      → renewed l (args_of seconds w) u x ≡ record x { expires = granted l seconds w u x.expires }
  unfolding ltb_ℤ
  renewed-granted none u x = refl
  renewed-granted (some (until v)) u x = elim (Bool-cases (ltb_ℤ (pos 0) (unix v))) [
    | inl positive ↦ rw positive refl
    | inr other ↦ rw other refl
  ]
  renewed-granted (some (longer d)) u x = elim (Bool-cases (ltb_ℤ (pos 0) (seconds d))) [
    | inl positive ↦ rw positive (
        ap (λ left. record x { expires = some (u +ℤ millis (left +ℤ seconds d)) })
          (current_ttl-seconds_left l u x.value x.expires))
    | inr other ↦ rw other refl
  ]

  script_in_time-can_grant :
      (delete : Bool) (w : Option Wish)
      → (delete || can_grant l w) ≡ true
      → script_in_time l delete (args_of seconds w).0 ≡ true
  unfolding ltb_ℤ
  script_in_time-can_grant true w h = refl
  script_in_time-can_grant false none h = refl
  script_in_time-can_grant false (some (until v)) h = h
  script_in_time-can_grant false (some (longer d)) h = refl

is_empty-no_options :
    (opts : List GetOption) → is_empty (apply_get opts no_get_options) ≡ no_options opts
unfolding apply_get is_empty
is_empty-no_options [] = refl
is_empty-no_options (opt ∷ opts) = opt-is_empty opt opts

module _ {S : Type 0} (view : S → Remote) (l : Latitude) (seconds : Duration → ℤ)
    (r : RedisCache S) where
  some-Gives :
      (opt : GetOption) (opts : List GetOption) (k : String) (t : Time) (s : Remote)
      (p : Option Field) (a : Result Bytes × Remote)
      → (let o = apply_get (opt ∷ opts) no_get_options in
          GetAnswers l r.key k o (ttl_args seconds o r.ttl t) s p a)
      → Gives l seconds r.ttl r.key k (opt ∷ opts) t s p a
  some-Gives opt opts k t s none a h = h
  some-Gives opt opts k t s (some x) a (answer, wrote) =
      let list = opt ∷ opts in
      let u = now s.clock in
      let o = apply_get list no_get_options in
      let (_, _, _, _, deletes) = apply_get-latest list in
      let kept : renewed l (ttl_args seconds o r.ttl t) u x
          ≡ record x { expires = granted l seconds (wish list r.ttl t) u x.expires } =
        ap (λ args. renewed l args u x) (ttl_args-wish l seconds list r.ttl t)
        ∙ renewed-granted l seconds (wish list r.ttl t) u x in
      (
        answer,
        subst (λ y. Wrote r.key k y s a.1)
            (λ i. if deletes i then none else live_at u (some (kept i))) wrote,
      )

  read-Gives :
      (opts : List GetOption) (k : String) (c : Clock) (s : Remote) (p : Option Field)
      (a : Result Bytes × Remote)
      → ReadAnswers view l seconds r (apply_get opts no_get_options) k c s p a
      → Gives l seconds r.ttl r.key k opts (now c) s p a
  unfolding apply_get is_empty
  read-Gives [] k c s p a h = h
  read-Gives (opt ∷ opts) k c s p a h =
      some-Gives opt opts k (now c) s p a (rw (opt-is_empty opt opts) at h)

  -- Get over a client that behaves as documented, if the time that it is to write is one that the server
  -- takes, and the server's clock stands still for a script that may write one. With no options it
  -- answers the value of a field that has not expired, and ErrKeyNotFound for any other, and changes
  -- nothing. With options it answers the same; it then deletes the field if AndDelete is one of them.
  -- If not, the field gets the expiry of the first of these that there is: the last AndSetValidUntil; the
  -- last AndSetTTL, from the time of the program; the last AndUpdateTTL, on top of the whole seconds
  -- that are left; and by AndDefaultTTL a positive default TTL. Times are cut to whole seconds; one up to
  -- the epoch, and an AndUpdateTTL of less than a second, leave the expiry as it was. No other field
  -- changes.
  pub redis_get_lem :
      (k : String) (opts : List GetOption) (h : Host S)
      → IsClient view l r.client
      → IsMap ((view h.remote).hashes r.key)
      → StillFor (no_options opts || some_option is_delete opts) (view h.remote).clock
      → (some_option is_delete opts || can_grant l (wish opts r.ttl (now h.clock))) ≡ true
      → Gives l seconds r.ttl r.key k opts
          (now h.clock)
          (view h.remote)
          (found (view h.remote) r.key k)
          (left view (Redis.get seconds r k opts h))
  redis_get_lem k opts h v m still grants =
      let o = apply_get opts no_get_options in
      let (_, _, _, _, deletes) = apply_get-latest opts in
      let flags : (no_options opts || some_option is_delete opts) ≡ (is_empty o || o.delete) =
        λ i. sym (is_empty-no_options opts) i || sym deletes i in
      let in_time : script_in_time l o.delete (ttl_args seconds o r.ttl (now h.clock)).0 ≡ true =
        (λ i. script_in_time l (deletes i) (ttl_args-wish l seconds opts r.ttl (now h.clock) i).0)
        ∙ script_in_time-can_grant l seconds (some_option is_delete opts)
            (wish opts r.ttl (now h.clock)) grants in
      read-Gives opts k h.clock (view h.remote) (found (view h.remote) r.key k)
        (left view (Redis.get seconds r k opts h))
        (get-ReadAnswers view l seconds r k opts h v m
          (subst (λ b. StillFor b (view h.remote).clock) flags still) in_time)
