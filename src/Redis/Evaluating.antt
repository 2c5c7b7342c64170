-- ===== src/Redis/Evaluating.antt =====
-- The script of `Get` of cache/redis.go, as the documented client runs it.
use cachefx.Prelude.{
  Bytes, String, Bool, true, false, not, ◌||◌, ◌≡◌, refl, Option, none, some, ◌==◌, if◌then◌else◌,
  ℤ, pos, ltb_ℤ,
}
use cachefx.Errors.{Result, ok, err, sentinel, err_key_not_found, redis_nil}
use cachefx.Dict.{IsMap}
use cachefx.Options.{GetOptions}
use cachefx.Time.{now}
use cachefx.Redis.Calls.{M, pure, ◌>>=◌, Value, one, payload, null}
use cachefx.Redis.Documented.{
  Remote, Latitude, Field, documented_server, live_at, found, ticked, reply_or_nil, value_of,
}
use cachefx.Redis.Scripts.{update_ttl, take_or_update}
use cachefx.Redis.Laws.{>>-ok, >>=-ok}
use cachefx.Redis.Fields.{Wrote, erase-Wrote}
use cachefx.Redis.Renewing.{StillFor, renewed, update_ttl-Renews}

abbrev pub not_found : Result Bytes
not_found = err (sentinel err_key_not_found)

-- what a Get answers, by what the server has under the key
abbrev pub plain_reply : Option Field → Result Bytes
plain_reply none = not_found
plain_reply (some x) = ok x.value

-- What a Get with options answers and leaves, by what the server has under the key: `o` are the
-- options and `args` the two numbers.
abbrev pub GetAnswers :
    Latitude
    → String
    → String
    → GetOptions
    → ℤ × ℤ
    → Remote
    → Option Field
    → Result Bytes × Remote
    → Type 0
GetAnswers l key k o args s none a = (a.0 ≡ not_found) × (a.1 ≡ ticked s)
GetAnswers l key k o args s (some x) a =
    (a.0 ≡ ok x.value)
    × Wrote key k
        (if o.delete then none else live_at (now s.clock) (some (renewed l args (now s.clock) x))) s
        a.1

-- The answer of the script by way of the client.
abbrev pub Scripted :
    Latitude
    → String
    → String
    → Bool
    → ℤ × ℤ
    → Remote
    → Option Field
    → Result Value × Remote
    → Type 0
Scripted l key k flag args s none a = a ≡ (err (sentinel redis_nil), ticked s)
Scripted l key k flag args s (some x) a =
    (a.0 ≡ ok (one (payload x.value)))
    × Wrote key k
        (if flag then none else live_at (now s.clock) (some (renewed l args (now s.clock) x))) s a.1

-- The time of the script, if it is to write one, is one that the server takes.
abbrev pub script_in_time : Latitude → Bool → ℤ → Bool
script_in_time l flag ts = flag || (not (ltb_ℤ (pos 0) ts) || l.in_range ts)

module _ (l : Latitude) (key k : String) (s : Remote) (m : IsMap (s.hashes key)) where
  taken_or_updated :
      (flag : Bool) (ts delta : ℤ) (x : Field)
      → found s key k ≡ some x
      → StillFor flag s.clock
      → script_in_time l flag ts ≡ true
      → Scripted l key k flag
          (ts, delta)
          s
          (some x)
          (take_or_update (documented_server l) key k flag ts delta x.value (ticked s))
  unfolding take_or_update
  taken_or_updated true ts delta x there still ahead = (
    refl,
    record {
      written = (erase-Wrote key k (ticked s) m).written;
      others = (erase-Wrote key k (ticked s) m).others;
      valid = (erase-Wrote key k (ticked s) m).valid;
    },
  )
  taken_or_updated false ts delta x there still ahead =
      let (answer, wrote) = update_ttl-Renews l key k x s m still there ts delta ahead in
      let update = update_ttl (documented_server l) key k ts delta in
      let reply : M Remote Value = pure (one (payload x.value)) in
      rw (>>-ok update reply (ticked s) answer) (refl, wrote)

  -- what the client makes of the script behind its HGET
  abbrev pub behind_h_get : Bool → ℤ → ℤ → Option Bytes → Result Value × Remote
  behind_h_get flag ts delta value =
      ((elim value as (λ _. M Remote Value) [
        | none ↦ pure (one null)
        | some v ↦ take_or_update (documented_server l) key k flag ts delta v
      ])
          >>= reply_or_nil l)
        (ticked s)

  pub evaluated :
      (flag : Bool) (ts delta : ℤ) (o : Option Field)
      → found s key k ≡ o
      → StillFor flag s.clock
      → script_in_time l flag ts ≡ true
      → Scripted l key k flag (ts, delta) s o (behind_h_get flag ts delta (value_of o))
  evaluated flag ts delta none absent still ahead = refl
  evaluated flag ts delta (some x) there still ahead =
      let (answer, wrote) = taken_or_updated flag ts delta x there still ahead in
      let m = take_or_update (documented_server l) key k flag ts delta x.value in
      rw (>>=-ok m (reply_or_nil l) (ticked s) answer) (refl, wrote)

-- the script's reading of what the client passes for the flag
abbrev pub flag_of : Bool → Bool
flag_of b = let arg : String = if b then "1" else "0" in arg == "1" || arg == "true"

pub delete_flag : (b : Bool) → flag_of b ≡ b
delete_flag true = refl
delete_flag false = refl
