-- ===== src/Redis.antt =====
-- cache/redis.go: `RedisCache`, over a client and a server that are arguments. The state is the clock
-- of this program and the server; a context is not modelled.
pub mod Calls
pub mod Scripts
pub mod Documented
pub mod Laws
pub mod Follow
pub mod Methods
pub mod Fields
pub mod Storing
pub mod Adding
pub mod Renewing
pub mod Evaluating
pub mod Reading
pub mod Asked
pub mod Draining
pub mod Interface
pub mod Holds
pub mod Plain
pub mod Agreement
pub mod Within
pub mod Isolation
pub mod Pipelines
pub mod Lock
pub mod Replies
pub mod Failures
pub mod Config
pub mod Making
pub mod Deleting
pub mod Unexpiring
pub mod Defaults
pub mod Rounding
use Prim.Native.String.{◌++◌ as str_append}
use Prim.Native.Char.{Char}
use cachefx.Prelude.{
  Bytes, String, Bool, true, false, not, ◌&&◌, Option, none, some, List, [], ◌∷◌, ◌==◌,
  if◌then◌else◌, ℤ, pos,
}
use cachefx.Errors.{
  Error, sentinel, redis_nil, err_invalid_config, err_key_not_found, err_key_exists,
  index_out_of_range, wrap, Result, ok, err, is, Status, done,
}
use cachefx.Dict.{Dict, insert}
use cachefx.Options.{
  Options, SetOption, apply, GetOptions, GetOption, apply_get, no_get_options, is_empty, and_delete,
}
use cachefx.Time.{Time, Duration, Clock, zero_time, is_zero, is_positive, add, now, tick, unix}
use cachefx.Cache.{Cache}
use cachefx.Redis.Calls.{
  M, ◌>>=◌, ◌>>◌, pure, Item, null, text, payload, integer, Value, one, array, Command, h_set,
  h_expire_at, Client,
}
use cachefx.Redis.Scripts.{hgetall_and_delete, get_and_update_ttl}

-- The program's clock, and the server.
pub record Host (S : Type 0) : Type 0 where
  pub clock : Clock
  pub remote : S

-- `RedisCache`
pub record RedisCache (S : Type 0) : Type 0 where
  pub client : Client S
  pub owned_client : Bool
  pub key : String
  pub ttl : Duration

-- Some `M` on the server, run by the program.
abbrev pub on_server : {S A : Type 0} → M S A → M (Host S) A
on_server m h = let (r, s) = m h.remote in (r, record h { remote = s })

-- what a method makes of the error of a call
abbrev pub with_error : {A : Type 0} → (Error → Error) → Result A → Result A
with_error f (ok a) = ok a
with_error f (err e) = err (f e)

abbrev pub map_error : {S A : Type 0} → (Error → Error) → M S A → M S A
map_error f m s = (with_error f (m s).0, (m s).1)

-- `if err != nil { return fmt.Errorf(format, err) }`
abbrev pub or_fail : {S A : Type 0} → String → M S A → M S A
or_fail format m = map_error (wrap format) m

-- `ErrKeyNotFound` for `redis.Nil`, and any other error wrapped
unfoldable pub get_error : Error → Error
get_error e =
    if is redis_nil e then sentinel err_key_not_found else wrap "failed to get cache item: %w" e

-- `[]byte(value)`, if the result is a string; a string that is a value is a `payload`
abbrev pub bytes_result : Value → Result Bytes
bytes_result (one (payload v)) = ok v
bytes_result _ = err (sentinel err_key_not_found)

-- The loop of `Drain` over the array; an element that is no string is read as an empty one.
abbrev pub as_text : Item → String
as_text (text f) = f
as_text _ = ""

abbrev pub as_bytes : Item → Bytes
as_bytes (payload v) = v
as_bytes _ = []

unfoldable pub read_pairs : List Item → Dict Bytes → Result (Dict Bytes)
read_pairs [] out = ok out
read_pairs (f ∷ []) out = err index_out_of_range
read_pairs (f ∷ v ∷ arr) out = read_pairs arr (insert (as_text f) (as_bytes v) out)

-- `Drain` behind the script
unfoldable pub read_reply : Value → Result (Dict Bytes)
unfolding read_pairs
read_reply (one _) = ok []
read_reply (array arr) = read_pairs arr []

-- `options` of a `Set` or a `SetOrFail`, before and behind the options of the caller
unfoldable pub base_options : Duration → Clock → Options × Clock
base_options ttl c =
    if is_positive ttl
    then (record { valid_until = add (now c) ttl }, tick c)
    else (record { valid_until = zero_time }, c)

unfoldable pub item_options : Duration → List SetOption → Clock → Options × Clock
unfolding base_options
item_options ttl opts c = let (base, c1) = base_options ttl c in apply opts base c1

-- the commands of the pipeline of `Set`
abbrev pub queue : String → String → Bytes → Time → List Command
queue hash key value t =
    h_set hash key value ∷ (if not (is_zero t) then h_expire_at hash t key ∷ [] else [])

-- The arguments `ttlTimestamp` and `ttlDelta` of the script, by the `switch` of `Get`; `seconds` is
-- `int64(d.Seconds())`, which goes through a float.
unfoldable pub ttl_args : (Duration → ℤ) → GetOptions → Duration → Time → ℤ × ℤ
ttl_args seconds o ttl t = elim o.valid_until [
  | some v ↦ (unix v, pos 0)
  | none ↦ elim o.set_ttl [
    | some d ↦ (unix (add t d), pos 0)
    | none ↦ elim o.update_ttl [
      | some d ↦ (pos 0, seconds d)
      | none ↦
          if o.default_ttl && is_positive ttl then (unix (add t ttl), pos 0) else (pos 0, pos 0)
    ]
  ]
]

module _ {S : Type 0} (seconds : Duration → ℤ) (r : RedisCache S) where
  unfoldable pub cleanup : Host S → Status × Host S
  cleanup h = (done, h)

  unfoldable pub delete : String → Host S → Status × Host S
  delete key =
      or_fail "failed to delete cache item: %w" (on_server (r.client.h_del r.key key) >> pure tt)

  unfoldable pub drain : Host S → Result (Dict Bytes) × Host S
  unfolding hgetall_and_delete read_reply
  drain = do
    res ←
        or_fail "failed to drain cache: %w"
          (on_server (r.client.eval (hgetall_and_delete r.client.server r.key)))
    λ h. (read_reply res, h)

  -- `Get` with no options
  unfoldable pub get_plain : String → Host S → Result Bytes × Host S
  unfolding get_error
  get_plain key = map_error get_error (on_server (r.client.h_get r.key key))

  -- `Get` with options, behind its reading of the clock
  unfoldable pub get_by_script : GetOptions → String → Time → Host S → Result Bytes × Host S
  unfolding get_and_update_ttl ttl_args get_error
  get_by_script o key t = do
    result ← map_error get_error (
        on_server (
          r.client.eval (
            get_and_update_ttl r.client.server r.key key (if o.delete then "1" else "0")
              (ttl_args seconds o r.ttl t).0 (ttl_args seconds o r.ttl t).1)))
    λ h. (bytes_result result, h)

  unfoldable pub get_with : GetOptions → String → Host S → Result Bytes × Host S
  unfolding get_plain get_by_script
  get_with o key h =
      if is_empty o
      then get_plain key h
      else get_by_script o key (now h.clock) (record h { clock = tick h.clock })

  unfoldable pub get : String → List GetOption → Host S → Result Bytes × Host S
  unfolding get_with
  get key opts = get_with (apply_get opts no_get_options) key

  unfoldable pub get_and_delete : String → Host S → Result Bytes × Host S
  unfolding get
  get_and_delete key = get key (and_delete ∷ [])

  -- `Set` behind its options
  unfoldable pub set_until : String → Bytes → Time → Host S → Status × Host S
  set_until key value t =
      or_fail "failed to set cache item: %w"
        (on_server (r.client.pipelined (queue r.key key value t)))

  unfoldable pub set : String → Bytes → List SetOption → Host S → Status × Host S
  unfolding set_until item_options
  set key value opts h =
      let (o, c) = item_options r.ttl opts h.clock in
      set_until key value o.valid_until (record h { clock = c })

  -- the `HEXPIREAT` of `SetOrFail`
  unfoldable pub expire_at : String → Time → Host S → Status × Host S
  expire_at key t =
      if is_zero t
      then pure tt
      else or_fail "failed to set cache item ttl: %w"
          (on_server (r.client.h_expire_at r.key t key) >> pure tt)

  -- `SetOrFail` behind its `HSETNX`
  unfoldable pub added : String → List SetOption → Bool → Host S → Status × Host S
  unfolding expire_at item_options
  added key opts false h = (err (sentinel err_key_exists), h)
  added key opts true h =
      let (o, c) = item_options r.ttl opts h.clock in
      expire_at key o.valid_until (record h { clock = c })

  unfoldable pub set_or_fail : String → Bytes → List SetOption → Host S → Status × Host S
  unfolding added
  set_or_fail key value opts = do
    val ← or_fail "failed to set cache item: %w" (on_server (r.client.h_set_nx r.key key value))
    added key opts val

  unfoldable pub close : Host S → Status × Host S
  close =
      if r.owned_client
      then or_fail "failed to close redis client: %w" (on_server r.client.close)
      else pure tt

  -- `RedisCache` as a `Cache`
  abbrev pub redis_cache : Cache (Host S)
  redis_cache = record {
    set = set;
    set_or_fail = set_or_fail;
    get = get;
    get_and_delete = get_and_delete;
    delete = delete;
    cleanup = cleanup;
    drain = drain;
    close = close;
  }
