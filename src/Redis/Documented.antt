-- ===== src/Redis/Documented.antt =====
-- What the documentation of Redis and of go-redis says of the calls of cache/redis.go, as a server that
-- keeps hashes whose fields may expire, and a client whose connection never fails. The laws of
-- `Redis.Laws` compare another server and client with these.
use cachefx.Prelude.{
  Bytes, String, Bool, true, false, Option, none, some, List, [], ◌∷◌, ◌==◌, if◌then◌else◌, ℤ, pos,
  negsuc, ◌+ℤ◌, ltb_ℤ, ℕ, zero, suc, ◌+◌, ◌*◌, not,
}
use cachefx.Errors.{Error, sentinel, redis_nil, foreign, ok, err}
use cachefx.Dict.{Dict, lookup, insert, erase, retain}
use cachefx.Time.{Clock, now, tick, unix}
use cachefx.Redis.Calls.{
  M, ◌>>=◌, ◌>>◌, pure, Item, null, text, payload, Value, one, Command, h_set, h_expire_at, Server,
  Client,
}

-- a field of a hash; it expires at a number of milliseconds
pub record Field : Type 0 where
  pub value : Bytes
  pub expires : Option ℤ

-- The hashes, by their keys, and the server's clock, in milliseconds: a reading for each command that
-- looks at it. A field that has expired stays until it is written or listed, and no command shows it.
pub record Remote : Type 0 where
  pub hashes : String → Dict Field
  pub clock : Clock

-- What the documentation leaves open: the order in which HGETALL lists the fields of a hash, by the
-- number of the reading; the seconds that HTTL answers for a number of milliseconds; the times that
-- HEXPIREAT takes as valid; and whether the server has UNLINK, which old ones do not.
pub record Latitude : Type 0 where
  pub order : ℕ → Dict Bytes → Dict Bytes
  pub in_seconds : ℤ → ℤ
  pub in_range : ℤ → Bool
  pub has_unlink : Bool

-- seconds as milliseconds
unfoldable pub millis : ℤ → ℤ
millis (pos n) = pos (n * 1000)
millis (negsuc n) = negsuc (n * 1000 + 999)

abbrev pub negated : ℤ → ℤ
negated (pos zero) = pos 0
negated (pos (suc n)) = negsuc n
negated (negsuc n) = pos (n + 1)

-- Has the field expired at `t`?
unfoldable pub has_ended : Field → ℤ → Bool
has_ended f t = elim f.expires [ none ↦ false | some e ↦ not (ltb_ℤ t e) ]

-- A field at time `t`: none, once it has expired.
abbrev pub live_at : ℤ → Option Field → Option Field
live_at t none = none
live_at t (some f) = if has_ended f t then none else some f

-- A field as the next command finds it.
abbrev pub found : Remote → String → String → Option Field
found r key f = live_at (now r.clock) (lookup f (r.hashes key))

-- the server behind a command, with another hash under a key
abbrev pub put : String → Dict Field → Remote → Remote
put key d r = record { hashes = λ k. if key == k then d else r.hashes k; clock = tick r.clock }

abbrev pub ticked : Remote → Remote
ticked r = record r { clock = tick r.clock }

-- UNLINK and DEL do not look at the clock.
abbrev pub removed : String → Remote → Remote
removed key r = record r { hashes = λ k. if key == k then [] else r.hashes k }

abbrev pub value_of : Option Field → Option Bytes
value_of none = none
value_of (some f) = some f.value

-- the fields that have not expired at `t`, with their values
unfoldable pub live_values : ℤ → Dict Field → Dict Bytes
live_values t [] = []
live_values t ((k, f) ∷ d) =
    let rest = live_values t d in if has_ended f t then rest else (k, f.value) ∷ rest

abbrev pub flat : Dict Bytes → List Item
flat [] = []
flat ((k, v) ∷ d) = text k ∷ payload v ∷ flat d

abbrev pub out_of_range : Error
out_of_range = foreign "ERR invalid expire time"

abbrev pub unknown_command : Error
unknown_command = foreign "ERR unknown command 'unlink'"

abbrev is_some : {A : Type 0} → Option A → Bool
is_some none = false
is_some (some a) = true

module _ (l : Latitude) where
  -- HSET: the field loses the expiry that it had.
  unfoldable pub set_field : String → String → Bytes → M Remote ℤ
  set_field key f v r = (
    ok (if is_some (found r key f) then pos 0 else pos 1),
    put key (insert f (record { value = v; expires = none }) (r.hashes key)) r,
  )

  -- HSETNX
  unfoldable pub add_field : String → String → Bytes → M Remote Bool
  add_field key f v r = elim (found r key f) [
    | some _ ↦ (ok false, ticked r)
    | none ↦ (ok true, put key (insert f (record { value = v; expires = none }) (r.hashes key)) r)
  ]

  -- A field that is there gets an expiry, or is deleted if the time has come.
  unfoldable pub expire_field : String → ℤ → String → M Remote (List ℤ)
  expire_field key e f r = elim (found r key f) [
    | none ↦ (ok (negsuc 1 ∷ []), ticked r)
    | some x ↦
        if ltb_ℤ (now r.clock) e
        then (ok (pos 1 ∷ []), put key (insert f (record x { expires = some e }) (r.hashes key)) r)
        else (ok (pos 2 ∷ []), put key (erase f (r.hashes key)) r)
  ]

  unfoldable pub ttl_reply : Option Field → ℤ → ℤ
  ttl_reply none t = negsuc 1
  ttl_reply (some x) t = elim x.expires [ none ↦ negsuc 0 | some e ↦ l.in_seconds (e +ℤ negated t) ]

  abbrev pub documented_server : Server Remote
  documented_server = record {
    h_get = λ key f r. (ok (value_of (found r key f)), ticked r);
    h_del = λ key f r.
        (ok (if is_some (found r key f) then pos 1 else pos 0), put key (erase f (r.hashes key)) r);
    h_get_all = λ key r. (
      ok (flat (l.order r.clock.reads (live_values (now r.clock) (r.hashes key)))),
      put key (retain (λ f. not (has_ended f (now r.clock))) (r.hashes key)) r,
    );
    h_expire_at = λ key e f r.
        if l.in_range e then expire_field key (millis e) f r else (err out_of_range, ticked r);
    h_expire = λ key ttl f r. expire_field key (now r.clock +ℤ millis ttl) f r;
    h_ttl = λ key f r. (ok (ttl_reply (found r key f) (now r.clock) ∷ []), ticked r);
    unlink =
        λ key r. if l.has_unlink then (ok (pos 1), removed key r) else (err unknown_command, r);
    del = λ key r. (ok (pos 1), removed key r);
  }

  -- one command of a pipeline
  unfoldable pub queued : Command → M Remote (Unit {0})
  unfolding set_field
  queued (h_set key f v) = set_field key f v >> pure tt
  queued (h_expire_at key t f) = documented_server.h_expire_at key (unix t) f >> pure tt

  -- All commands of a pipeline are run; the answer is the first error.
  unfoldable pub run_queue : List Command → M Remote (Unit {0})
  unfolding queued
  run_queue [] r = (ok tt, r)
  run_queue (c ∷ cs) r =
      let (a, r1) = queued c r in
      let (b, r2) = run_queue cs r1 in (elim a [ ok _ ↦ b | err e ↦ err e ], r2)

  -- A null reply is the error `redis.Nil`.
  abbrev pub or_nil : Option Bytes → M Remote Bytes
  or_nil none r = (err (sentinel redis_nil), r)
  or_nil (some v) r = (ok v, r)

  abbrev pub reply_or_nil : Value → M Remote Value
  reply_or_nil (one null) r = (err (sentinel redis_nil), r)
  reply_or_nil v r = (ok v, r)

  abbrev pub documented_client : Client Remote
  documented_client = record {
    server = documented_server;
    h_get = λ key f. documented_server.h_get key f >>= or_nil;
    h_del = documented_server.h_del;
    h_set_nx = add_field;
    h_expire_at = λ key t f. documented_server.h_expire_at key (unix t) f;
    pipelined = run_queue;
    eval = λ script. script >>= reply_or_nil;
    close = pure tt;
  }
