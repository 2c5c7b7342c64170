-- ===== src/Redis/Follow.antt =====
-- The scripts and methods of cache/redis.go, over two servers and clients of which one follows the other.
use cachefx.Prelude.{
  Bytes, String, Bool, refl, Option, none, some, List, [], ◌∷◌, ◌||◌, ◌==◌, if◌then◌else◌, ℤ, pos,
  ltb_ℤ, ◌+ℤ◌,
}
use cachefx.Errors.{Result, ok, err}
use cachefx.Redis.Calls.{M, ◌>>=◌, ◌>>◌, pure, Item, Value, array, one, payload, null, Server}
use cachefx.Redis.Documented.{Remote, Latitude, documented_server}
use cachefx.Redis.Laws.{
  Follows, pure-Follows, if-Follows, handled-Follows, >>=-Follows, then-Follows, IsServer,
}
use cachefx.Redis.Scripts.{
  unlink_or_del, unlink_if_any, hgetall_and_delete, current_ttl, update_ttl, take_or_update,
  get_and_update_ttl,
}

module _ {S : Type 0} (view : S → Remote) (l : Latitude) (server : Server S)
    (v : IsServer view l server) where
  -- the script behind its UNLINK
  abbrev or_del : {T : Type 0} → Server T → String → Result ℤ → M T (Unit {0})
  or_del server key r t = elim r [ ok _ ↦ (ok tt, t) | err _ ↦ (server.del key >> pure tt) t ]

  or_del-Follows :
      (key : String) (r : Result ℤ)
      → Follows view (or_del server key r) (or_del (documented_server l) key r)
  or_del-Follows key (ok n) = λ s. (refl, refl)
  or_del-Follows key (err e) =
      then-Follows view (server.del key) ((documented_server l).del key) (pure tt) (pure tt)
        (v.del key) (pure-Follows view tt)

  unlink_or_del-Follows :
      (key : String)
      → Follows view (unlink_or_del server key) (unlink_or_del (documented_server l) key)
  unfolding unlink_or_del
  unlink_or_del-Follows key =
      let doc = documented_server l in
      handled-Follows view (server.unlink key) (doc.unlink key) (or_del server key) (or_del doc key)
        (v.unlink key) (or_del-Follows key)

  unlink_if_any-Follows :
      (key : String) (items : List Item)
      → Follows view
          (unlink_if_any server key items)
          (unlink_if_any (documented_server l) key items)
  unfolding unlink_if_any
  unlink_if_any-Follows key [] = pure-Follows view tt
  unlink_if_any-Follows key (_ ∷ _) = unlink_or_del-Follows key

  pub hgetall_and_delete-Follows :
      (key : String)
      → Follows view (hgetall_and_delete server key) (hgetall_and_delete (documented_server l) key)
  unfolding hgetall_and_delete
  hgetall_and_delete-Follows key =
      let doc = documented_server l in
      >>=-Follows view (λ items. unlink_if_any server key items >> pure (array items))
        (λ items. unlink_if_any doc key items >> pure (array items))
        (λ items.
          then-Follows view (unlink_if_any server key items) (unlink_if_any doc key items)
            (pure (array items)) (pure (array items)) (unlink_if_any-Follows key items)
            (pure-Follows view (array items)))
        (server.h_get_all key) (doc.h_get_all key) (v.h_get_all key)

  -- any command whose answer is dropped
  dropped-Follows :
      {A : Type 0} (m : M S A) (n : M Remote A)
      → Follows view m n
      → Follows view (m >> pure tt) (n >> pure tt)
  dropped-Follows m n h = then-Follows view m n (pure tt) (pure tt) h (pure-Follows view tt)

  raise_ttl-Follows :
      (key f : String) (delta : ℤ) (ttl_arr : List ℤ)
      → Follows view
          (server.h_expire key (current_ttl ttl_arr +ℤ delta) f >> pure tt)
          ((documented_server l).h_expire key (current_ttl ttl_arr +ℤ delta) f >> pure tt)
  raise_ttl-Follows key f delta ttl_arr =
      let ttl = current_ttl ttl_arr +ℤ delta in
      dropped-Follows (server.h_expire key ttl f) ((documented_server l).h_expire key ttl f)
        (v.h_expire key ttl f)

  update_ttl-Follows :
      (key f : String) (ts delta : ℤ)
      → Follows view
          (update_ttl server key f ts delta)
          (update_ttl (documented_server l) key f ts delta)
  unfolding update_ttl
  update_ttl-Follows key f ts delta =
      let doc = documented_server l in
      if-Follows view (ltb_ℤ (pos 0) ts) (server.h_expire_at key ts f >> pure tt)
        (if ltb_ℤ (pos 0) delta then (server.h_ttl key f >>= raised server) else pure tt)
        (doc.h_expire_at key ts f >> pure tt)
        (if ltb_ℤ (pos 0) delta then (doc.h_ttl key f >>= raised doc) else pure tt)
        (dropped-Follows (server.h_expire_at key ts f) (doc.h_expire_at key ts f)
          (v.h_expire_at key ts f))
        (if-Follows view (ltb_ℤ (pos 0) delta) (server.h_ttl key f >>= raised server) (pure tt)
          (doc.h_ttl key f >>= raised doc) (pure tt)
          (>>=-Follows view (raised server) (raised doc) (raise_ttl-Follows key f delta)
            (server.h_ttl key f) (doc.h_ttl key f) (v.h_ttl key f))
          (pure-Follows view tt))
    where
      raised : {T : Type 0} → Server T → List ℤ → M T (Unit {0})
      raised any ttl_arr = any.h_expire key (current_ttl ttl_arr +ℤ delta) f >> pure tt

  take_or_update-Follows :
      (key f : String) (flag : Bool) (ts delta : ℤ) (value : Bytes)
      → Follows view
          (take_or_update server key f flag ts delta value)
          (take_or_update (documented_server l) key f flag ts delta value)
  unfolding take_or_update
  take_or_update-Follows key f flag ts delta value =
      let doc = documented_server l in
      let reply = λ (T : Type 0). pure {S = T} (one (payload value)) in
      if-Follows view flag (server.h_del key f >> reply S)
        (update_ttl server key f ts delta >> reply S) (doc.h_del key f >> reply Remote)
        (update_ttl doc key f ts delta >> reply Remote)
        (then-Follows view (server.h_del key f) (doc.h_del key f) (reply S) (reply Remote)
          (v.h_del key f) (pure-Follows view (one (payload value))))
        (then-Follows view (update_ttl server key f ts delta) (update_ttl doc key f ts delta)
          (reply S) (reply Remote) (update_ttl-Follows key f ts delta)
          (pure-Follows view (one (payload value))))

  got-Follows :
      (key f : String) (flag : Bool) (ts delta : ℤ) (value : Option Bytes)
      → Follows view
          (elim value as (λ _. M S Value) [
            | none ↦ pure (one null)
            | some x ↦ take_or_update server key f flag ts delta x
          ])
          (elim value as (λ _. M Remote Value) [
            | none ↦ pure (one null)
            | some x ↦ take_or_update (documented_server l) key f flag ts delta x
          ])
  got-Follows key f flag ts delta none = pure-Follows view (one null)
  got-Follows key f flag ts delta (some x) = take_or_update-Follows key f flag ts delta x

  pub get_and_update_ttl-Follows :
      (key f arg : String) (ts delta : ℤ)
      → Follows view
          (get_and_update_ttl server key f arg ts delta)
          (get_and_update_ttl (documented_server l) key f arg ts delta)
  unfolding get_and_update_ttl
  get_and_update_ttl-Follows key f arg ts delta =
      let flag = arg == "1" || arg == "true" in
      >>=-Follows view
        (λ value. elim value as (λ _. M S Value) [
          | none ↦ pure (one null)
          | some x ↦ take_or_update server key f flag ts delta x
        ])
        (λ value. elim value as (λ _. M Remote Value) [
          | none ↦ pure (one null)
          | some x ↦ take_or_update (documented_server l) key f flag ts delta x
        ])
        (got-Follows key f flag ts delta) (server.h_get key f) ((documented_server l).h_get key f)
        (v.h_get key f)
