-- ===== src/Redis/Scripts.antt =====
-- The Lua scripts of cache/redis.go, over the commands of a server. `ARGV` holds texts; the numbers
-- in it are the integers that the client printed.
use cachefx.Prelude.{
  Bytes, String, Bool, none, some, List, [], ◌∷◌, ◌||◌, ◌==◌, if◌then◌else◌, ℤ, pos, ◌+ℤ◌, ltb_ℤ,
}
use cachefx.Errors.{ok, err}
use cachefx.Redis.Calls.{M, ◌>>=◌, ◌>>◌, pure, Item, null, payload, Value, one, array, Server}

-- `ttlArr[1] or 0`, and 0 for a negative one
unfoldable pub current_ttl : List ℤ → ℤ
current_ttl [] = pos 0
current_ttl (ttl ∷ _) = if ltb_ℤ ttl (pos 0) then pos 0 else ttl

module _ {S : Type 0} (server : Server S) where
  -- `local ok = pcall(redis.call, 'UNLINK', KEYS[1])`, and `DEL` if it raised an error
  unfoldable pub unlink_or_del : String → M S (Unit {0})
  unlink_or_del key s =
      let (r, s1) = server.unlink key s in
      elim r [ ok _ ↦ (ok tt, s1) | err _ ↦ (server.del key >> pure tt) s1 ]

  -- `if #items > 0`
  unfoldable pub unlink_if_any : String → List Item → M S (Unit {0})
  unfolding unlink_or_del
  unlink_if_any key [] = pure tt
  unlink_if_any key (_ ∷ _) = unlink_or_del key

  -- `hgetallAndDeleteScript`
  unfoldable pub hgetall_and_delete : String → M S Value
  unfolding unlink_if_any
  hgetall_and_delete key = do
    items ← server.h_get_all key
    unlink_if_any key items
    pure (array items)

  -- the `if` on `ttlTs` and `ttlDelta`
  unfoldable pub update_ttl : String → String → ℤ → ℤ → M S (Unit {0})
  unfolding current_ttl
  update_ttl key field ttl_ts ttl_delta =
      if ltb_ℤ (pos 0) ttl_ts
      then (server.h_expire_at key ttl_ts field >> pure tt)
      else if ltb_ℤ (pos 0) ttl_delta
      then (do
        ttl_arr ← server.h_ttl key field
        server.h_expire key (current_ttl ttl_arr +ℤ ttl_delta) field
        pure tt)
      else pure tt

  -- the script behind its `HGET`
  unfoldable pub take_or_update : String → String → Bool → ℤ → ℤ → Bytes → M S Value
  unfolding update_ttl
  take_or_update key field delete_flag ttl_ts ttl_delta value =
      if delete_flag
      then (do server.h_del key field; pure (one (payload value)))
      else (do update_ttl key field ttl_ts ttl_delta; pure (one (payload value)))

  -- `getAndUpdateTTLScript`
  unfoldable pub get_and_update_ttl : String → String → String → ℤ → ℤ → M S Value
  unfolding take_or_update
  get_and_update_ttl key field delete_arg ttl_ts ttl_delta = do
    value ← server.h_get key field
    elim value [
      | none ↦ pure (one null)
      | some v ↦
          take_or_update key field (delete_arg == "1" || delete_arg == "true") ttl_ts ttl_delta v
    ]
