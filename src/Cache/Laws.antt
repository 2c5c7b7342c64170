-- ===== src/Cache/Laws.antt =====
-- What a client of cache/cache.go relies on: a value that is set to live for ever is found at once.
use cachefx.Prelude.{Bytes, String, ◌≡◌, List, [], ◌∷◌, ◌++◌, pos}
use cachefx.Errors.{done, ok}
use cachefx.Options.{SetOption, with_ttl}
use cachefx.Cache.{Cache}

-- `opts`, and then the TTL zero
abbrev pub forever : List SetOption → List SetOption
forever opts = opts ++ with_ttl (pos 0) ∷ []

-- `IsReady` holds of the states in which the cache can be used.
pub record IsStore {S : Type 0} (c : Cache S) (IsReady : S → Type 0) : Type 0 where
  pub set_done :
      (k : String) (v : Bytes) (opts : List SetOption) {s : S}
      → IsReady s
      → (c.set k v (forever opts) s).0 ≡ done
  pub set_ready :
      (k : String) (v : Bytes) (opts : List SetOption) {s : S}
      → IsReady s
      → IsReady (c.set k v (forever opts) s).1
  pub get_set :
      (k : String) (v : Bytes) (opts : List SetOption) {s : S}
      → IsReady s
      → (c.get k [] (c.set k v (forever opts) s).1).0 ≡ ok v
