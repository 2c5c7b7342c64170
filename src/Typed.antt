-- ===== src/Typed.antt =====
-- cache/typed.go: `Typed`, the cache of typed items over a cache of bytes.
pub mod Wrapping
pub mod Decoding
pub mod Reading
pub mod Trips
pub mod Draining
use cachefx.Prelude.{Bytes, String, Bool, Option, none, some, List, [], ◌∷◌, if◌then◌else◌}
use cachefx.Errors.{
  Error, sentinel, wrap, wrap_named, err_failed_to_create_zero_value, Result, ok, err, ◌>>=◌,
  Status, done,
}
use cachefx.Dict.{Dict, insert}
use cachefx.Options.{SetOption, GetOption, and_delete}
use cachefx.Cache.{Cache}

-- The type argument of `Typed`: the two methods of `Item`, as functions of the item and of what
-- `Unmarshal` leaves in the item it is called on, and what `reflect` says of the type: its name,
-- whether it is a pointer, and the new item, unless the type assertion on it fails.
pub record ItemType (T : Type 0) : Type 0 where
  pub marshal : T → Result Bytes
  pub unmarshal : T → Bytes → Result T
  pub type_name : String
  pub is_pointer : Bool
  pub fresh : Option T

-- What wraps the error of a call, if it has one.
abbrev pub wrapping {ℓ} : {A : Type ℓ} → String → Result A → Result A
wrapping format (ok a) = ok a
wrapping format (err e) = err (wrap format e)

abbrev cannot_create {ℓ} : {A : Type ℓ} → String → String → Result A
cannot_create format name = err (wrap_named format name (sentinel err_failed_to_create_zero_value))

module _ {S T : Type 0} (item : ItemType T) (storage : Cache S) where
  -- `newItem`
  unfoldable pub new_item : Result T
  new_item =
      if item.is_pointer
      then elim item.fresh [
        | none ↦ cannot_create "%w: cannot create value of type %s" item.type_name
        | some fresh ↦ ok fresh
      ]
      else cannot_create "%w: type %s must be a pointer" item.type_name

  -- `newItem` and `Unmarshal`, for the bytes of an entry
  unfoldable pub decode : Bytes → Result T
  unfolding new_item
  decode raw_data = do
    value ← new_item
    wrapping "failed to unmarshal value from cache: %w" (item.unmarshal value raw_data)

  -- `Set` and `SetOrFail` behind `Marshal`
  abbrev pub store_marshalled : (Bytes → S → Status × S) → Result Bytes → S → Status × S
  store_marshalled store (err e) s = (err (wrap "failed to marshal value: %w" e), s)
  store_marshalled store (ok raw_data) s =
      let (r, s1) = store raw_data s in (wrapping "failed to set value in cache: %w" r, s1)

  unfoldable pub set : String → T → List SetOption → S → Status × S
  set key value opts s =
      store_marshalled (λ raw_data. storage.set key raw_data opts) (item.marshal value) s

  unfoldable pub set_or_fail : String → T → List SetOption → S → Status × S
  set_or_fail key value opts s =
      store_marshalled (λ raw_data. storage.set_or_fail key raw_data opts) (item.marshal value) s

  unfoldable pub get : String → List GetOption → S → Result T × S
  unfolding decode
  get key opts s =
      let (r, s1) = storage.get key opts s in
      (wrapping "failed to get value from cache: %w" r >>= decode, s1)

  unfoldable pub get_and_delete : String → S → Result T × S
  unfolding get
  get_and_delete key s = get key (and_delete ∷ []) s

  unfoldable pub delete : String → S → Status × S
  delete key s =
      let (r, s1) = storage.delete key s in (wrapping "failed to delete value from cache: %w" r, s1)

  unfoldable pub cleanup : S → Status × S
  cleanup s = let (r, s1) = storage.cleanup s in (wrapping "failed to cleanup cache: %w" r, s1)

  -- The loop of `Drain`, in an order of the map: it ends at the first value that it cannot decode.
  unfoldable pub decode_each : Dict Bytes → Dict T → Result (Dict T)
  unfolding decode
  decode_each [] items = ok items
  decode_each ((key, raw) ∷ raw_data) items = do
    value ← decode raw
    decode_each raw_data (insert key value items)

  unfoldable pub drain : S → Result (Dict T) × S
  unfolding decode_each
  drain s =
      let (r, s1) = storage.drain s in
      (wrapping "failed to drain cache: %w" r >>= λ raw_data. decode_each raw_data [], s1)

  unfoldable pub close : S → Status × S
  close s = let (r, s1) = storage.close s in (wrapping "failed to close cache: %w" r, s1)
