-- ===== src/Typed/Trips.antt =====
-- cache/typed.go: an item that is set is the item that is found.
use cachefx.Prelude.{Bytes, String, ◌≡◌, refl, true, some, List, []}
use cachefx.Errors.{ok, done}
use cachefx.Options.{SetOption}
use cachefx.Cache.{Cache}
use cachefx.Cache.Laws.{IsStore, forever}
use cachefx.Typed
use cachefx.Typed.{ItemType, new_item, decode}

-- The type is a pointer type, and its Unmarshal, called on a new item, gives back every item that its
-- Marshal has made bytes of.
pub record IsCodec {T : Type 0} (item : ItemType T) (fresh : T) : Type 0 where
  pub pointer : item.is_pointer ≡ true
  pub creates : item.fresh ≡ some fresh
  pub inverse : (x : T) (raw : Bytes) → item.marshal x ≡ ok raw → item.unmarshal fresh raw ≡ ok x

module _ {S T : Type 0} (item : ItemType T) (storage : Cache S) where
  decode_marshalled :
      (fresh x : T) (raw : Bytes)
      → IsCodec item fresh
      → item.marshal x ≡ ok raw
      → decode item storage raw ≡ ok x
  unfolding decode new_item
  decode_marshalled fresh x raw codec marshalled =
      rw (codec.pointer, codec.creates, decode, new_item, codec.inverse x raw marshalled) refl

  -- Over a cache that keeps what is set to live for ever, and for a type whose Unmarshal gives back what
  -- its Marshal took: an item that Marshal takes is set without an error, and a Get right after it
  -- finds the item that was set.
  pub typed_get-set :
      (IsReady : S → Type 0) (k : String) (fresh x : T) (raw : Bytes) (opts : List SetOption)
      {s : S}
      → IsStore storage IsReady
      → IsReady s
      → IsCodec item fresh
      → item.marshal x ≡ ok raw
      → ((Typed.set item storage k x (forever opts) s).0 ≡ done)
        × ((Typed.get item storage k [] (Typed.set item storage k x (forever opts) s).1).0 ≡ ok x)
  unfolding Typed.set Typed.get
  typed_get-set IsReady k fresh x raw opts laws ready codec marshalled = (
    rw (marshalled, Typed.set, laws.set_done k raw opts ready) refl,
    rw (marshalled, Typed.set, laws.get_set k raw opts ready, Typed.get)
        (decode_marshalled fresh x raw codec marshalled),
  )
