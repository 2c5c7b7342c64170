-- ===== src/Typed/Decoding.antt =====
-- cache/typed.go: what becomes of the bytes of an entry, told by the methods of the item's type alone.
use cachefx.Prelude.{
  Bytes, ◌≡◌, refl, true, false, Option, none, some, if◌then◌else◌, Bool-cases, Option-cases, inl,
  inr,
}
use cachefx.Errors.{err_failed_to_create_zero_value, Result, ok, err, is, result_is, succeeds}
use cachefx.Cache.{Cache}
use cachefx.Typed.{ItemType, wrapping, new_item, decode}
use cachefx.Typed.Wrapping.{IsWrapped, wrapping-IsWrapped}

-- The item that Unmarshal leaves, or an error in which the sentinels of its error are found.
abbrev pub Unmarshals : {T : Type 0} → Result T → Result T → Type 0
Unmarshals (ok y) a = a ≡ ok y
Unmarshals (err e) a = IsWrapped {A = Bytes} (err e) a

-- by the new item on which Unmarshal is called
abbrev pub DecodedBy : {T : Type 0} → ItemType T → Bytes → Option T → Result T → Type 0
DecodedBy item raw none a =
    (succeeds a ≡ false) × (result_is err_failed_to_create_zero_value a ≡ true)
DecodedBy item raw (some x) a = Unmarshals (item.unmarshal x raw) a

-- The bytes of an entry give what Unmarshal makes of them in a new item, or its error, or
-- ErrFailedToCreateZeroValue where the type is no pointer or no new item can be made.
abbrev pub Decoded : {T : Type 0} → ItemType T → Bytes → Result T → Type 0
Decoded item raw a = DecodedBy item raw (if item.is_pointer then item.fresh else none) a

unmarshalled :
    {T : Type 0} (r : Result T)
    → Unmarshals r (wrapping "failed to unmarshal value from cache: %w" r)
unmarshalled (ok y) = refl
unmarshalled (err e) =
    wrapping-IsWrapped {A = Bytes} "failed to unmarshal value from cache: %w" (err e)

pub decode-Decoded :
    {S T : Type 0} (item : ItemType T) (storage : Cache S) (raw : Bytes)
    → Decoded item raw (decode item storage raw)
unfolding decode new_item is
decode-Decoded item storage raw = elim (Bool-cases item.is_pointer) [
  | inl pointer ↦ elim (Option-cases item.fresh) [
    | inl absent ↦ rw (pointer, absent, decode, new_item) (refl, refl)
    | inr (x, found) ↦ rw (pointer, found, decode, new_item) (unmarshalled (item.unmarshal x raw))
  ]
  | inr other ↦ rw (other, decode, new_item) (refl, refl)
]
