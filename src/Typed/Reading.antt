-- ===== src/Typed/Reading.antt =====
-- cache/typed.go: `Get` and `GetAndDelete`.
use cachefx.Prelude.{Bytes, String, ◌≡◌, refl, List, [], ◌∷◌}
use cachefx.Errors.{Result, ok, err, ◌>>=◌, is}
use cachefx.Options.{GetOption, and_delete}
use cachefx.Cache.{Cache}
use cachefx.Typed
use cachefx.Typed.{ItemType, wrapping, decode}
use cachefx.Typed.Wrapping.{IsWrapped}
use cachefx.Typed.Decoding.{Decoded, decode-Decoded}

-- What a Get of a typed cache answers, by the answer of its storage.
abbrev pub GetAnswers : {T : Type 0} → ItemType T → Result Bytes → Result T → Type 0
GetAnswers item (err e) a = IsWrapped {A = Bytes} (err e) a
GetAnswers item (ok raw) a = Decoded item raw a

-- The answer of a typed Get and the state behind it, by those of the Get of its storage.
abbrev pub Reads : {S T : Type 0} → ItemType T → Result Bytes × S → Result T × S → Type 0
Reads item b a = GetAnswers item b.0 a.0 × (a.1 ≡ b.1)

module _ {S T : Type 0} (item : ItemType T) (storage : Cache S) where
  answered :
      (r : Result Bytes)
      → GetAnswers item r (wrapping "failed to get value from cache: %w" r >>= decode item storage)
  unfolding is
  answered (err e) = (refl, λ target. refl)
  answered (ok raw) = decode-Decoded item storage raw

  -- Get of a typed cache leaves the storage as the storage's Get with these options does, and
  -- GetAndDelete as its Get with the option AndDelete alone, also where the value cannot be decoded. An
  -- error of the storage is wrapped. Bytes give the item that Unmarshal makes of them, called on a new
  -- item of the type, or its error, wrapped; if the type is no pointer, or no new item of it can be
  -- made, they give ErrFailedToCreateZeroValue, wrapped.
  pub typed_get_lem :
      (k : String) (opts : List GetOption) (s : S)
      → Reads item (storage.get k opts s) (Typed.get item storage k opts s)
        × Reads item (storage.get k (and_delete ∷ []) s) (Typed.get_and_delete item storage k s)
  unfolding Typed.get Typed.get_and_delete
  typed_get_lem k opts s = (
    (answered (storage.get k opts s).0, refl),
    (answered (storage.get k (and_delete ∷ []) s).0, refl),
  )
