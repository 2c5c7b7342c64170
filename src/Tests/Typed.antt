-- ===== src/Tests/Typed.antt =====
-- cache/typed.go over a cache in memory, with items that are numbers.
use cachefx.Prelude.{ℕ, ◌≡◌, refl, ap, sym, true, some, [], ◌∷◌, Bytes}
use cachefx.Errors.{Result, ok, err, done, foreign}
use cachefx.Options.{and_delete}
use cachefx.Cache.Laws.{forever}
use cachefx.Memory
use cachefx.Memory.{World}
use cachefx.Memory.Interface.{memory_cache, memory_cache-IsStore}
use cachefx.Memory.Valid.{IsValid}
use cachefx.Typed
use cachefx.Typed.{ItemType, decode}
use cachefx.Typed.Reading
use cachefx.Typed.Reading.{Reads}
use cachefx.Typed.Trips
use cachefx.Typed.Trips.{IsCodec}
use cachefx.Typed.Draining
use cachefx.Typed.Draining.{Decodes}
use cachefx.Tests.Data.{program, empty, one, empty-IsValid}

abbrev from_bytes : Bytes → Result ℕ
from_bytes [] = err (foreign "no bytes")
from_bytes (n ∷ raw) = ok n

-- a number as one byte
abbrev number : ItemType ℕ
number = record {
  marshal = λ n. ok (n ∷ []);
  unmarshal = λ _ raw. from_bytes raw;
  type_name = "*number";
  is_pointer = true;
  fresh = some 0;
}

abbrev bytes_of : Result Bytes → Bytes
bytes_of (ok raw) = raw
bytes_of (err e) = []

number-IsCodec : IsCodec number 0
number-IsCodec = record {
  pointer = refl;
  creates = refl;
  inverse = λ x raw marshalled. ap (λ r. from_bytes (bytes_of r)) (sym marshalled);
}

typed_get-set_example :
    ((Typed.set number memory_cache "k" 3 (forever []) empty).0 ≡ done)
    × ((Typed.get number memory_cache "k" []
          (Typed.set number memory_cache "k" 3 (forever []) empty).1).0
        ≡ ok 3)
typed_get-set_example =
    Trips.typed_get-set number memory_cache IsValid "k" 0 3 (3 ∷ []) [] memory_cache-IsStore
      empty-IsValid number-IsCodec refl

typed_get_lem_example :
    Reads number (Memory.get "a" [] one) (Typed.get number memory_cache "a" [] one)
    × Reads number
        (Memory.get "a" (and_delete ∷ []) one)
        (Typed.get_and_delete number memory_cache "a" one)
typed_get_lem_example = Reading.typed_get_lem number memory_cache "a" [] one

typed_drain_lem_example :
    Decodes number memory_cache (("a", 7 ∷ []) ∷ []) [] (Typed.drain number memory_cache one).0
    × ((Typed.drain number memory_cache one).1 ≡ (Memory.drain one).1)
unfolding program
typed_drain_lem_example =
    Draining.typed_drain_lem number memory_cache one (("a", 7 ∷ []) ∷ []) refl (refl, tt)
