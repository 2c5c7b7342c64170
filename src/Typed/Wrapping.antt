-- ===== src/Typed/Wrapping.antt =====
-- cache/typed.go: what the operations answer, and that `errors.Is` sees through their errors.
use cachefx.Prelude.{
  Bytes, String, ◌≡◌, refl, true, if◌then◌else◌, none, some, List, Bool-cases, Option-cases, inl,
  inr,
}
use cachefx.Errors.{
  Sentinel, err_failed_to_create_zero_value, Result, ok, err, Status, is, result_is, succeeds,
}
use cachefx.Options.{SetOption}
use cachefx.Cache.{Cache}
use cachefx.Typed
use cachefx.Typed.{ItemType, wrapping, new_item, decode}

wrapping-is :
    {A : Type 0} (target : Sentinel) (format : String) (r : Result A)
    → result_is target (wrapping format r) ≡ result_is target r
unfolding is
wrapping-is target format (ok a) = refl
wrapping-is target format (err e) = refl

wrapping-succeeds :
    {A : Type 0} (format : String) (r : Result A) → succeeds (wrapping format r) ≡ succeeds r
wrapping-succeeds format (ok a) = refl
wrapping-succeeds format (err e) = refl

-- The answer `a` fails exactly if `r` does, and the same sentinels are found in its error.
abbrev pub IsWrapped : {A B : Type 0} → Result A → Result B → Type 0
IsWrapped r a =
    (succeeds a ≡ succeeds r) × ((target : Sentinel) → result_is target a ≡ result_is target r)

pub wrapping-IsWrapped :
    {A : Type 0} (format : String) (r : Result A) → IsWrapped r (wrapping format r)
wrapping-IsWrapped format r = (wrapping-succeeds format r, λ target. wrapping-is target format r)

-- What a Set of a typed cache does, by the answer of Marshal; `store` is the Set of its storage.
abbrev pub SetAnswers :
    {S : Type 0} → (Bytes → S → Status × S) → Result Bytes → S → Status × S → Type 0
SetAnswers store (err e) s a = IsWrapped {A = Bytes} (err e) a.0 × (a.1 ≡ s)
SetAnswers store (ok raw) s a = IsWrapped (store raw s).0 a.0 × (a.1 ≡ (store raw s).1)

store_marshalled_lem :
    {S T : Type 0} (item : ItemType T) (storage : Cache S) (store : Bytes → S → Status × S)
    (r : Result Bytes) (s : S)
    → SetAnswers store r s (Typed.store_marshalled item storage store r s)
unfolding is
store_marshalled_lem item storage store (err e) s = ((refl, λ target. refl), refl)
store_marshalled_lem item storage store (ok raw) s =
    (wrapping-IsWrapped "failed to set value in cache: %w" (store raw s).0, refl)

module _ {S T : Type 0} (item : ItemType T) (storage : Cache S) where
  -- Set and SetOrFail of a typed cache: if Marshal fails they leave the storage as it is and fail with
  -- an error that wraps its; if not, they are the Set and SetOrFail of the storage on the marshalled
  -- bytes, whose error they wrap.
  pub set_errors :
      (k : String) (x : T) (opts : List SetOption) (s : S)
      → SetAnswers
          (λ raw. storage.set k raw opts)
          (item.marshal x)
          s
          (Typed.set item storage k x opts s)
        × SetAnswers
            (λ raw. storage.set_or_fail k raw opts)
            (item.marshal x)
            s
            (Typed.set_or_fail item storage k x opts s)
  unfolding Typed.set Typed.set_or_fail
  set_errors k x opts s = (
    store_marshalled_lem item storage (λ raw. storage.set k raw opts) (item.marshal x) s,
    store_marshalled_lem item storage (λ raw. storage.set_or_fail k raw opts) (item.marshal x) s,
  )

  -- A typed cache decodes nothing, and answers ErrFailedToCreateZeroValue, exactly if its type is no
  -- pointer or no new item of it can be made, unless Unmarshal itself answers that error.
  pub decode_errors :
      (raw : Bytes)
      → result_is err_failed_to_create_zero_value (decode item storage raw) ≡ (
          if item.is_pointer
          then elim item.fresh [
            | none ↦ true
            | some x ↦ result_is err_failed_to_create_zero_value (item.unmarshal x raw)
          ]
          else true)
  unfolding decode new_item is
  decode_errors raw = elim (Bool-cases item.is_pointer) [
    | inl pointer ↦ elim (Option-cases item.fresh) [
      | inl absent ↦ rw (pointer, absent, decode, new_item) refl
      | inr (x, found) ↦
          rw (pointer, found, decode, new_item)
            (wrapping-is err_failed_to_create_zero_value "failed to unmarshal value from cache: %w"
              (item.unmarshal x raw))
    ]
    | inr other ↦ rw (other, decode, new_item) refl
  ]

  -- Delete, Cleanup and Close of a typed cache are those of its storage, whose errors they wrap.
  pub passed_on :
      (k : String) (s : S)
      → IsWrapped (storage.delete k s).0 (Typed.delete item storage k s).0
        × ((Typed.delete item storage k s).1 ≡ (storage.delete k s).1)
        × IsWrapped (storage.cleanup s).0 (Typed.cleanup item storage s).0
        × ((Typed.cleanup item storage s).1 ≡ (storage.cleanup s).1)
        × IsWrapped (storage.close s).0 (Typed.close item storage s).0
        × ((Typed.close item storage s).1 ≡ (storage.close s).1)
  unfolding Typed.delete Typed.cleanup Typed.close
  passed_on k s = (
    wrapping-IsWrapped "failed to delete value from cache: %w" (storage.delete k s).0,
    refl,
    wrapping-IsWrapped "failed to cleanup cache: %w" (storage.cleanup s).0,
    refl,
    wrapping-IsWrapped "failed to close cache: %w" (storage.close s).0,
    refl,
  )
