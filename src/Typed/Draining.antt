-- ===== src/Typed/Draining.antt =====
-- cache/typed.go: `Drain` decodes every value or fails.
use cachefx.Prelude.{
  Bytes, String, ◌≡◌, refl, ap, sym, subst, ◌∙◌, true, Option, none, some, [], ◌∷◌, ◌==◌, eq_iff,
  eq_refl, arith, Bool-cases, inl, inr,
}
use cachefx.Errors.{Result, ok, err, ◌>>=◌}
use cachefx.Dict.{Dict, lookup, insert, IsMap, lookup-insert}
use cachefx.Cache.{Cache}
use cachefx.Typed
use cachefx.Typed.{ItemType, wrapping, decode, decode_each}
use cachefx.Typed.Decoding.{Decoded, decode-Decoded}

absent_at :
    {V : Type 0} (key k : String) (m : Dict V)
    → lookup key m ≡ none
    → (key == k) ≡ true
    → lookup k m ≡ none
absent_at key k m absent same = ap (λ j. lookup j m) (sym ((eq_iff key k).0 same)) ∙ absent

no_entry : (o : Option Bytes) {raw : Bytes} → o ≡ none → o ≡ some raw → ⊥
no_entry o absent there = ground (arith, absent, there)

module _ {S T : Type 0} (item : ItemType T) (storage : Cache S) where
  -- What a key maps to behind the loop: the item that its bytes give, or what it mapped to before.
  abbrev pub Merged : Option Bytes → Option T → Option T → Type 0
  Merged none old o = o ≡ old
  Merged (some raw) old o = (x : T) × (o ≡ some x) × Decoded item raw (ok x)

  -- What the loop of Drain answers for the bytes of all keys: the decoded values under their keys, or
  -- the error of one of them.
  abbrev pub Decodes : Dict Bytes → Dict T → Result (Dict T) → Type 0
  Decodes raws acc (ok items) =
      (k : String) → Merged (lookup k raws) (lookup k acc) (lookup k items)
  Decodes raws acc (err e) =
      (k : String) × (raw : Bytes) × (lookup k raws ≡ some raw) × Decoded item raw (err e)

  first-Decodes :
      (key : String) (raw : Bytes) (x : T) (raws : Dict Bytes) (acc : Dict T)
      → lookup key raws ≡ none
      → Decoded item raw (ok x)
      → (r : Result (Dict T)) → Decodes raws (insert key x acc) r
      → Decodes ((key, raw) ∷ raws) acc r
  unfolding lookup
  first-Decodes key raw x raws acc absent gives (ok items) h = λ k. elim (Bool-cases (key == k)) [
    | inl same ↦
        let there : lookup k items ≡ lookup k (insert key x acc) =
          subst (λ o. Merged o (lookup k (insert key x acc)) (lookup k items))
            (absent_at key k raws absent same) (h k) in
        rw same (x, there ∙ rw (lookup-insert key k x acc, same) refl, gives)
    | inr other ↦
        let kept : lookup k (insert key x acc) ≡ lookup k acc =
          rw (lookup-insert key k x acc, other) refl in
        rw other (subst (λ o. Merged (lookup k raws) o (lookup k items)) kept (h k))
  ]
  first-Decodes key raw x raws acc absent gives (err e) (k, bad, there, fails) = (
    k,
    bad,
    elim (Bool-cases (key == k)) [
      | inl same ↦ absurd (no_entry (lookup k raws) (absent_at key k raws absent same) there)
      | inr other ↦ rw other there
    ],
    fails,
  )

  rest-Decodes :
      (key : String) (raw : Bytes) (raws : Dict Bytes) (acc : Dict T)
      → lookup key raws ≡ none
      → ((x : T)
          → Decodes raws (insert key x acc) (decode_each item storage raws (insert key x acc)))
      → (r : Result T) → Decoded item raw r
      → Decodes
          ((key, raw) ∷ raws)
          acc
          (r >>= λ x. decode_each item storage raws (insert key x acc))
  unfolding lookup
  rest-Decodes key raw raws acc absent rest (err e) gives = (key, raw, rw eq_refl refl, gives)
  rest-Decodes key raw raws acc absent rest (ok x) gives =
      first-Decodes key raw x raws acc absent gives
        (decode_each item storage raws (insert key x acc)) (rest x)

  decode_each_lem :
      (raws : Dict Bytes) (acc : Dict T)
      → IsMap raws
      → Decodes raws acc (decode_each item storage raws acc)
  unfolding decode_each lookup
  decode_each_lem [] acc h = λ k. refl
  decode_each_lem ((key, raw) ∷ raws) acc h =
      rest-Decodes key raw raws acc h.0 (λ x. decode_each_lem raws (insert key x acc) h.1)
        (decode item storage raw) (decode-Decoded item storage raw)

  -- Drain of a typed cache over a storage whose Drain answers the map `raws`: the storage is left as that
  -- Drain leaves it, drained also when a value cannot be decoded. The answer is a map with the keys of
  -- `raws`, each with the item that Unmarshal makes of its bytes in a new item, so that all of them can
  -- be decoded; or it is the error of one that cannot.
  pub typed_drain_lem :
      (s : S) (raws : Dict Bytes)
      → (storage.drain s).0 ≡ ok raws
      → IsMap raws
      → Decodes raws [] (Typed.drain item storage s).0
        × ((Typed.drain item storage s).1 ≡ (storage.drain s).1)
  unfolding Typed.drain
  typed_drain_lem s raws found h = (rw (found, Typed.drain) (decode_each_lem raws [] h), refl)
