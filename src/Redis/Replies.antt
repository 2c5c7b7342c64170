-- ===== src/Redis/Replies.antt =====
-- What the methods of cache/redis.go make of the answers of the client.
use cachefx.Prelude.{
  Bytes, String, Bool, true, false, ◌≡◌, refl, List, [], ◌∷◌, if◌then◌else◌, Bool-cases, inl, inr,
  not,
}
use cachefx.Errors.{Error, Result, ok, err, succeeds, is, redis_nil, index_out_of_range, wrap}
use cachefx.Dict.{Dict, insert}
use cachefx.Redis.{
  get_error, read_pairs, read_reply, bytes_result, or_fail, map_error, as_text, as_bytes,
}
use cachefx.Redis.Calls.{◌>>=◌, ◌>>◌, pure, null, text, integer, Item, Value, one, array, payload}
use cachefx.Redis.Evaluating.{not_found}

-- The method answers an error that wraps the one of its call, and no error if its call succeeds.
abbrev pub Wraps : {A B : Type 0} → Result A → Result B → Type 0
Wraps (ok a) b = succeeds b ≡ true
Wraps (err e) b = (format : String) × (b ≡ err (wrap format e))

-- The method turns `redis.Nil` into ErrKeyNotFound, and wraps any other error.
abbrev pub Misses : {A : Type 0} → (A → Result Bytes) → Result A → Result Bytes → Type 0
Misses read (ok a) b = b ≡ read a
Misses read (err e) b =
    if is redis_nil e then b ≡ not_found else (format : String) × (b ≡ err (wrap format e))

-- a string, or no item
abbrev pub string_reply : Value → Result Bytes
string_reply (one (payload v)) = ok v
string_reply _ = not_found

-- Is the number of items odd?
abbrev pub is_odd {ℓ} : {A : Type ℓ} → List A → Bool
is_odd [] = false
is_odd (_ ∷ items) = not (is_odd items)

-- What a Drain makes of a reply: a panic on an array of an odd number of items, and values if not.
abbrev pub Reads : Value → Result (Dict Bytes) → Type 0
Reads (one _) b = b ≡ ok []
Reads (array items) b = if is_odd items then b ≡ err index_out_of_range else succeeds b ≡ true

abbrev pub DrainReads : Result Value → Result (Dict Bytes) → Type 0
DrainReads (ok v) b = Reads v b
DrainReads (err e) b = (format : String) × (b ≡ err (wrap format e))

not-not : (b : Bool) → not (not b) ≡ b
not-not true = refl
not-not false = refl

read_pairs-Reads :
    (items : List Item) (out : Dict Bytes) → Reads (array items) (read_pairs items out)
unfolding read_pairs
read_pairs-Reads [] out = refl
read_pairs-Reads (f ∷ []) out = refl
read_pairs-Reads (f ∷ v ∷ items) out =
    rw not-not (read_pairs-Reads items (insert (as_text f) (as_bytes v) out))

read_reply-Reads : (v : Value) → Reads v (read_reply v)
unfolding read_reply
read_reply-Reads (one i) = refl
read_reply-Reads (array items) = read_pairs-Reads items []

get_error-Misses :
    {A : Type 0} (read : A → Result Bytes) (e : Error) → Misses read (err e) (err (get_error e))
unfolding get_error
get_error-Misses read e = elim (Bool-cases (is redis_nil e)) [
  | inl h ↦ rw h refl
  | inr h ↦ rw h ("failed to get cache item: %w", refl)
]

bytes_result-string_reply : (v : Value) → bytes_result v ≡ string_reply v
bytes_result-string_reply (one null) = refl
bytes_result-string_reply (one (text f)) = refl
bytes_result-string_reply (one (payload v)) = refl
bytes_result-string_reply (one (integer n)) = refl
bytes_result-string_reply (array items) = refl

-- What the methods make of the answer `a` of a call that leaves `s`.
module _ {S : Type 0} where
  pub called-Wraps :
      {A : Type 0} (format : String) (a : Result A) (s : S)
      → Wraps a (or_fail format ((λ _. (a, s)) >> pure tt) s).0
  called-Wraps format (ok a) s = refl
  called-Wraps format (err e) s = (format, refl)

  pub or_fail-Wraps :
      {A : Type 0} (format : String) (a : Result A) (s : S)
      → Wraps a (or_fail format (λ _. (a, s)) s).0
  or_fail-Wraps format (ok a) s = refl
  or_fail-Wraps format (err e) s = (format, refl)

  pub plain-Misses :
      (a : Result Bytes) (s : S) → Misses ok a (map_error get_error (λ _. (a, s)) s).0
  plain-Misses (ok v) s = refl
  plain-Misses (err e) s = get_error-Misses ok e

  pub script-Misses :
      (a : Result Value) (s : S)
      → Misses string_reply a
          ((map_error get_error (λ _. (a, s)) >>= λ result s. (bytes_result result, s)) s).0
  script-Misses (ok v) s = bytes_result-string_reply v
  script-Misses (err e) s = get_error-Misses string_reply e

  pub drain-Reads :
      (format : String) (a : Result Value) (s : S)
      → DrainReads a ((or_fail format (λ _. (a, s)) >>= λ res s. (read_reply res, s)) s).0
  drain-Reads format (ok v) s = read_reply-Reads v
  drain-Reads format (err e) s = (format, refl)
