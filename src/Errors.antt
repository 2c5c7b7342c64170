-- ===== src/Errors.antt =====
-- Error values (cache/errors.go, errors.go), their wrapping by `fmt.Errorf` with `%w` and by
-- `errors.Join`, and the search of `errors.Is` through it. A run-time panic is an error here too.
use cachefx.Prelude.{String, Bool, true, false, ◌||◌}

-- The sentinels, each an `errors.New` value with an identity of its own.
pub data Sentinel : Type 0 where
  err_invalid_config : Sentinel
  err_key_not_found : Sentinel
  err_key_exists : Sentinel
  err_failed_to_create_zero_value : Sentinel
  err_invalid_factory_config : Sentinel
  redis_nil : Sentinel  -- `redis.Nil` of the client library, for a reply that is null

-- `foreign` is an error that a library returned. A wrapping error keeps its format string, the
-- text argument if it has one, and the error behind `%w`; messages are not rendered.
mutual
  pub data Error : Type 0 where
    sentinel : Sentinel → Error
    foreign : String → Error
    nil_dereference : Error
    index_out_of_range : Error
    wrap : String → Error → Error
    wrap_named : String → String → Error → Error
    joined : Errors → Error

  pub data Errors : Type 0 where
    nil : Errors
    cons : Error → Errors → Errors

pub data Result {ℓ} (A : Type ℓ) : Type ℓ where
  ok : A → Result A
  err : Error → Result A

infixl 5 ◌>>=◌
abbrev pub ◌>>=◌ {ℓ κ} : {A : Type ℓ} {B : Type κ} → Result A → (A → Result B) → Result B
ok a >>= f = f a
err e >>= f = err e

-- What a Go function with a lone `error` result returns.
abbrev pub Status : Type 0
Status = Result (Unit {0})

abbrev pub done : Status
done = ok tt

same_sentinel : Sentinel → Sentinel → Bool
same_sentinel err_invalid_config err_invalid_config = true
same_sentinel err_key_not_found err_key_not_found = true
same_sentinel err_key_exists err_key_exists = true
same_sentinel err_failed_to_create_zero_value err_failed_to_create_zero_value = true
same_sentinel err_invalid_factory_config err_invalid_factory_config = true
same_sentinel redis_nil redis_nil = true
same_sentinel _ _ = false

-- `errors.Is(err, target)` for a sentinel target.
unfoldable mutual
  unfolding same_sentinel

  pub is : Sentinel → Error → Bool
  is target (sentinel s) = same_sentinel s target
  is target (foreign s) = false
  is target nil_dereference = false
  is target index_out_of_range = false
  is target (wrap s e) = is target e
  is target (wrap_named s name e) = is target e
  is target (joined es) = is_any target es

  pub is_any : Sentinel → Errors → Bool
  is_any target nil = false
  is_any target (cons e es) = is target e || is_any target es

abbrev pub result_is {ℓ} : {A : Type ℓ} → Sentinel → Result A → Bool
result_is target (ok a) = false
result_is target (err e) = is target e

abbrev pub succeeds {ℓ} : {A : Type ℓ} → Result A → Bool
succeeds (ok a) = true
succeeds (err e) = false
