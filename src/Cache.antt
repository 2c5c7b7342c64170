-- ===== src/Cache.antt =====
-- cache/cache.go: the interface `Cache`, as the operations of one cache on a state that all share.
-- The context of a call is not modelled: the in-memory cache ignores it.
pub mod Laws
pub mod Plain
pub mod Issue
use cachefx.Prelude.{Bytes, String, List}
use cachefx.Errors.{Result, Status}
use cachefx.Dict.{Dict}
use cachefx.Options.{SetOption, GetOption}

pub record Cache (S : Type 0) : Type 0 where
  pub set : String → Bytes → List SetOption → S → Status × S
  pub set_or_fail : String → Bytes → List SetOption → S → Status × S
  pub get : String → List GetOption → S → Result Bytes × S
  pub get_and_delete : String → S → Result Bytes × S
  pub delete : String → S → Status × S
  pub cleanup : S → Status × S
  pub drain : S → Result (Dict Bytes) × S
  pub close : S → Status × S
