-- ===== src/Redis/Calls.antt =====
-- What cache/redis.go and its Lua scripts call: the commands of a Redis server and the methods of a
-- go-redis client, on a state of the server that they thread. Both are arguments of the model.
use cachefx.Prelude.{Bytes, String, Bool, Option, List, ℤ}
use cachefx.Errors.{Result, ok, err}
use cachefx.Time.{Time}

-- A computation on a state that may fail; what it did before it failed stays done.
abbrev pub M : Type 0 → Type 0 → Type 0
M S A = S → Result A × S

infixl 5 ◌>>=◌ ◌>>◌
abbrev pub ◌>>=◌ : {S A B : Type 0} → M S A → (A → M S B) → M S B
◌>>=◌ m f s = elim ((m s).0) [ ok a ↦ f a (m s).1 | err e ↦ (err e, (m s).1) ]

abbrev pub ◌>>◌ : {S A B : Type 0} → M S A → M S B → M S B
m >> k = m >>= λ _. k

abbrev pub pure : {S A : Type 0} → A → M S A
pure a s = (ok a, s)

-- A reply as the client library hands it out: an item or an array of items. A Go string is text where
-- it names a field and bytes where it is a value.
pub data Item : Type 0 where
  null : Item
  text : String → Item
  payload : Bytes → Item
  integer : ℤ → Item

pub data Value : Type 0 where
  one : Item → Value
  array : List Item → Value

-- The commands that the scripts give by `redis.call`; one that raises an error answers it. A null
-- reply is `none`. Times are seconds.
pub record Server (S : Type 0) : Type 0 where
  pub h_get : String → String → M S (Option Bytes)
  pub h_del : String → String → M S ℤ
  pub h_get_all : String → M S (List Item)
  pub h_expire_at : String → ℤ → String → M S (List ℤ)
  pub h_expire : String → ℤ → String → M S (List ℤ)
  pub h_ttl : String → String → M S (List ℤ)
  pub unlink : String → M S ℤ
  pub del : String → M S ℤ

-- what a pipeline queues
pub data Command : Type 0 where
  h_set : String → String → Bytes → Command
  h_expire_at : String → Time → String → Command

-- The methods of the client, up to their `Result` or `Err`; `eval` runs a script on the server.
pub record Client (S : Type 0) : Type 0 where
  pub server : Server S
  pub h_get : String → String → M S Bytes
  pub h_del : String → String → M S ℤ
  pub h_set_nx : String → String → Bytes → M S Bool
  pub h_expire_at : String → Time → String → M S (List ℤ)
  pub pipelined : List Command → M S (Unit {0})
  pub eval : M S Value → M S Value
  pub close : M S (Unit {0})
