-- ===== src/Memory/Commands.antt =====
-- The method calls of a client of cache/memory.go as data, and what a list of them answers, on the
-- cache and on the reference store.
use cachefx.Prelude.{String, Option, List, [], ◌∷◌}
use cachefx.Errors.{Result, ok, err, Status, done}
use cachefx.Dict.{Dict, lookup}
use cachefx.Options.{SetOption, GetOption}
use cachefx.Memory
use cachefx.Memory.{Bytes, World}
use cachefx.Memory.Spec
use cachefx.Memory.Spec.{Store}

pub data Command : Type 0 where
  set : String → Bytes → List SetOption → Command
  set_or_fail : String → Bytes → List SetOption → Command
  get : String → List GetOption → Command
  get_and_delete : String → Command
  delete : String → Command
  cleanup : Command
  drain : Command
  close : Command

-- The map that `Drain` returns is read as a function.
pub data Reply : Type 0 where
  status : Status → Reply
  bytes : Result Bytes → Reply
  contents : Result (String → Option Bytes) → Reply

abbrev pub as_function : Result (Dict Bytes) → Result (String → Option Bytes)
as_function (ok m) = ok (λ k. lookup k m)
as_function (err e) = err e

abbrev pub status_of {ℓ} : {S : Type ℓ} → Status × S → Reply × S
status_of (r, s) = (status r, s)

abbrev pub bytes_of {ℓ} : {S : Type ℓ} → Result Bytes × S → Reply × S
bytes_of (r, s) = (bytes r, s)

unfoldable pub execute : Command → World → Reply × World
execute (set k value opts) w = status_of (Memory.set k value opts w)
execute (set_or_fail k value opts) w = status_of (Memory.set_or_fail k value opts w)
execute (get k opts) w = bytes_of (Memory.get k opts w)
execute (get_and_delete k) w = bytes_of (Memory.get_and_delete k w)
execute (delete k) w = status_of (Memory.delete k w)
execute cleanup w = status_of (Memory.cleanup w)
execute drain w = let (r, w1) = Memory.drain w in (contents (as_function r), w1)
execute close w = status_of (Memory.close w)

unfoldable pub serve : Command → Store → Reply × Store
serve (set k value opts) s = status_of (Spec.set k value opts s)
serve (set_or_fail k value opts) s = status_of (Spec.set_or_fail k value opts s)
serve (get k opts) s = bytes_of (Spec.get k opts s)
serve (get_and_delete k) s = bytes_of (Spec.get_and_delete k s)
serve (delete k) s = status_of (Spec.delete k s)
serve cleanup s = status_of (Spec.cleanup s)
serve drain s = let (f, s1) = Spec.drain s in (contents (ok f), s1)
serve close s = (status done, s)

module _ {S : Type 0} (step : Command → S → Reply × S) where
  -- the replies to a list of calls, and the state behind them
  unfoldable pub run : List Command → S → List Reply × S
  run [] s = ([], s)
  run (c ∷ cs) s = let (r, s1) = step c s in let (rs, s2) = run cs s1 in (r ∷ rs, s2)
