-- ===== src/Memory/Refinement.antt =====
-- cache/memory.go implements the reference store: whatever a client calls, in whatever order.
use mathlib.Core.Path.{ap₂}
use cachefx.Prelude.{◌≡◌, refl, ap, ◌∙◌, fun_ext, none, List, [], ◌∷◌}
use cachefx.Errors.{ok}
use cachefx.Dict.{lookup}
use cachefx.Time.{Duration, Clock}
use cachefx.Memory
use cachefx.Memory.{Bytes, World, new_memory}
use cachefx.Memory.Valid.{IsValid, entry}
use cachefx.Memory.Spec.{Store, fresh}
use cachefx.Memory.Refines.{view, Agrees, set-Agrees, set_or_fail-Agrees, delete-Agrees}
use cachefx.Memory.Gets.{get-Agrees, get_and_delete-Agrees}
use cachefx.Memory.Sweep.{cleanup-Agrees, drain_lem, empty-IsValid}
use cachefx.Memory.Commands.{
  Command, Reply, status, bytes, contents, as_function, execute, serve, run, set, set_or_fail, get,
  get_and_delete, delete, cleanup, drain, close,
}

-- A fresh cache is valid.
pub new_memory-IsValid : (ttl : Duration) (c : Clock) → IsValid (new_memory ttl c)
unfolding new_memory
new_memory-IsValid ttl c =
    empty-IsValid (record { items = []; ttl = ttl; heap = λ _. none; next = 0; clock = c })

under :
    {A : Type 0} {x : A × World} {y : A × Store} (f : A → Reply)
    → Agrees x y
    → Agrees (f x.0, x.1) (f y.0, y.1)
under f a = record { reply = ap f a.reply; state = a.state; valid = a.valid }

drain-Agrees : {w : World} → IsValid w → Agrees (execute drain w) (serve drain (view w))
unfolding execute serve
drain-Agrees {w} v =
    let (items, copied, shown, state, valid) = drain_lem v in
    record {
      reply = ap (λ r. contents (as_function r)) copied ∙ ap (λ f. contents (ok f)) (fun_ext shown);
      state = state;
      valid = valid;
    }

-- One call on a valid cache: the reply of the reference store, its entries behind it, and a valid
-- cache again.
pub execute-Agrees : (c : Command) {w : World} → IsValid w → Agrees (execute c w) (serve c (view w))
unfolding execute serve Memory.close
execute-Agrees (set k value opts) v = under status (set-Agrees k value opts v)
execute-Agrees (set_or_fail k value opts) v = under status (set_or_fail-Agrees k value opts v)
execute-Agrees (get k opts) v = under bytes (get-Agrees k opts v)
execute-Agrees (get_and_delete k) v = under bytes (get_and_delete-Agrees k v)
execute-Agrees (delete k) v = under status (delete-Agrees k v)
execute-Agrees cleanup v = under status (cleanup-Agrees v)
execute-Agrees drain v = drain-Agrees v
execute-Agrees close v = record { reply = refl; state = refl; valid = v }

run_from :
    (cs : List Command) {w : World} → IsValid w → Agrees (run execute cs w) (run serve cs (view w))
unfolding run
run_from [] v = record { reply = refl; state = refl; valid = v }
run_from (c ∷ cs) {w} v =
    let a = execute-Agrees c v in
    let rest = run_from cs a.valid in
    record {
      reply = ap₂ ◌∷◌ a.reply (rest.reply ∙ ap (λ s. (run serve cs s).0) a.state);
      state = rest.state ∙ ap (λ s. (run serve cs s).1) a.state;
      valid = rest.valid;
    }

view-new_memory : (ttl : Duration) (c : Clock) → view (new_memory ttl c) ≡ fresh ttl c
unfolding view entry new_memory lookup
view-new_memory ttl c = refl

-- Any list of calls on a fresh cache: every reply is that of the reference store that starts with
-- no entry, the entries behind it are those of that store, and the cache is well formed.
pub run-Agrees :
    (ttl : Duration) (c : Clock) (cs : List Command)
    → Agrees (run execute cs (new_memory ttl c)) (run serve cs (fresh ttl c))
run-Agrees ttl c cs = rw (← view-new_memory ttl c) (run_from cs (new_memory-IsValid ttl c))
