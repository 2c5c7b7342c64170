-- ===== src/Memory/Race/Survival.antt =====
-- cache/memory.go under concurrent callers that only read and clean: no live entry is lost.
use cachefx.Prelude.{
  ℕ, String, ◌≡◌, refl, ap, sym, ◌∙◌, Bool, true, false, some, eqb, Bool-cases, Option-cases, inl,
  inr,
}
use cachefx.Dict.{lookup}
use cachefx.Time.{IsMonotonic, now}
use cachefx.Memory.{MemoryItem, World, is_expired}
use cachefx.Memory.Valid.{IsValid, entry, follow}
use cachefx.Memory.Race.{Pc, Move, System, start, moved}
use mathlib.Core.Option.{some-ne-none}
use cachefx.Memory.Spec.{has_passed}
use cachefx.Memory.Refines.{is_expired-has_passed}
use cachefx.Memory.Race.Safety.{Move-Writes}
use cachefx.Memory.Writes.{Writes-IsValid}
use cachefx.Memory.Race.Calm.{
  CalmSteps, calm_here, calm_next, is_calm, Judged, Goes, Spares, Judged-later, Move-Calm,
  same-Goes, Goes-trans, Spares-trans, Goes-IsMonotonic,
}

-- What holds of a system after such steps from a world.
record IsCalm (w : World) (s : System) : Type 0 where
  valid : IsValid s.world
  goes : Goes w s.world
  spares : Spares w s.world
  judged : (i : ℕ) → Judged s.world (s.pc i) (now s.world.clock)

step-IsCalm :
    {w u : World} {t : System} {l : Bool} {q : Pc} (i : ℕ)
    (move : Move t.world t.locked (t.pc i) u l q)
    → is_calm move ≡ true
    → IsMonotonic w.clock
    → IsCalm w t
    → IsCalm w (record { world = u; locked = l; pc = moved t.pc i q })
step-IsCalm {u = u} {t} {q = q} i move calm m inv =
    let c = Move-Calm move calm inv.valid (Goes-IsMonotonic inv.goes m) (inv.judged i) in
    record {
      valid = Writes-IsValid (Move-Writes move) inv.valid;
      goes = Goes-trans inv.goes c.goes;
      spares = Spares-trans inv.goes c.goes inv.spares c.spares;
      judged = λ j. elim (Bool-cases (eqb i j)) [
        | inl same ↦ rw same c.judged
        | inr other ↦ rw other (Judged-later (t.pc j) c.goes (inv.judged j))
      ];
    }

CalmSteps-IsCalm :
    {w : World} {s : System} → IsValid w → IsMonotonic w.clock → CalmSteps (start w) s → IsCalm w s
CalmSteps-IsCalm {w} v m calm_here = record {
  valid = v;
  goes = same-Goes w w refl refl;
  spares = λ k p there live. there;
  judged = λ i. tt;
}
CalmSteps-IsCalm v m (calm_next i steps move calm) =
    step-IsCalm i move calm m (CalmSteps-IsCalm v m steps)

-- However Gets with no options and Cleanups of any goroutines interleave: an entry whose deadline has not
-- passed by the last reading of the clock is still in the cache, with its value and its deadline.
pub live_survives :
    {w : World} {s : System} (k : String) (i : MemoryItem)
    → IsValid w
    → IsMonotonic w.clock
    → CalmSteps (start w) s
    → entry w k ≡ some i
    → has_passed i (now s.world.clock) ≡ false
    → entry s.world k ≡ some i
unfolding entry
live_survives {w} {s} k i v m steps there live = elim (Option-cases (lookup k w.items)) [
  | inl e ↦ absurd (some-ne-none i (sym there ∙ ap (follow w.heap) e))
  | inr (p, e) ↦
      let inv = CalmSteps-IsCalm v m steps in
      let found : w.heap p ≡ some i = ap (follow w.heap) (sym e) ∙ there in
      let fresh : is_expired (w.heap p) (now s.world.clock) ≡ false =
        ap (λ o. is_expired o (now s.world.clock)) found
        ∙ is_expired-has_passed i (now s.world.clock)
        ∙ live in
      ap (follow s.world.heap) (inv.spares k p e fresh) ∙ ap (λ heap. heap p) inv.goes.heap ∙ found
]
