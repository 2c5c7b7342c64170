-- ===== src/Memory/Race/Refreshed.antt =====
-- A schedule of two callers of `Get` in cache/memory.go under which a refreshed entry is lost: the
-- removal looks at the pointer, and a refresh writes through it.
use mathlib.Core.Path.{subst}
use cachefx.Prelude.{ℕ, String, ◌≡◌, refl, true, false, none, some, [], ◌∷◌, eqb_iff, eq_refl}
use cachefx.Dict.{lookup, lookup-erase}
use cachefx.Errors.{ok}
use cachefx.Options.{GetOptions, and_set_ttl, apply_get, no_get_options}
use cachefx.Time.{Time, Duration, add, now, tick}
use cachefx.Memory.{MemoryItem, World, deref, examine, evict, write_deadline}
use cachefx.Memory.Valid.{IsValid, entry, drop, at_clock}
use cachefx.Memory.Spec.{has_passed}
use cachefx.Memory.Spec.Answers.{not_found}
use cachefx.Memory.Refines.{is_expired-has_passed, entry_missing}
use cachefx.Memory.Race.{
  Move, System, Step, Steps, start, read, lock, unlock, hit, expired, remove, pick, here, next,
  idle, examining, fetched, stale, answered,
}

abbrev touching : Duration → GetOptions
touching d = record no_get_options { set_ttl = some d }

apply_get-touching : (d : Duration) → apply_get (and_set_ttl d ∷ []) no_get_options ≡ touching d
unfolding apply_get
apply_get-touching d = refl

module _ (k : String) (p : ℕ) (i : MemoryItem) (d : Duration) where
  -- the critical section of a Get with AndSetTTL(d) that finds the entry live
  touch_move :
      (t : Time) (u : World)
      → lookup k u.items ≡ some p
      → u.heap p ≡ some i
      → has_passed i t ≡ false
      → Move u true
          (examining (touching d) k t)
          (write_deadline (λ _. add t d) p u)
          false
          (fetched k (some p))
  unfolding examine
  touch_move t u e found live =
      let result : examine (touching d) k t u ≡ (some p, write_deadline (λ _. add t d) p u) =
        rw (e, found, is_expired-has_passed, live, examine) in
      subst (λ x. Move u true (examining (touching d) k t) x.1 false (fetched k x.0)) result
        (unlock (touching d) k t)

  -- the removal of an item that the map still leads to
  remove_move :
      (u : World)
      → lookup k u.items ≡ some p
      → Move u false (stale k p) (drop k u) false (answered not_found)
  unfolding evict
  remove_move u e =
      let result : evict k p u ≡ drop k u = rw (e, (eqb_iff p p).1 refl, evict) in
      subst (λ x. Move u false (stale k p) x false (answered not_found)) result (remove k p)

  lock_move :
      (u : World)
      → Move u false idle (at_clock (tick u.clock) u) true (examining (touching d) k (now u.clock))
  lock_move u =
      subst (λ o. Move u false idle (at_clock (tick u.clock) u) true (examining o k (now u.clock)))
        (apply_get-touching d) (lock k (and_set_ttl d) [])

  read_move :
      (u : World) → lookup k u.items ≡ some p → Move u false idle u false (fetched k (some p))
  read_move u e = subst (λ x. Move u false idle u false (fetched k x)) e (read k)

  -- the entry as the Get with AndSetTTL(d) at time `t` leaves it
  abbrev pub refreshed : Time → MemoryItem
  refreshed t = record i { valid_until = add t d }

  -- The caller 0 of a Get is about to remove the item, which the caller 1 of a Get has refreshed at `t`:
  -- the entry has the new deadline, and that has not passed.
  pub record IsRefreshed (t : Time) (s : System) : Type 0 where
    pub removing : s.pc 0 ≡ stale k p
    pub shows : entry s.world k ≡ some (refreshed t)
    pub current : has_passed (refreshed t) (now s.world.clock) ≡ false

  -- The removal has taken the entry, with no reading of the clock.
  pub record IsLost (s u : System) : Type 0 where
    pub removed : u.pc 0 ≡ answered not_found
    pub same_clock : u.world.clock ≡ s.world.clock
    pub gone : entry u.world k ≡ none

  -- Let an entry be live at one reading of the clock and expired at the next. One caller reads the
  -- item, another begins a Get with AndSetTTL(d) at the first reading, the first caller finds the item
  -- expired at the second, and the other refreshes it: the entry then has the deadline of the AndSetTTL,
  -- which has not passed. The next step, the removal by the first caller, takes that entry away, and
  -- the second caller is told the value all the same.
  pub refreshed_is_removed :
      {w : World}
      → IsValid w
      → lookup k w.items ≡ some p
      → w.heap p ≡ some i
      → has_passed i (now w.clock) ≡ false
      → has_passed i (now (tick w.clock)) ≡ true
      → has_passed (refreshed (now w.clock)) (now (tick (tick w.clock))) ≡ false
      → (s : System) × Steps (start w) s
        × IsRefreshed (now w.clock) s
        × ((t : System) × Step s t
            × IsLost s t
            × ((u : System) × Step t u × (u.pc 1 ≡ answered (ok i.value))))
  unfolding write_deadline deref entry
  refreshed_is_removed {w} v e found live late fresh =
      let w1 = at_clock (tick w.clock) w in
      let w2 = at_clock (tick w1.clock) w1 in
      let w3 = write_deadline (λ _. add (now w.clock) d) p w2 in
      let w4 = drop k w3 in
      let touched : w3.heap p ≡ some (refreshed (now w.clock)) = rw ((eqb_iff p p).1 refl, found) in
      (
        _,
        next
            (next (next (next here (pick 0 (read_move w e))) (pick 1 (lock_move w)))
              (pick 0 (expired true k p (rw (found, is_expired-has_passed) late))))
            (pick 1 (touch_move (now w.clock) w2 e found live)),
        record { removing = refl; shows = rw e touched; current = fresh },
        (
          _,
          pick 0 (remove_move w3 e),
          record {
            removed = refl;
            same_clock = refl;
            gone = entry_missing w4 k (rw (lookup-erase k k w.items v.unique, eq_refl));
          },
          (
            _,
            pick 1 (hit false k p (rw (touched, is_expired-has_passed) fresh)),
            rw (touched, deref),
          ),
        ),
      )
