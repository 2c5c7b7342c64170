-- ===== src/Redis/Lock/Exclusive.antt =====
-- `SetOrFail` of cache/redis.go on one key from many goroutines: one of them has it.
use cachefx.Prelude.{
  ℕ, pos, [], ◌∷◌, Bytes, String, ◌≡◌, refl, ap, sym, ◌∙◌, subst, Bool, true, false, none, some,
  List, ℤ, ◌≤ℤ◌, ltb_ℤ, arith, Bool-cases, Option-cases, inl, inr, eq_refl,
}
use cachefx.Dict.{Dict, insert, erase, lookup-insert}
use cachefx.Errors.{Result, ok, err, Status}
use cachefx.Options.{SetOption}
use cachefx.Redis.{RedisCache, Host, added, expire_at, item_options, or_fail, on_server}
use cachefx.Redis.Calls.{M, ◌>>◌, pure}
use cachefx.Redis.Documented.{
  Remote, Latitude, Field, documented_client, add_field, expire_field, found, has_ended, live_at,
  millis, out_of_range, put, ticked,
}
use cachefx.Redis.Fields.{field}
use cachefx.Redis.Lock.{
  Pc, taken, holding, failed, tried, finished, holds, System, moved, first_command, Move, try,
  expire, elsewhere, Step, pick, Steps, here, next, start,
}
use cachefx.Redis.Methods.{documented}
use cachefx.Time.{Time, Duration, Clock, IsMonotonic, is_zero, now, unix}
use cachefx.Redis.Lock.Holding.{
  time, Lasts, Held, holds_before, Held-found, taken_field, later_time, Leaves-IsLocked,
  owner-IsLocked, first-IsLocked, ticked-Leaves, put-Later, IsLocked,
}

field-put :
    (key k : String) (x : Field) (d : Dict Field) (s : Remote)
    → field key (put key (insert k x d) s) k ≡ some x
field-put key k x d s = rw eq_refl (lookup-insert k k x d ∙ rw eq_refl refl)

not_past :
    (t : Time) (u v : ℤ)
    → u ≤ℤ v
    → is_zero t ≡ false
    → ltb_ℤ u (millis (unix t)) ≡ false
    → holds (holding t) v ≡ true
    → ⊥
not_past t u v le ends passed has =
    let ahead : ltb_ℤ u (millis (unix t)) ≡ true =
      rw ends at (holds_before (holding t) u v le has) in
    ground (arith, passed, ahead)

module _ (seconds : Duration → ℤ) (l : Latitude) (r : RedisCache Remote) (k : String) where
  abbrev Locked : System → Type 0
  Locked s = IsLocked r.key k s

  try-IsLocked :
      (s : System) (i : ℕ) (value : Bytes) (opts : List SetOption)
      → IsMonotonic s.host.remote.clock
      → Locked s
      → Locked (record {
        host = (first_command seconds l r k value s.host).1;
        pc = moved s.pc i (tried opts (first_command seconds l r k value s.host).0);
      })
  unfolding add_field
  try-IsLocked s i value opts m inv =
      let remote = s.host.remote in
      let behind : Result Bool × Remote → System = λ (y : Result Bool × Remote). record {
        host = record { clock = s.host.clock; remote = y.1 };
        pc = moved s.pc i (tried opts y.0);
      } in
      elim (Option-cases (found remote r.key k)) [
        | inr (x, there) ↦
            let refused : add_field l r.key k value remote ≡ (ok false, ticked remote) =
              rw (there, add_field) refl in
            subst (λ y. Locked (behind y)) (sym refused)
              (Leaves-IsLocked r.key k s i (record { clock = s.host.clock; remote = ticked remote })
                failed m inv (ticked-Leaves r.key k remote) (λ has. absurd (ground (arith, has))))
        | inl absent ↦
            let plain : Field = record { value = value; expires = none } in
            let d = insert k plain (remote.hashes r.key) in
            let added : add_field l r.key k value remote ≡ (ok true, put r.key d remote) =
              rw (absent, add_field) refl in
            subst (λ y. Locked (behind y)) (sym added)
              (first-IsLocked r.key k s i
                (record { clock = s.host.clock; remote = put r.key d remote }) (taken opts) m inv
                (put-Later r.key d remote) absent
                (λ has.
                  subst (Held (taken opts))
                    (sym (field-put r.key k plain (remote.hashes r.key) remote)) refl))
      ]

  -- `expire_at` behind the answer of its HEXPIREAT
  abbrev behind_expire : Time → Clock → Result (List ℤ) × Remote → Status × Host Remote
  behind_expire t c y =
      or_fail "failed to set cache item ttl: %w" (on_server (λ _. y) >> pure tt)
        (record { clock = c; remote = y.1 })

  abbrev behind_SetOrFail : System → ℕ → Time → Status × Host Remote → System
  behind_SetOrFail s i t y = record { host = y.1; pc = moved s.pc i (finished t y.0) }

  module _ (s : System) (i : ℕ) (t : Time) (c : Clock) (m : IsMonotonic s.host.remote.clock)
      (inv : Locked s) (had : holds (s.pc i) (time s.host.remote) ≡ true) (x : Field)
      (there : field r.key s.host.remote k ≡ some x) (fresh : x.expires ≡ none) where
    abbrev remote : Remote
    remote = s.host.remote

    abbrev behind : Result (List ℤ) × Remote → System
    behind y = behind_SetOrFail s i t (behind_expire t c y)

    abbrev client_expire : M Remote (List ℤ)
    client_expire = (documented_client l).h_expire_at r.key t k

    found_fresh : found remote r.key k ≡ some x
    unfolding has_ended
    found_fresh = ap (live_at (time remote)) there ∙ rw fresh refl

    expire_field-IsLocked :
        is_zero t ≡ false → Locked (behind (expire_field l r.key (millis (unix t)) k remote))
    unfolding expire_field
    expire_field-IsLocked ends =
        let e = millis (unix t) in
        let ending : Field = record x { expires = some e } in
        elim (Bool-cases (ltb_ℤ (time remote) e)) [
          | inl ahead ↦
              let d = insert k ending (remote.hashes r.key) in
              let eq : expire_field l r.key e k remote ≡ (ok (pos 1 ∷ []), put r.key d remote) =
                rw (found_fresh, ahead, expire_field) refl in
              subst (λ y. Locked (behind y)) (sym eq)
                (owner-IsLocked r.key k s i (record { clock = c; remote = put r.key d remote })
                  (holding t) m inv (put-Later r.key d remote) had
                  (λ has.
                    subst (Held (holding t))
                      (sym (field-put r.key k ending (remote.hashes r.key) remote)) (ends, refl)))
          | inr passed ↦
              let d = erase k (remote.hashes r.key) in
              let eq : expire_field l r.key e k remote ≡ (ok (pos 2 ∷ []), put r.key d remote) =
                rw (found_fresh, passed, expire_field) refl in
              subst (λ y. Locked (behind y)) (sym eq)
                (owner-IsLocked r.key k s i (record { clock = c; remote = put r.key d remote })
                  (holding t) m inv (put-Later r.key d remote) had
                  (λ has. absurd (
                    not_past t (time remote) (time (put r.key d remote))
                      (later_time remote (put r.key d remote) m (put-Later r.key d remote)) ends
                      passed has)))
        ]

    expire_at-IsLocked : Locked (
        behind_SetOrFail s i t
          (expire_at seconds (documented l r) k t (record { clock = c; remote = remote })))
    unfolding expire_at
    expire_at-IsLocked = elim (Bool-cases (is_zero t)) [
      | inl zero ↦
          rw (zero, expire_at)
            (owner-IsLocked r.key k s i (record { clock = c; remote = remote }) (holding t) m inv
              (record { clock = refl; reads = omega arith }) had
              (λ has. subst (Held (holding t)) (sym there) (subst (Lasts t) (sym fresh) tt)))
      | inr ends ↦
          rw (ends, expire_at)
            (elim (Bool-cases (l.in_range (unix t))) [
              | inl valid ↦
                  let eq : client_expire remote ≡ expire_field l r.key (millis (unix t)) k remote =
                    rw valid refl in
                  subst (λ y. Locked (behind y)) (sym eq) (expire_field-IsLocked ends)
              | inr refused ↦
                  let eq : client_expire remote ≡ (err out_of_range, ticked remote) =
                    rw refused refl in
                  subst (λ y. Locked (behind y)) (sym eq)
                    (Leaves-IsLocked r.key k s i (record { clock = c; remote = ticked remote })
                      failed m inv (ticked-Leaves r.key k remote)
                      (λ has. absurd (ground (arith, has))))
            ])
    ]

  move-IsLocked :
      (s : System) (i : ℕ) {q : Pc} {h : Host Remote} {p : Pc}
      → s.pc i ≡ q
      → Move seconds l r k s.host q h p
      → Locked s
      → Locked (record { host = h; pc = moved s.pc i p })
  unfolding added
  move-IsLocked s i at (try value opts) inv = try-IsLocked s i value opts inv.monotonic inv
  move-IsLocked s i at (expire opts) inv =
      let had : holds (s.pc i) (time s.host.remote) ≡ true = rw at refl in
      let (x, there, fresh) =
        taken_field opts (field r.key s.host.remote k)
          (subst (λ q. Held q (field r.key s.host.remote k)) at (inv.held i had)) in
      let (o, c) = item_options r.ttl opts s.host.clock in
      expire_at-IsLocked s i o.valid_until c inv.monotonic inv had x there fresh
  move-IsLocked s i at (elsewhere q h leaves) inv =
      Leaves-IsLocked r.key k s i h q inv.monotonic inv leaves (λ has.
        let had : holds (s.pc i) (time s.host.remote) ≡ true = rw at (
          holds_before q (time s.host.remote) (time h.remote)
            (later_time s.host.remote h.remote inv.monotonic
              (record { clock = leaves.same_clock; reads = leaves.later }))
            has) in
        (had, subst (λ q. Held q (field r.key s.host.remote k)) at (inv.held i had)))

  start-IsLocked : (h : Host Remote) → IsMonotonic h.remote.clock → Locked (start h)
  start-IsLocked h m = record {
    monotonic = m;
    held = λ i has. absurd (ground (arith, has));
    alone = λ i j has_i has_j. absurd (ground (arith, has_i));
  }

  Step-IsLocked : {s t : System} → Step seconds l r k s t → Locked s → Locked t
  Step-IsLocked {s} (pick i move) inv = move-IsLocked s i refl move inv

  Steps-IsLocked : {s t : System} → Steps seconds l r k s t → Locked s → Locked t
  Steps-IsLocked here inv = inv
  Steps-IsLocked (next steps step) inv = Step-IsLocked step (Steps-IsLocked steps inv)

  -- However goroutines interleave their SetOrFail calls on a key with any other calls that do not write
  -- it: two that both have the key by their own deadlines are one, and while it has the key the server
  -- shows a live field. A goroutine has the key from the HSETNX that sets the field until its
  -- deadline, for ever if there is none, or until SetOrFail answers it an error.
  pub set_or_fail_excludes :
      (i j : ℕ) {h : Host Remote} {s : System}
      → IsMonotonic h.remote.clock
      → Steps seconds l r k (start h) s
      → holds (s.pc i) (now s.host.remote.clock) ≡ true
      → holds (s.pc j) (now s.host.remote.clock) ≡ true
      → (i ≡ j) × ((x : Field) × (found s.host.remote r.key k ≡ some x))
  set_or_fail_excludes i j {h} {s} m steps has_i has_j =
      let inv = Steps-IsLocked steps (start-IsLocked h m) in
      (
        inv.alone i j has_i has_j,
        Held-found (s.pc i) (time s.host.remote) (field r.key s.host.remote k) has_i
            (inv.held i has_i),
      )
