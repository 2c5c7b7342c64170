-- ===== src/Redis/Lock/Holding.antt =====
-- `SetOrFail` of cache/redis.go on one key from many goroutines: the field stands for the one that has it.
use cachefx.Prelude.{
  ℕ, ◌≤◌, Bytes, String, ◌≡◌, refl, sym, ◌∙◌, subst, true, false, Option, none, some, List, eqb,
  eqb_iff, ℤ, ◌≤ℤ◌, ltb_ℤ, ltb_ℤ→lt, lt→ltb_ℤ, arith, Bool-cases, inl, inr,
}
use mathlib.Core.Option.{some-ne-none}
use cachefx.Dict.{Dict}
use cachefx.Options.{SetOption}
use cachefx.Redis.{Host}
use cachefx.Redis.Documented.{Remote, Field, found, has_ended, live_at, millis, put, ticked}
use cachefx.Redis.Fields.{field}
use cachefx.Redis.Lock.{Pc, idle, taken, holding, failed, holds, Leaves, System, moved}
use cachefx.Time.{Time, IsMonotonic, is_zero, now, unix}

-- the time of the server
abbrev pub time : Remote → ℤ
time s = now s.clock

pub holds_before : (p : Pc) (u v : ℤ) → u ≤ℤ v → holds p v ≡ true → holds p u ≡ true
holds_before idle u v le h = h
holds_before (taken opts) u v le h = refl
holds_before (holding t) u v le h = elim (Bool-cases (is_zero t)) [
  | inl zero ↦ rw zero refl
  | inr ends ↦
      let ahead : ltb_ℤ v (millis (unix t)) ≡ true = rw ends at h in
      rw ends (lt→ltb_ℤ u (millis (unix t)) (omega (arith, ltb_ℤ→lt v (millis (unix t)) ahead, le)))
]
holds_before failed u v le h = h

-- an expiry that the deadline gives, or that has not been set yet
abbrev pub Lasts : Time → Option ℤ → Type 0
Lasts t none = Unit
Lasts t (some e) = (is_zero t ≡ false) × (e ≡ millis (unix t))

-- The field stands for the goroutine.
abbrev pub Held : Pc → Option Field → Type 0
Held p none = ⊥
Held idle (some x) = ⊥
Held (taken opts) (some x) = x.expires ≡ none
Held (holding t) (some x) = Lasts t x.expires
Held failed (some x) = ⊥

lasting_ahead :
    (t : Time) (u : ℤ) (value : Bytes) (o : Option ℤ)
    → holds (holding t) u ≡ true
    → Lasts t o
    → has_ended (record { value = value; expires = o }) u ≡ false
unfolding has_ended
lasting_ahead t u value none h lasts = refl
lasting_ahead t u value (some e) h (ends, same) =
    let ahead : ltb_ℤ u (millis (unix t)) ≡ true = rw ends at h in rw (same, ahead) refl

pub Held-found :
    (p : Pc) (u : ℤ) (o : Option Field)
    → holds p u ≡ true
    → Held p o
    → (x : Field) × (live_at u o ≡ some x)
unfolding has_ended
Held-found idle u o h held = absurd (ground (arith, h))
Held-found (taken opts) u none h held = absurd held
Held-found (taken opts) u (some x) h held = (x, rw held refl)
Held-found (holding t) u none h held = absurd held
Held-found (holding t) u (some x) h held = (x, rw (lasting_ahead t u x.value x.expires h held) refl)
Held-found failed u o h held = absurd (ground (arith, h))

pub taken_field :
    (opts : List SetOption) (o : Option Field)
    → Held (taken opts) o
    → (x : Field) × (o ≡ some x) × (x.expires ≡ none)
taken_field opts none h = absurd h
taken_field opts (some x) h = (x, refl, h)

-- One goroutine at most has the key, and the field stands for it.
pub record IsLocked (key k : String) (s : System) : Type 0 where
  pub monotonic : IsMonotonic s.host.remote.clock
  pub held :
      (i : ℕ)
      → holds (s.pc i) (time s.host.remote) ≡ true
      → Held (s.pc i) (field key s.host.remote k)
  pub alone :
      (i j : ℕ)
      → holds (s.pc i) (time s.host.remote) ≡ true
      → holds (s.pc j) (time s.host.remote) ≡ true
      → i ≡ j

-- The server's clock goes on.
pub record Later (s s' : Remote) : Type 0 where
  pub clock : s'.clock.at ≡ s.clock.at
  pub reads : s.clock.reads ≤ s'.clock.reads

pub later_time : (s s' : Remote) → IsMonotonic s.clock → Later s s' → time s ≤ℤ time s'
later_time s s' m h =
    subst (λ a. time s ≤ℤ a s'.clock.reads) (sym h.clock)
      (m.mono s.clock.reads s'.clock.reads h.reads)

module _ (key k : String) (s : System) (i : ℕ) (h : Host Remote) (p : Pc) where
  abbrev pub next_system : System
  next_system = record { host = h; pc = moved s.pc i p }

  -- A step of a goroutine that has the key behind it only if the field stands for it, and no other one
  -- had the key, and that keeps the field for any other one that had it.
  moved-IsLocked :
      IsMonotonic s.host.remote.clock
      → Later s.host.remote h.remote
      → IsLocked key k s
      → (holds p (time h.remote) ≡ true
          → Held p (field key h.remote k)
            × ((j : ℕ) → holds (s.pc j) (time s.host.remote) ≡ true → i ≡ j))
      → ((j : ℕ)
          → eqb i j ≡ false
          → holds (s.pc j) (time s.host.remote) ≡ true
          → Held (s.pc j) (field key h.remote k))
      → IsLocked key k next_system
  moved-IsLocked m later inv mine theirs =
      let before : (j : ℕ)
          → holds (s.pc j) (time h.remote) ≡ true
          → holds (s.pc j) (time s.host.remote) ≡ true =
        λ j.
          holds_before (s.pc j) (time s.host.remote) (time h.remote)
            (later_time s.host.remote h.remote m later) in
      record {
        monotonic = record {
          mono = λ a b le. subst (λ at. at a ≤ℤ at b) (sym later.clock) (m.mono a b le);
        };
        held = λ j has. elim (Bool-cases (eqb i j)) [
          | inl same ↦ rw same (mine (rw same at has)).0
          | inr not_i ↦ rw not_i (theirs j not_i (before j (rw not_i at has)))
        ];
        alone = λ a b has_a has_b. elim (Bool-cases (eqb i a)) [
          | inl a_moved ↦ elim (Bool-cases (eqb i b)) [
            | inl b_moved ↦ sym ((eqb_iff i a).0 a_moved) ∙ (eqb_iff i b).0 b_moved
            | inr b_other ↦
                sym ((eqb_iff i a).0 a_moved)
                ∙ (mine (rw a_moved at has_a)).1 b (before b (rw b_other at has_b))
          ]
          | inr a_other ↦ elim (Bool-cases (eqb i b)) [
            | inl b_moved ↦
                sym ((mine (rw b_moved at has_b)).1 a (before a (rw a_other at has_a)))
                ∙ (eqb_iff i b).0 b_moved
            | inr b_other ↦
                inv.alone a b (before a (rw a_other at has_a)) (before b (rw b_other at has_b))
          ]
        ];
      }

not_itself : (i j : ℕ) → eqb i j ≡ false → i ≡ j → ⊥
not_itself i j other same = ground (arith, other, (eqb_iff i j).1 same)

module _ (key k : String) (s : System) (i : ℕ) (h : Host Remote) (p : Pc)
    (m : IsMonotonic s.host.remote.clock) (inv : IsLocked key k s) where
  -- a step that leaves the field as it is
  pub Leaves-IsLocked :
      Leaves key k s.host.remote h.remote
      → (holds p (time h.remote) ≡ true
          → (holds (s.pc i) (time s.host.remote) ≡ true) × Held p (field key s.host.remote k))
      → IsLocked key k (next_system key k s i h p)
  Leaves-IsLocked leaves mine =
      moved-IsLocked key k s i h p m (record { clock = leaves.same_clock; reads = leaves.later })
        inv
        (λ has.
          let (had, stands) = mine has in
          (subst (Held p) (sym leaves.same_field) stands, λ j. inv.alone i j had))
        (λ j other had. subst (Held (s.pc j)) (sym leaves.same_field) (inv.held j had))

  -- a step of the one that has the key
  pub owner-IsLocked :
      Later s.host.remote h.remote
      → holds (s.pc i) (time s.host.remote) ≡ true
      → (holds p (time h.remote) ≡ true → Held p (field key h.remote k))
      → IsLocked key k (next_system key k s i h p)
  owner-IsLocked later had mine =
      moved-IsLocked key k s i h p m later inv (λ has. (mine has, λ j. inv.alone i j had))
        (λ j other has. absurd (not_itself i j other (inv.alone i j had has)))

  -- a step of one that takes the key when nobody has it
  pub first-IsLocked :
      Later s.host.remote h.remote
      → found s.host.remote key k ≡ none
      → (holds p (time h.remote) ≡ true → Held p (field key h.remote k))
      → IsLocked key k (next_system key k s i h p)
  first-IsLocked later absent mine =
      let nobody : (j : ℕ) → holds (s.pc j) (time s.host.remote) ≡ true → ⊥ = λ j had.
        let (x, there) =
          Held-found (s.pc j) (time s.host.remote) (field key s.host.remote k) had
            (inv.held j had) in
        some-ne-none x (sym there ∙ absent) in
      moved-IsLocked key k s i h p m later inv (λ has. (mine has, λ j had. absurd (nobody j had)))
        (λ j other had. absurd (nobody j had))

pub ticked-Leaves : (key k : String) (s : Remote) → Leaves key k s (ticked s)
ticked-Leaves key k s = record { same_field = refl; same_clock = refl; later = omega arith }

pub put-Later : (key : String) (d : Dict Field) (s : Remote) → Later s (put key d s)
put-Later key d s = record { clock = refl; reads = omega arith }
