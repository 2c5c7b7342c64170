-- ===== src/Memory/Expiry.antt =====
-- How long an entry of cache/memory.go lives, by the TTL that it was set with.
use cachefx.Prelude.{
  String, ◌≡◌, refl, ap, ◌∙◌, Bool, true, false, not, ◌&&◌, List, [], ◌∷◌, ◌++◌, arith,
  if◌then◌else◌, Bool-cases, inl, inr, pos, ◌+ℤ◌, ◌<ℤ◌, ltb_ℤ, is_zero_ℤ,
}
use cachefx.Errors.{ok}
use cachefx.Options.{SetOption, with_ttl, ttl_deadline, apply}
use cachefx.Options.Last.{apply-last}
use cachefx.Time.{Time, Duration, Clock, add, after, is_negative, is_zero, now}
use cachefx.Memory
use cachefx.Memory.{Bytes, MemoryItem, World, default_options}
use cachefx.Memory.Valid.{IsValid}
use cachefx.Memory.Spec.{has_passed}
use cachefx.Memory.Spec.Answers.{not_found}
use cachefx.Memory.Reads.{made, get-set_self}

-- the clock at which the last option of a Set is applied
abbrev pub last_clock : List SetOption → World → Clock
last_clock opts w = let (base, c) = default_options w.ttl w.clock in (apply opts base c).1

made-deadline :
    (value : Bytes) (opts : List SetOption) (d : Duration) (w : World)
    → (made value (opts ++ with_ttl d ∷ []) w).valid_until ≡ (ttl_deadline d (last_clock opts w)).0
made-deadline value opts d w =
    let (base, c) = default_options w.ttl w.clock in apply-last opts (with_ttl d) base c

-- Whether an entry that was set at `t` with the TTL `d` has expired at `t'`: never for a TTL of
-- zero, after `t` for a negative one, and after `t + d` otherwise.
abbrev pub expired_by : Duration → Time → Time → Bool
expired_by d t t' =
    if is_zero_ℤ d then false else if is_negative d then after t' t else after t' (add t d)

zero_is_zero : is_zero (pos 0) ≡ true
unfolding is_zero_ℤ
zero_is_zero = refl

module _ (d : Duration) (t : Time) (h : pos 0 <ℤ t) where
  start_not_zero : is_zero t ≡ false
  unfolding is_zero_ℤ
  start_not_zero = ground arith

  end_not_zero : is_zero_ℤ d ≡ false → is_negative d ≡ false → is_zero (add t d) ≡ false
  unfolding is_zero_ℤ ltb_ℤ ◌+ℤ◌
  end_not_zero z n = ground arith

passed_by :
    (i : MemoryItem) (u t : Time)
    → i.valid_until ≡ u
    → has_passed i t ≡ (not (is_zero u) && after t u)
unfolding has_passed
passed_by i u t e = rw e

ttl_deadline_passed :
    (d : Duration) (c : Clock) (i : MemoryItem) (t : Time)
    → pos 0 <ℤ now c
    → i.valid_until ≡ (ttl_deadline d c).0
    → has_passed i t ≡ expired_by d (now c) t
unfolding ttl_deadline
ttl_deadline_passed d c i t h e = elim (Bool-cases (is_zero_ℤ d)) [
  | inl z ↦ passed_by i (pos 0) t (rw (z, ttl_deadline) at e) ∙ rw (z, zero_is_zero)
  | inr z ↦ elim (Bool-cases (is_negative d)) [
    | inl n ↦
        passed_by i (now c) t (rw (z, n, ttl_deadline) at e) ∙ rw (z, n, start_not_zero d (now c) h)
    | inr n ↦
        passed_by i (add (now c) d) t (rw (z, n, ttl_deadline) at e)
        ∙ rw (z, n, end_not_zero d (now c) h z n)
  ]
]

-- A Get right after a Set whose last option is `WithTTL(d)` finds the value exactly while the TTL,
-- counted from the reading that the option made, has not run out at the reading of the Get.
pub get-set_ttl :
    (k : String) (value : Bytes) (opts : List SetOption) (d : Duration) {w : World}
    → IsValid w
    → pos 0 <ℤ now (last_clock opts w)
    → (Memory.get k [] (Memory.set k value (opts ++ with_ttl d ∷ []) w).1).0 ≡ (
        if expired_by d
          (now (last_clock opts w))
          (now (Memory.set k value (opts ++ with_ttl d ∷ []) w).1.clock)
        then not_found
        else ok value)
get-set_ttl k value opts d {w} v h =
    get-set_self k value (opts ++ with_ttl d ∷ []) v
    ∙ ap (λ b. if b then not_found else ok value)
        (ttl_deadline_passed d (last_clock opts w) (made value (opts ++ with_ttl d ∷ []) w)
          (now (Memory.set k value (opts ++ with_ttl d ∷ []) w).1.clock) h
          (made-deadline value opts d w))

-- An entry whose last option is `WithTTL(0)` never expires: a Get right after the Set finds it.
pub get-set_forever :
    (k : String) (value : Bytes) (opts : List SetOption) {w : World}
    → IsValid w
    → (Memory.get k [] (Memory.set k value (opts ++ with_ttl (pos 0) ∷ []) w).1).0 ≡ ok value
unfolding ttl_deadline is_zero_ℤ
get-set_forever k value opts {w} v =
    get-set_self k value (opts ++ with_ttl (pos 0) ∷ []) v
    ∙ ap (λ b. if b then not_found else ok value)
        (passed_by (made value (opts ++ with_ttl (pos 0) ∷ []) w) (pos 0)
          (now (Memory.set k value (opts ++ with_ttl (pos 0) ∷ []) w).1.clock)
          (made-deadline value opts (pos 0) w))
