-- ===== src/Time.antt =====
-- What the cache uses of Go's package `time`. A `Time` is the number of nanoseconds since the zero
-- `Time`, a `Duration` a number of nanoseconds; the location and the saturation of `Time.Add`
-- beyond 2^63 seconds are left out. The readings of `time.Now` are a sequence given from outside.
use cachefx.Prelude.{
  ℕ, suc, ◌+◌, ◌*◌, pos_part, neg_part, +ℤ_parts, ◌/◌, negsuc, ◌≤◌, ◌≡◌, Bool, true, arith, ℤ, pos,
  ◌+ℤ◌, ◌≤ℤ◌, ltb_ℤ, is_zero_ℤ, ltb_ℤ→lt, lt→ltb_ℤ,
}

abbrev pub Time : Type 0
Time = ℤ

abbrev pub Duration : Type 0
Duration = ℤ

-- `time.Time{}`
abbrev pub zero_time : Time
zero_time = pos 0

-- `t.IsZero()`
abbrev pub is_zero : Time → Bool
is_zero t = is_zero_ℤ t

-- `t.After(u)`
abbrev pub after : Time → Time → Bool
after t u = ltb_ℤ u t

-- `t.Add(d)`
abbrev pub add : Time → Duration → Time
add t d = t +ℤ d

-- `d > 0`
abbrev pub is_positive : Duration → Bool
is_positive d = ltb_ℤ (pos 0) d

-- `d < 0`
abbrev pub is_negative : Duration → Bool
is_negative d = ltb_ℤ d (pos 0)

-- the seconds of a count of nanoseconds, rounded down
abbrev floor_seconds : ℤ → ℤ
floor_seconds (pos n) = pos (n / 1_000_000_000)
floor_seconds (negsuc n) = negsuc (n / 1_000_000_000)

-- `t.Unix()`: the zero `Time` lies 62135596800 seconds before the epoch of Unix.
unfoldable pub unix : Time → ℤ
unix t = floor_seconds t +ℤ negsuc 62_135_596_799

-- `unix` rounds down to a whole second, written without signs.
pub unix_bounds :
    (t : Time)
    → (pos_part (unix t) * 1_000_000_000 + 62_135_596_800_000_000_000 + neg_part t
        ≤ pos_part t + neg_part (unix t) * 1_000_000_000)
      × (suc (pos_part t + neg_part (unix t) * 1_000_000_000)
          ≤ pos_part (unix t) * 1_000_000_000 + 62_135_596_801_000_000_000 + neg_part t)
unfolding unix
unix_bounds (pos n) =
    let parts = +ℤ_parts (floor_seconds (pos n)) (negsuc 62_135_596_799) in
    (omega (arith, parts), omega (arith, parts))
unix_bounds (negsuc n) =
    let parts = +ℤ_parts (floor_seconds (negsuc n)) (negsuc 62_135_596_799) in
    (omega (arith, parts), omega (arith, parts))

-- The readings of the clock, in the order in which the program makes them.
pub record Clock : Type 0 where
  pub at : ℕ → Time
  pub reads : ℕ

-- `time.Now()`
abbrev pub now : Clock → Time
now c = c.at c.reads

-- the clock behind a reading
abbrev pub tick : Clock → Clock
tick c = record c { reads = c.reads + 1 }

-- Go's monotonic clock: no reading is earlier than one before it.
pub record IsMonotonic (c : Clock) : Type 0 where
  pub mono : (i j : ℕ) → i ≤ j → c.at i ≤ℤ c.at j

-- What a later reading says of a deadline that has passed.
pub after_later :
    (c : Clock) (i j : ℕ) (u : Time)
    → IsMonotonic c
    → i ≤ j
    → after (c.at i) u ≡ true
    → after (c.at j) u ≡ true
after_later c i j u m h e = lt→ltb_ℤ u (c.at j) (omega (arith, ltb_ℤ→lt u (c.at i) e, m.mono i j h))
