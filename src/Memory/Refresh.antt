-- ===== src/Memory/Refresh.antt =====
-- `Get` of cache/memory.go with options, on an entry that is live: the deadline that it writes.
use cachefx.Prelude.{
  String, ◌≡◌, refl, ap, ◌∙◌, Bool, true, false, Option, none, some, List, ◌∷◌, ◌==◌, if◌then◌else◌,
  Bool-cases, inl, inr,
}
use cachefx.Errors.{Result, ok}
use cachefx.Options.{GetOption, GetOptions, apply_get, no_get_options}
use cachefx.Options.Last.{
  latest, some_option, asked_valid_until, asked_set_ttl, asked_update_ttl, is_default_ttl,
  is_delete, apply_get-latest,
}
use cachefx.Time.{Time, Duration, zero_time, is_zero, is_positive, add, now, tick}
use cachefx.Memory
use cachefx.Memory.{Bytes, MemoryItem, World, refresh}
use cachefx.Memory.Valid.{IsValid, entry}
use cachefx.Memory.Spec
use cachefx.Memory.Spec.{Store, has_passed, settle, amend, write, ticked}
use cachefx.Memory.Spec.Answers.{not_found, settle_passed, settle_current, with_current}
use cachefx.Memory.Refines.{view, entry_of}
use cachefx.Memory.Gets.{get-Agrees}

abbrev by_priority :
    Option Time → Option Duration → Option Duration → Bool → Duration → Time → Time → Time
by_priority valid_until set_ttl update_ttl default_ttl ttl t old = elim valid_until [
  | some v ↦ v
  | none ↦ elim set_ttl [
    | some d ↦ add t d
    | none ↦ elim update_ttl [
      | some d ↦ if is_zero old then add t d else add old d
      | none ↦ if default_ttl then (if is_positive ttl then add t ttl else zero_time) else old
    ]
  ]
]

-- The deadline after a Get at time `t`: that of the last `AndSetValidUntil`; with none, the last
-- `AndSetTTL` counted from `t`; with none, the last `AndUpdateTTL` on top of the old deadline, or
-- counted from `t` if there was none; with none, by `AndDefaultTTL` the default TTL counted from `t`,
-- or no deadline if the default is not positive; and with no such option the old one.
abbrev pub chosen : List GetOption → Duration → Time → Time → Time
chosen opts ttl t old =
    by_priority (latest asked_valid_until opts none) (latest asked_set_ttl opts none)
      (latest asked_update_ttl opts none) (some_option is_default_ttl opts) ttl t old

refresh-chosen :
    (opts : List GetOption) (ttl : Duration) (t old : Time)
    → refresh (apply_get opts no_get_options) ttl t old ≡ chosen opts ttl t old
unfolding refresh
refresh-chosen opts ttl t old =
    let (v, s, u, d, _) = apply_get-latest opts in
    λ i. by_priority (v i) (s i) (u i) (d i) ttl t old

-- The entry as the options leave it.
abbrev pub refreshed : List GetOption → MemoryItem → World → MemoryItem
refreshed opts i w = record i { valid_until = chosen opts w.ttl (now w.clock) i.valid_until }

-- the reference result of a Get that refreshes an entry
abbrev Refreshes : String → MemoryItem → Store → Result Bytes × Store → Type 0
Refreshes k j s (r, s') =
    (r ≡ (if has_passed j (now (tick s.clock)) then not_found else ok j.value))
    × ((l : String)
        → s'.entries l ≡ (
            if k == l
            then (if has_passed j (now (tick s.clock)) then none else some j)
            else s.entries l))

if_then_if {ℓ} :
    {A : Type ℓ} (b : Bool) (x y z : A)
    → (if b then x else (if b then y else z)) ≡ (if b then x else z)
if_then_if true x y z = refl
if_then_if false x y z = refl

settle-Refreshes :
    (k : String) (j : MemoryItem) (s : Store)
    → Refreshes k j s (settle k j (write k (some j) (ticked s)))
settle-Refreshes k j s = elim (Bool-cases (has_passed j (now (tick s.clock)))) [
  | inl passed ↦
      rw (settle_passed k j (write k (some j) (ticked s)) passed)
        (rw passed, λ l. rw passed (if_then_if (k == l) none (some j) (s.entries l)))
  | inr current ↦
      rw (settle_current k j (write k (some j) (ticked s)) current) (rw current, λ l. rw current)
]

amend_kept :
    (o : GetOptions) (k : String) (i : MemoryItem) (t u : Time) (s : Store)
    → o.delete ≡ false
    → refresh o s.ttl t i.valid_until ≡ u
    → amend o k i t s
      ≡ settle k (record i { valid_until = u }) (write k (some (record i { valid_until = u })) s)
unfolding amend
amend_kept o k i t u s e r =
    let settled = λ (x : Time).
      settle k (record i { valid_until = x }) (write k (some (record i { valid_until = x })) s) in
    ap (λ b. if b then settle k i (write k none s) else settled (refresh o s.ttl t i.valid_until)) e
    ∙ ap settled r

amend-Refreshes :
    (opts : List GetOption) (k : String) (i : MemoryItem) (s : Store)
    → some_option is_delete opts ≡ false
    → Refreshes k
        (record i { valid_until = chosen opts s.ttl (now s.clock) i.valid_until })
        s
        (amend (apply_get opts no_get_options) k i (now s.clock) (ticked s))
amend-Refreshes opts k i s kept =
    rw
      (amend_kept (apply_get opts no_get_options) k i (now s.clock)
        (chosen opts s.ttl (now s.clock) i.valid_until) (ticked s)
        ((apply_get-latest opts).4 ∙ kept) (refresh-chosen opts s.ttl (now s.clock) i.valid_until))
      (settle-Refreshes k (record i { valid_until = chosen opts s.ttl (now s.clock) i.valid_until })
        s)

-- A Get with options, none of them AndDelete, of a live entry: it writes the chosen deadline. If that
-- has not passed at the second reading of the clock, the reply is the value and the entry stays with
-- it; if it has, the reply is "not found" and the entry is removed. No other key changes.
pub get_refreshes :
    (k : String) (opt : GetOption) (opts : List GetOption) (i : MemoryItem) {w : World}
    → IsValid w
    → entry w k ≡ some i
    → has_passed i (now w.clock) ≡ false
    → some_option is_delete (opt ∷ opts) ≡ false
    → ((Memory.get k (opt ∷ opts) w).0 ≡ (
        if has_passed (refreshed (opt ∷ opts) i w) (now (tick w.clock))
        then not_found
        else ok i.value))
      × ((l : String)
          → entry (Memory.get k (opt ∷ opts) w).1 l ≡ (
              if k == l
              then (if has_passed (refreshed (opt ∷ opts) i w) (now (tick w.clock))
                  then none
                  else some (refreshed (opt ∷ opts) i w))
              else entry w l))
unfolding Spec.get view
get_refreshes k opt opts i {w} v e current kept =
    let a = get-Agrees k (opt ∷ opts) v in
    let o = apply_get (opt ∷ opts) no_get_options in
    let q = with_current k i (view w) o e current in
    let (reply, rest) = amend-Refreshes (opt ∷ opts) k i (view w) kept in
    (a.reply ∙ ap (λ x. x.0) q ∙ reply, λ l. entry_of a l ∙ ap (λ x. x.1.entries l) q ∙ rest l)
