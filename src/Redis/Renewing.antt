-- ===== src/Redis/Renewing.antt =====
-- The script of `Get` of cache/redis.go on a field that is there: the expiry that it leaves.
use cachefx.Prelude.{
  Bool, String, true, false, not, ◌||◌, ◌≡◌, refl, ap, sym, ◌∙◌, subst, Option, none, some, [], ◌∷◌,
  ◌==◌, eq_iff, if◌then◌else◌, ℤ, pos, ◌+ℤ◌, ltb_ℤ, Bool-cases, inl, inr, arith,
}
use cachefx.Errors.{Result, done}
use cachefx.Dict.{IsMap}
use cachefx.Time.{Clock, now, tick}
use cachefx.Redis.Calls.{pure}
use cachefx.Redis.Documented.{
  Remote, Latitude, Field, documented_server, has_ended, live_at, found, ticked, millis,
  expire_field, ttl_reply,
}
use cachefx.Redis.Scripts.{current_ttl, update_ttl}
use cachefx.Redis.Laws.{>>-ok}
use cachefx.Redis.Fields.{ticked-Wrote, field, Wrote, expire_field-Wrote}

-- The server's clock shows one time to the commands of a script.
abbrev pub Still : Clock → Type 0
Still c = (now (tick c) ≡ now c) × (now (tick (tick c)) ≡ now c)

-- Nothing is asked of the clock where a flag is set.
abbrev pub StillFor : Bool → Clock → Type 0
StillFor true c = Unit {0}
StillFor false c = Still c

-- The field `x` as the numbers of a script renew it at the server's time `u`: the first is a time in
-- seconds, the second a number of seconds on top of those that are left; neither counts unless positive.
abbrev pub renewed : Latitude → ℤ × ℤ → ℤ → Field → Field
renewed l (ts, delta) u x =
    if ltb_ℤ (pos 0) ts
    then record x { expires = some (millis ts) }
    else if ltb_ℤ (pos 0) delta
    then record x {
      expires = some (u +ℤ millis (current_ttl (ttl_reply l (some x) u ∷ []) +ℤ delta));
    }
    else x

pub live_inv :
    (u : ℤ) (o : Option Field) (x : Field)
    → live_at u o ≡ some x
    → (o ≡ some x) × (has_ended x u ≡ false)
live_inv u none x h = absurd (ground (arith, h))
live_inv u (some y) x h = elim (Bool-cases (has_ended y u)) [
  | inl ended ↦ absurd (ground (arith, rw ended at h))
  | inr live ↦ let same : some y ≡ some x = rw live at h in (same, ground (arith, same, live))
]

module _ (l : Latitude) (key k : String) (x : Field) (s : Remote) where
  -- A field that is there, rewritten as it is.
  kept-Wrote :
      IsMap (s.hashes key)
      → found s key k ≡ some x
      → (c : Clock) → Wrote key k (live_at (now s.clock) (some x)) s (record s { clock = c })
  kept-Wrote m there c =
      let (same, live) = live_inv (now s.clock) (field key s k) x there in
      record {
        written = λ g. elim (Bool-cases (k == g)) [
          | inl self ↦ rw (self, live) (ap (field key s) (sym ((eq_iff k g).0 self)) ∙ same)
          | inr other ↦ rw other refl
        ];
        others = λ j g other. refl;
        valid = m;
      }

  found-ticked : Still s.clock → found s key k ≡ some x → found (ticked s) key k ≡ some x
  found-ticked still there = ap (λ u. live_at u (field key s k)) still.0 ∙ there

  found-ticked_twice :
      Still s.clock → found s key k ≡ some x → found (ticked (ticked s)) key k ≡ some x
  found-ticked_twice still there = ap (λ u. live_at u (field key s k)) still.1 ∙ there

  -- what the `if` of the script leaves
  abbrev pub Renews : ℤ → ℤ → Result (Unit {0}) × Remote → Type 0
  Renews ts delta a =
      (a.0 ≡ done)
      × Wrote key k (live_at (now s.clock) (some (renewed l (ts, delta) (now s.clock) x))) s a.1

  module _ (m : IsMap (s.hashes key)) (still : Still s.clock) (there : found s key k ≡ some x) where
    at_time :
        (ts delta : ℤ)
        → ltb_ℤ (pos 0) ts ≡ true
        → l.in_range ts ≡ true
        → Renews ts delta (update_ttl (documented_server l) key k ts delta (ticked s))
    unfolding update_ttl
    at_time ts delta positive ahead =
        let (n, answer, wrote, _) =
          expire_field-Wrote l key k (millis ts) x (ticked s) m (found-ticked still there) in
        let expire = (documented_server l).h_expire_at key ts k in
        let ran : expire_field l key (millis ts) k (ticked s) ≡ expire (ticked s) = rw ahead refl in
        let eq : update_ttl (documented_server l) key k ts delta (ticked s)
            ≡ (done, (expire (ticked s)).1) =
          rw positive (>>-ok expire (pure tt) (ticked s) (ap (λ y. y.0) (sym ran) ∙ answer)) in
        let new = λ (u : ℤ). live_at u (some (record x { expires = some (millis ts) })) in
        let there_then : Wrote key k (new (now s.clock)) s (expire (ticked s)).1 =
          subst (λ y. Wrote key k (new (now s.clock)) s y.1) ran
            (subst (λ u. Wrote key k (new u) s (expire_field l key (millis ts) k (ticked s)).1)
              still.0 (ticked-Wrote wrote)) in
        rw (eq, positive) (refl, there_then)

    -- the field behind HTTL and HEXPIRE, by what HTTL found at `u` and by the time `u'` of HEXPIRE
    abbrev raised : ℤ → Option Field → ℤ → ℤ → Option Field
    raised delta o u u' = live_at u' (
        some (record x {
          expires = some (u' +ℤ millis (current_ttl (ttl_reply l o u ∷ []) +ℤ delta));
        }))

    by_delta :
        (ts delta : ℤ)
        → ltb_ℤ (pos 0) ts ≡ false
        → ltb_ℤ (pos 0) delta ≡ true
        → Renews ts delta (update_ttl (documented_server l) key k ts delta (ticked s))
    unfolding update_ttl
    by_delta ts delta none_set positive =
        let o = found (ticked s) key k in
        let u1 = now (ticked s).clock in
        let u2 = now (ticked (ticked s)).clock in
        let sum = current_ttl (ttl_reply l o u1 ∷ []) +ℤ delta in
        let expire = (documented_server l).h_expire key sum k in
        let (n, answer, wrote, _) =
          expire_field-Wrote l key k (u2 +ℤ millis sum) x (ticked (ticked s)) m
            (found-ticked_twice still there) in
        let a = (expire (ticked (ticked s))).1 in
        let eq : update_ttl (documented_server l) key k ts delta (ticked s) ≡ (done, a) =
          rw (none_set, positive) (>>-ok expire (pure tt) (ticked (ticked s)) answer) in
        let first : Wrote key k (raised delta o u1 u2) s a = ticked-Wrote (ticked-Wrote wrote) in
        let second =
          subst (λ p. Wrote key k (raised delta p u1 u2) s a) (found-ticked still there) first in
        let third = subst (λ u. Wrote key k (raised delta (some x) u u2) s a) still.0 second in
        rw (eq, none_set, positive)
          (refl, subst (λ u. Wrote key k (raised delta (some x) (now s.clock) u) s a) still.1 third)

    pub update_ttl-Renews :
        (ts delta : ℤ)
        → (not (ltb_ℤ (pos 0) ts) || l.in_range ts) ≡ true
        → Renews ts delta (update_ttl (documented_server l) key k ts delta (ticked s))
    unfolding update_ttl
    update_ttl-Renews ts delta ahead = elim (Bool-cases (ltb_ℤ (pos 0) ts)) [
      | inl positive ↦ at_time ts delta positive (rw positive at ahead)
      | inr none_set ↦ elim (Bool-cases (ltb_ℤ (pos 0) delta)) [
        | inl positive ↦ by_delta ts delta none_set positive
        | inr neither ↦
            let eq : update_ttl (documented_server l) key k ts delta (ticked s) ≡ (done, ticked s) =
              rw (none_set, neither) refl in
            rw (eq, none_set, neither) (refl, kept-Wrote m there (tick s.clock))
      ]
    ]
