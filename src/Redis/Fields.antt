-- ===== src/Redis/Fields.antt =====
-- What the writing commands of `Redis.Documented` do to the fields of a hash.
use cachefx.Prelude.{
  String, Bool, true, false, ◌≡◌, refl, ap, sym, ◌∙◌, subst, Option, none, some, List, [], ◌∷◌,
  ◌==◌, eq_refl, if◌then◌else◌, ℤ, pos, ltb_ℤ, Bool-cases, inl, inr,
}
use cachefx.Errors.{Result, ok}
use cachefx.Dict.{
  Dict, lookup, insert, erase, IsMap, lookup-insert, lookup-erase, insert-IsMap, erase-IsMap,
}
use cachefx.Time.{now, tick}
use cachefx.Redis.Documented.{
  Remote, Latitude, Field, has_ended, live_at, found, put, ticked, expire_field,
}

-- The field under `f` of the hash of the cache, expired or not.
abbrev pub field : String → Remote → String → Option Field
field key s f = lookup f (s.hashes key)

-- The state `s'` has `o` under the field `f` of the hash, and is `s` everywhere else.
pub record Wrote (key f : String) (o : Option Field) (s s' : Remote) : Type 0 where
  pub written : (g : String) → field key s' g ≡ (if f == g then o else field key s g)
  pub others : (j g : String) → (key == j) ≡ false → field j s' g ≡ field j s g
  pub valid : IsMap (s'.hashes key)

put_other :
    (key j : String) (d : Dict Field) (s : Remote)
    → (key == j) ≡ false
    → (put key d s).hashes j ≡ s.hashes j
put_other key j d s h = rw h refl

put_same : (key : String) (d : Dict Field) (s : Remote) → (put key d s).hashes key ≡ d
put_same key d s = rw eq_refl refl

pub put-Wrote :
    (key f : String) (o : Option Field) (d : Dict Field) (s : Remote)
    → ((g : String) → lookup g d ≡ (if f == g then o else field key s g))
    → IsMap d
    → Wrote key f o s (put key d s)
put-Wrote key f o d s h m = record {
  written = λ g. ap (lookup g) (put_same key d s) ∙ h g;
  others = λ j g other. ap (lookup g) (put_other key j d s other);
  valid = subst IsMap (sym (put_same key d s)) m;
}

pub insert-Wrote :
    (key f : String) (x : Field) (s : Remote)
    → IsMap (s.hashes key)
    → Wrote key f (some x) s (put key (insert f x (s.hashes key)) s)
insert-Wrote key f x s m =
    put-Wrote key f (some x) (insert f x (s.hashes key)) s (λ g. lookup-insert f g x (s.hashes key))
      (insert-IsMap f x (s.hashes key) m)

pub erase-Wrote :
    (key f : String) (s : Remote)
    → IsMap (s.hashes key)
    → Wrote key f none s (put key (erase f (s.hashes key)) s)
erase-Wrote key f s m =
    put-Wrote key f none (erase f (s.hashes key)) s (λ g. lookup-erase f g (s.hashes key) m)
      (erase-IsMap f (s.hashes key) m)

if_twice {ℓ} :
    {A : Type ℓ} (b : Bool) (x y z : A)
    → (if b then x else (if b then y else z)) ≡ (if b then x else z)
if_twice true x y z = refl
if_twice false x y z = refl

pub Wrote-trans :
    {key f : String} {o o' : Option Field} {s s1 s2 : Remote}
    → Wrote key f o s s1
    → Wrote key f o' s1 s2
    → Wrote key f o' s s2
Wrote-trans {key} {f} {o} {o'} {s} {s1} {s2} a b = record {
  written = λ g.
      b.written g
      ∙ ap (λ x. if f == g then o' else x) (a.written g)
      ∙ if_twice (f == g) o' o (field key s g);
  others = λ j g other. b.others j g other ∙ a.others j g other;
  valid = b.valid;
}

-- A step of the clock changes no field.
pub ticked-Wrote :
    {key k : String} {o : Option Field} {s s' : Remote}
    → Wrote key k o (ticked s) s'
    → Wrote key k o s s'
ticked-Wrote w = record { written = w.written; others = w.others; valid = w.valid }

-- and neither does one behind a write
pub Wrote-ticked :
    {key k : String} {o : Option Field} {s s' : Remote}
    → Wrote key k o s s'
    → Wrote key k o s (ticked s')
Wrote-ticked w = record { written = w.written; others = w.others; valid = w.valid }

module _ (l : Latitude) (key f : String) (e : ℤ) (x : Field) (s : Remote) where
  abbrev pub expired : Field
  expired = record x { expires = some e }

  -- What HEXPIREAT and HEXPIRE answer, and leave: the field gets the expiry, or goes if that has passed.
  abbrev pub Expires : Result (List ℤ) × Remote → Type 0
  Expires a =
      (n : List ℤ) × (a.0 ≡ ok n)
      × Wrote key f (live_at (now s.clock) (some expired)) s a.1
      × (a.1.clock ≡ tick s.clock)

  pub expire_field-Wrote :
      IsMap (s.hashes key) → found s key f ≡ some x → Expires (expire_field l key e f s)
  unfolding expire_field has_ended
  expire_field-Wrote m there = elim (Bool-cases (ltb_ℤ (now s.clock) e)) [
    | inl later ↦
        let eq : expire_field l key e f s
            ≡ (ok (pos 1 ∷ []), put key (insert f expired (s.hashes key)) s) =
          rw (there, later, expire_field) refl in
        rw (eq, later) (pos 1 ∷ [], refl, insert-Wrote key f expired s m, refl)
    | inr ended ↦
        let eq : expire_field l key e f s ≡ (ok (pos 2 ∷ []), put key (erase f (s.hashes key)) s) =
          rw (there, ended, expire_field) refl in
        rw (eq, ended) (pos 2 ∷ [], refl, erase-Wrote key f s m, refl)
  ]
