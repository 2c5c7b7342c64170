-- ===== src/Memory/Plain.antt =====
-- cache/memory.go with no default TTL, used with no option: a map from keys to values.
use cachefx.Prelude.{
  Bytes, String, false, ◌≡◌, refl, ap, ◌∙◌, sym, subst, fun_ext, Option, none, some, [], ◌==◌,
  if◌then◌else◌, Bool-cases, eq_iff, inl, inr, is_zero_ℤ,
}
use cachefx.Errors.{ok, done}
use cachefx.Options.{apply, apply_get}
use cachefx.Time.{Duration, Clock, zero_time, Time, now, is_positive}
use cachefx.Cache.Plain
use cachefx.Cache.Plain.{
  Values, Step, IsPlain, Call, play, serve, status, bytes, contents, set, set_or_fail, get,
  get_and_delete, delete, cleanup, drain, shown_items,
}
use cachefx.Memory.{MemoryItem, World, default_options}
use cachefx.Memory.Interface.{memory_cache}
use cachefx.Memory.Valid.{IsValid, entry}
use cachefx.Memory.Spec
use cachefx.Memory.Spec.{Store, has_passed, settle, amend, get_with}
use cachefx.Memory.Refines.{view, Agrees, set-Agrees, set_or_fail-Agrees, delete-Agrees}
use cachefx.Memory.Gets.{get-Agrees, get_and_delete-Agrees}
use cachefx.Memory.Sweep.{cleanup-Agrees, drain_lem}

-- an entry that lives for ever
abbrev pub lasting : Option Bytes → Option MemoryItem
lasting none = none
lasting (some v) = some (record { value = v; valid_until = zero_time })

-- The cache is well formed, has no default TTL, and holds the values for ever.
pub record Shows (w : World) (m : Values) : Type 0 where
  pub valid : IsValid w
  pub no_ttl : is_positive w.ttl ≡ false
  pub entries : entry w ≡ (λ k. lasting (m k))

-- the reference store with the values of a map
abbrev plain : Values → Duration → Clock → Store
plain m ttl c = record { entries = λ k. lasting (m k); ttl = ttl; clock = c }

-- The store that an operation leaves.
pub record Kept (ttl : Duration) (m : Values) (s : Store) : Type 0 where
  pub same_ttl : s.ttl ≡ ttl
  pub values : s.entries ≡ (λ k. lasting (m k))

view-plain : {w : World} {m : Values} → Shows w m → view w ≡ plain m w.ttl w.clock
unfolding view
view-plain {w} {m} h = λ i. record { entries = h.entries i; ttl = w.ttl; clock = w.clock }

write-lasting :
    (k : String) (o : Option Bytes) (m : Values) (j : String)
    → (if k == j then lasting o else lasting (m j)) ≡ lasting (Plain.write k o m j)
write-lasting k o m j = elim (Bool-cases (k == j)) [
  | inl same ↦ rw same refl
  | inr other ↦ rw other refl
]

absent-lasting :
    (k : String) (m : Values) (j : String)
    → m k ≡ none
    → lasting (m j) ≡ lasting (Plain.write k none m j)
absent-lasting k m j e = elim (Bool-cases (k == j)) [
  | inl same ↦ rw same (ap lasting (ap m (sym ((eq_iff k j).0 same)) ∙ e))
  | inr other ↦ rw other refl
]

value-lasting : (t : Time) (o : Option Bytes) → Spec.value_of (Spec.live_at t (lasting o)) ≡ o
unfolding has_passed is_zero_ℤ
value-lasting t none = refl
value-lasting t (some v) = refl

module _ (m : Values) (ttl : Duration) (c : Clock) (no_ttl : is_positive ttl ≡ false) where
  -- the same call of the reference store and of the map
  abbrev Served : {A : Type 0} → A → Values → A × Store → Type 0
  Served a m' x = (x.0 ≡ a) × Kept ttl m' x.1

  set-Served :
      (k : String) (v : Bytes)
      → Served done (Plain.write k (some v) m) (Spec.set k v [] (plain m ttl c))
  unfolding Spec.set default_options apply
  set-Served k v =
      rw no_ttl (refl, record { same_ttl = refl; values = fun_ext (write-lasting k (some v) m) })

  set_or_fail-Served :
      (k : String) (v : Bytes) (o : Option Bytes)
      → m k ≡ o
      → Served
          (Plain.added k v m o).0
          (Plain.added k v m o).1
          (Spec.set_or_fail k v [] (plain m ttl c))
  unfolding Spec.set_or_fail has_passed is_zero_ℤ
  set_or_fail-Served k v none e = rw (e, Spec.set_or_fail) (set-Served k v)
  set_or_fail-Served k v (some u) e =
      rw (e, Spec.set_or_fail) (refl, record { same_ttl = refl; values = refl })

  get-Served :
      (k : String) (o : Option Bytes)
      → m k ≡ o
      → Served (Plain.value_or_missing o) m (Spec.get k [] (plain m ttl c))
  unfolding Spec.get settle has_passed is_zero_ℤ
  get-Served k none e = rw (e, Spec.get) (refl, record { same_ttl = refl; values = refl })
  get-Served k (some u) e = rw (e, Spec.get) (refl, record { same_ttl = refl; values = refl })

  get_and_delete-Served :
      (k : String) (o : Option Bytes)
      → m k ≡ o
      → Served
          (Plain.value_or_missing o)
          (Plain.write k none m)
          (Spec.get_and_delete k (plain m ttl c))
  unfolding Spec.get_and_delete Spec.get get_with amend settle has_passed is_zero_ℤ apply_get
  get_and_delete-Served k none e =
      rw (e, get_with)
        (refl, record { same_ttl = refl; values = fun_ext (λ j. absent-lasting k m j e) })
  get_and_delete-Served k (some u) e =
      rw (e, get_with) (refl, record { same_ttl = refl; values = fun_ext (write-lasting k none m) })

  delete-Served : (k : String) → Served done (Plain.write k none m) (Spec.delete k (plain m ttl c))
  unfolding Spec.delete
  delete-Served k = (refl, record { same_ttl = refl; values = fun_ext (write-lasting k none m) })

  live-lasting : (o : Option Bytes) → Spec.live_at (now c) (lasting o) ≡ lasting o
  unfolding has_passed is_zero_ℤ
  live-lasting none = refl
  live-lasting (some v) = refl

  cleanup-Served : Served done m (Spec.cleanup (plain m ttl c))
  unfolding Spec.cleanup
  cleanup-Served = (refl, record { same_ttl = refl; values = fun_ext (λ k. live-lasting (m k)) })

  drain-Served : Served m (λ _. none) (Spec.drain (plain m ttl c))
  unfolding Spec.drain
  drain-Served =
      (fun_ext (λ k. value-lasting (now c) (m k)), record { same_ttl = refl; values = refl })

-- A call of the cache that the reference store agrees with, and that the store serves as the map does.
stepped :
    {A : Type 0} (f : A → Plain.Answer) {x : A × World} {y : A × Store} {a : A} {m : Values}
    {ttl : Duration}
    → Agrees x y
    → is_positive ttl ≡ false
    → (y.0 ≡ a) × Kept ttl m y.1
    → Step Shows (f x.0, x.1) (f a, m)
unfolding view
stepped f agrees no_ttl (answer, kept) = record {
  answer = ap f (agrees.reply ∙ answer);
  shown = record {
    valid = agrees.valid;
    no_ttl = ap (λ s. is_positive s.ttl) agrees.state ∙ ap is_positive kept.same_ttl ∙ no_ttl;
    entries = ap (λ s. s.entries) agrees.state ∙ kept.values;
  };
}

-- What a store serves, on the view of the cache.
on_view :
    {A : Type 0} {w : World} {m m' : Values} {a : A} (op : Store → A × Store)
    → Shows w m
    → ((op (plain m w.ttl w.clock)).0 ≡ a) × Kept w.ttl m' (op (plain m w.ttl w.clock)).1
    → ((op (view w)).0 ≡ a) × Kept w.ttl m' (op (view w)).1
on_view {w} {m' = m'} {a = a} op h served =
    subst (λ s. ((op s).0 ≡ a) × Kept w.ttl m' (op s).1) (sym (view-plain h)) served

drain-Step :
    {w : World} {m : Values} → Shows w m → Step Shows (play memory_cache drain w) (serve drain m)
unfolding play serve view
drain-Step {w} {m} h =
    let (items, copied, shown, state, valid) = drain_lem h.valid in
    let (answer, kept) = on_view Spec.drain h (drain-Served m w.ttl w.clock h.no_ttl) in
    record {
      answer =
          ap (λ r. contents (shown_items r)) copied
          ∙ ap (λ f. contents (ok f)) (fun_ext shown ∙ answer);
      shown = record {
        valid = valid;
        no_ttl = ap (λ s. is_positive s.ttl) state ∙ ap is_positive kept.same_ttl ∙ h.no_ttl;
        entries = ap (λ s. s.entries) state ∙ kept.values;
      };
    }

play-Step :
    (call : Call) {w : World} {m : Values}
    → Shows w m
    → Step Shows (play memory_cache call w) (serve call m)
unfolding play serve
play-Step (set k v) {w} {m} h =
    stepped status (set-Agrees k v [] h.valid) h.no_ttl
      (on_view (Spec.set k v []) h (set-Served m w.ttl w.clock h.no_ttl k v))
play-Step (set_or_fail k v) {w} {m} h =
    stepped status (set_or_fail-Agrees k v [] h.valid) h.no_ttl (
      on_view (Spec.set_or_fail k v []) h
        (set_or_fail-Served m w.ttl w.clock h.no_ttl k v (m k) refl))
play-Step (get k) {w} {m} h =
    stepped bytes (get-Agrees k [] h.valid) h.no_ttl
      (on_view (Spec.get k []) h (get-Served m w.ttl w.clock h.no_ttl k (m k) refl))
play-Step (get_and_delete k) {w} {m} h = stepped bytes (get_and_delete-Agrees k h.valid) h.no_ttl (
    on_view (Spec.get_and_delete k) h (get_and_delete-Served m w.ttl w.clock h.no_ttl k (m k) refl))
play-Step (delete k) {w} {m} h =
    stepped status (delete-Agrees k h.valid) h.no_ttl
      (on_view (Spec.delete k) h (delete-Served m w.ttl w.clock h.no_ttl k))
play-Step cleanup {w} {m} h =
    stepped status (cleanup-Agrees h.valid) h.no_ttl
      (on_view Spec.cleanup h (cleanup-Served m w.ttl w.clock h.no_ttl))
play-Step drain h = drain-Step h

-- The cache in memory with no default TTL is a map to a client that gives no options.
pub memory_cache-IsPlain : IsPlain Shows memory_cache
memory_cache-IsPlain = record { step = play-Step }
