-- ===== src/Memory/Refines.antt =====
-- Each method of cache/memory.go against the reference operation of `Memory.Spec`.
use mathlib.Core.Path.{subst⁻¹}
use cachefx.Prelude.{
  ℕ, String, ◌≡◌, refl, ap, sym, ◌∙◌, fun_ext, Option, none, some, List, arith, Bool-cases,
  Option-cases, inl, inr,
}
use cachefx.Errors.{sentinel, err_key_exists, err}
use cachefx.Dict.{lookup}
use cachefx.Options.{SetOption, apply}
use cachefx.Time.{Time, now, tick}
use cachefx.Memory
use cachefx.Memory.{
  Bytes, MemoryItem, World, touch, is_expired, default_options, new_memory_item, new_item, store,
  refresh, write_deadline, evict, check_item, deref, getter, getter_with, examine,
}
use cachefx.Memory.Valid.{
  IsValid, entry, put, drop, at_clock, at_clock-IsValid, drop-IsValid, entry-drop, put-IsValid,
  entry-put,
}
use cachefx.Memory.Spec
use cachefx.Memory.Spec.{Store, has_passed, write, ticked, settle, amend, live_at}

unfoldable pub view : World → Store
view w = record { entries = entry w; ttl = w.ttl; clock = w.clock }

-- A method did what the reference does: the same reply, the same entries, on a valid cache still.
pub record Agrees {A : Type 0} (x : A × World) (y : A × Store) : Type 0 where
  pub reply : x.0 ≡ y.0
  pub state : view x.1 ≡ y.1
  pub valid : IsValid x.1

module _ {A : Type 0} {x : A × World} {y : A × Store} (a : Agrees x y) where
  pub entry_of : (k : String) → entry x.1 k ≡ y.1.entries k
  unfolding view
  entry_of k = ap (λ s. s.entries k) a.state

  pub clock_of : x.1.clock ≡ y.1.clock
  unfolding view
  clock_of = ap (λ s. s.clock) a.state

pub same_store :
    {f g : String → Option MemoryItem} (w : World)
    → ((k : String) → f k ≡ g k)
    → (record { entries = f; ttl = w.ttl; clock = w.clock })
      ≡ (let s : Store = record { entries = g; ttl = w.ttl; clock = w.clock } in s)
same_store w h = λ i. record { entries = fun_ext h i; ttl = w.ttl; clock = w.clock }

module _ {w : World} (v : IsValid w) where
  view-put : (k : String) (i : MemoryItem) → view (put k i w) ≡ write k (some i) (view w)
  unfolding view
  view-put k i = same_store w (entry-put k i v)

  pub view-drop : (k : String) → view (drop k w) ≡ write k none (view w)
  unfolding view
  view-drop k = same_store w (entry-drop k v)

pub set-Agrees :
    (k : String) (value : Bytes) (opts : List SetOption) {w : World}
    → IsValid w
    → Agrees (Memory.set k value opts w) (Spec.set k value opts (view w))
unfolding Memory.set Spec.set view entry
set-Agrees k value opts {w} v =
    let (base, c) = default_options w.ttl w.clock in
    let (o, c') = apply opts base c in
    let i : MemoryItem = record { value = value; valid_until = o.valid_until } in
    record {
      reply = refl;
      state = view-put (at_clock-IsValid c' v) k i;
      valid = put-IsValid k i (at_clock-IsValid c' v);
    }

pub delete-Agrees :
    (k : String) {w : World} → IsValid w → Agrees (Memory.delete k w) (Spec.delete k (view w))
unfolding Memory.delete Spec.delete
delete-Agrees k v = record { reply = refl; state = view-drop v k; valid = drop-IsValid k v }

-- a pointer in the map leads to the entry
pub entry_at :
    {w : World} (v : IsValid w) (k : String) (p : ℕ)
    → lookup k w.items ≡ some p
    → (i : MemoryItem) × (w.heap p ≡ some i) × (entry w k ≡ some i)
unfolding entry
entry_at v k p e = let (i, found) = v.stored k p e in (i, found, ground arith)

pub entry_found :
    (w : World) (k : String) (p : ℕ) → lookup k w.items ≡ some p → entry w k ≡ w.heap p
unfolding entry
entry_found w k p e = rw e

pub entry_missing : (w : World) (k : String) → lookup k w.items ≡ none → entry w k ≡ none
unfolding entry
entry_missing w k e = ground arith

pub is_expired-has_passed : (i : MemoryItem) (t : Time) → is_expired (some i) t ≡ has_passed i t
unfolding is_expired has_passed
is_expired-has_passed i t = refl

pub agree_by :
    {A : Type 0} {x x' : A × World} {y y' : A × Store} → x ≡ x' → y ≡ y' → Agrees x' y' → Agrees x y
agree_by p q a = record {
  reply = ap (λ z. z.0) p ∙ a.reply ∙ sym (ap (λ z. z.0) q);
  state = ap (λ z. view z.1) p ∙ a.state ∙ sym (ap (λ z. z.1) q);
  valid = subst⁻¹ (λ z. IsValid z.1) p a.valid;
}

abbrev pub tick_world : World → World
tick_world w = at_clock (tick w.clock) w

pub ticked-view : (w : World) → ticked (view w) ≡ view (tick_world w)
unfolding view entry
ticked-view w = refl

pub same-Agrees : {A : Type 0} (a : A) {w : World} → IsValid w → Agrees (a, w) (a, view w)
same-Agrees a v = record { reply = refl; state = refl; valid = v }

pub ticked-Agrees :
    {A : Type 0} (a : A) {w : World} → IsValid w → Agrees (a, tick_world w) (a, ticked (view w))
ticked-Agrees a {w} v = record {
  reply = refl;
  state = sym (ticked-view w);
  valid = at_clock-IsValid (tick w.clock) v;
}

module _ (k : String) (value : Bytes) (opts : List SetOption) {w : World} (v : IsValid w) where
  pub set_or_fail-Agrees :
      Agrees (Memory.set_or_fail k value opts w) (Spec.set_or_fail k value opts (view w))
  unfolding Memory.set_or_fail Spec.set_or_fail Memory.set view
  set_or_fail-Agrees = elim (Option-cases (lookup k w.items)) [
    | inl missing ↦
        agree_by (rw (missing, Memory.set_or_fail))
          (rw (entry_missing w k missing, Spec.set_or_fail)) (set-Agrees k value opts v)
    | inr (p, e) ↦
        let (i, found, shown) = entry_at v k p e in
        let v1 = at_clock-IsValid (tick w.clock) v in
        elim (Bool-cases (has_passed i (now w.clock))) [
          | inl passed ↦
              agree_by (rw (e, found, is_expired-has_passed, passed, Memory.set_or_fail))
                (rw (shown, passed, Spec.set_or_fail) (ap (Spec.set k value opts) (ticked-view w)))
                (set-Agrees k value opts v1)
          | inr current ↦
              agree_by (rw (e, found, is_expired-has_passed, current, Memory.set_or_fail))
                (rw (shown, current, Spec.set_or_fail))
                (ticked-Agrees (err (sentinel err_key_exists)) v)
        ]
  ]
