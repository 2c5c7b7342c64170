-- ===== src/Factory/Registry.antt =====
-- factory.go: which caches a tracker holds, after any calls of a factory and its caches.
use cachefx.Prelude.{
  ℕ, ◌+◌, ◌≤◌, ◌<◌, String, ◌≡◌, refl, ap, sym, false, List, [], ◌∷◌, arith, eqb, eqb_iff,
  if◌then◌else◌, Bool-cases, inl, inr,
}
use cachefx.Factory.{Tracked, remove, add}

-- No entry of the list stands for the cache `c`.
abbrev pub Lacks : ℕ → List Tracked → Type 0
Lacks c [] = Unit
Lacks c (t ∷ ts) = (eqb t.cache c ≡ false) × Lacks c ts

-- No cache has two entries, and every one is older than `n`.
abbrev pub IsRegistry : ℕ → List Tracked → Type 0
IsRegistry n [] = Unit
IsRegistry n (t ∷ ts) = (t.cache < n) × Lacks t.cache ts × IsRegistry n ts

-- The entries of all caches but `c`, in order.
abbrev pub without : ℕ → List Tracked → List Tracked
without c [] = []
without c (t ∷ ts) = if eqb t.cache c then without c ts else t ∷ without c ts

without_absent : (c : ℕ) (ts : List Tracked) → Lacks c ts → without c ts ≡ ts
without_absent c [] h = refl
without_absent c (t ∷ ts) h = rw h.0 (ap (◌∷◌ t) (without_absent c ts h.1))

pub remove-without : (c n : ℕ) (ts : List Tracked) → IsRegistry n ts → remove c ts ≡ without c ts
unfolding remove
remove-without c n [] h = refl
remove-without c n (t ∷ ts) h = elim (Bool-cases (eqb t.cache c)) [
  | inl same ↦ rw same (sym (without_absent c ts (rw ((eqb_iff t.cache c).0 same) at h.1)))
  | inr other ↦ rw other (ap (◌∷◌ t) (remove-without c n ts h.2))
]

pub without-Lacks : (c : ℕ) (ts : List Tracked) → Lacks c (without c ts)
without-Lacks c [] = tt
without-Lacks c (t ∷ ts) = elim (Bool-cases (eqb t.cache c)) [
  | inl same ↦ rw same (without-Lacks c ts)
  | inr other ↦ rw other (other, without-Lacks c ts)
]

pub without_keeps : (a c : ℕ) (ts : List Tracked) → Lacks a ts → Lacks a (without c ts)
without_keeps a c [] h = tt
without_keeps a c (t ∷ ts) h = elim (Bool-cases (eqb t.cache c)) [
  | inl same ↦ rw same (without_keeps a c ts h.1)
  | inr other ↦ rw other (h.0, without_keeps a c ts h.1)
]

pub without-IsRegistry :
    (c n : ℕ) (ts : List Tracked) → IsRegistry n ts → IsRegistry n (without c ts)
without-IsRegistry c n [] h = tt
without-IsRegistry c n (t ∷ ts) h = elim (Bool-cases (eqb t.cache c)) [
  | inl same ↦ rw same (without-IsRegistry c n ts h.2)
  | inr other ↦ rw other (h.0, without_keeps t.cache c ts h.1, without-IsRegistry c n ts h.2)
]

pub older-Lacks : (n : ℕ) (ts : List Tracked) → IsRegistry n ts → Lacks n ts
older-Lacks n [] h = tt
older-Lacks n (t ∷ ts) h = (ground arith, older-Lacks n ts h.2)

pub Lacks-add :
    (a : ℕ) (c : Tracked) (ts : List Tracked)
    → Lacks a ts
    → eqb c.cache a ≡ false
    → Lacks a (add c ts)
Lacks-add a c [] h e = (e, tt)
Lacks-add a c (t ∷ ts) h e = (h.0, Lacks-add a c ts h.1 e)

pub add-IsRegistry :
    (n : ℕ) (name : String) (ts : List Tracked)
    → IsRegistry n ts
    → IsRegistry (n + 1) (add (record { name = name; cache = n }) ts)
add-IsRegistry n name [] h = (omega arith, tt, tt)
add-IsRegistry n name (t ∷ ts) h = (
  omega (arith, h.0),
  Lacks-add t.cache (record { name = name; cache = n }) ts h.1 (ground (arith, h.0)),
  add-IsRegistry n name ts h.2,
)

pub grown-IsRegistry : (n m : ℕ) (ts : List Tracked) → n ≤ m → IsRegistry n ts → IsRegistry m ts
grown-IsRegistry n m [] le h = tt
grown-IsRegistry n m (t ∷ ts) le h = (omega (arith, h.0), h.1, grown-IsRegistry n m ts le h.2)

pub remove_keeps : (a c : ℕ) (ts : List Tracked) → Lacks a ts → Lacks a (remove c ts)
unfolding remove
remove_keeps a c [] h = tt
remove_keeps a c (t ∷ ts) h = elim (Bool-cases (eqb t.cache c)) [
  | inl same ↦ rw same h.1
  | inr other ↦ rw other (h.0, remove_keeps a c ts h.1)
]
