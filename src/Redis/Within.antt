-- ===== src/Redis/Within.antt =====
-- What the documented server and client leave alone: a command on a key changes no other hash, and no
-- command puts a field twice into one.
use cachefx.Prelude.{
  Bytes, String, Bool, true, false, ◌≡◌, refl, ap, sym, ◌∙◌, subst, Option, none, some, List, [],
  ◌∷◌, ◌==◌, if◌then◌else◌, ℤ, pos, ltb_ℤ, ◌+ℤ◌, Bool-cases, Option-cases, inl, inr, ◌||◌,
}
use cachefx.Errors.{Result, ok, err}
use cachefx.Dict.{Dict, IsMap, insert-IsMap, erase-IsMap, retain-IsMap}
use cachefx.Time.{Time, is_zero, unix, now}
use cachefx.Redis.{queue}
use cachefx.Redis.Calls.{
  M, ◌>>=◌, ◌>>◌, pure, Item, Value, one, null, text, integer, array, payload, h_set, h_expire_at,
}
use cachefx.Redis.Documented.{
  millis, Remote, Latitude, Field, put, ticked, removed, found, set_field, add_field, expire_field,
  documented_server, documented_client, queued, run_queue, reply_or_nil, or_nil,
}
use cachefx.Redis.Scripts.{
  unlink_or_del, unlink_if_any, hgetall_and_delete, current_ttl, update_ttl, take_or_update,
  get_and_update_ttl,
}

-- No hash of the server lists a field twice.
abbrev pub IsSound : Remote → Type 0
IsSound s = (j : String) → IsMap (s.hashes j)

-- The server changes at most the hash under the key, and stays sound.
pub record Keeps (key : String) (s s' : Remote) : Type 0 where
  pub others : (j : String) → (key == j) ≡ false → s'.hashes j ≡ s.hashes j
  pub sound : IsSound s → IsSound s'

pub Keeps-trans : {key : String} {s t u : Remote} → Keeps key s t → Keeps key t u → Keeps key s u
Keeps-trans a b = record {
  others = λ j other. b.others j other ∙ a.others j other;
  sound = λ h. b.sound (a.sound h);
}

pub same-Keeps : (key : String) {s s' : Remote} → s'.hashes ≡ s.hashes → Keeps key s s'
same-Keeps key e = record {
  others = λ j other. ap (λ h. h j) e;
  sound = λ h j. subst (λ f. IsMap (f j)) (sym e) (h j);
}

put-Keeps :
    (key : String) (d : Dict Field) (s : Remote)
    → (IsMap (s.hashes key) → IsMap d)
    → Keeps key s (put key d s)
put-Keeps key d s m = record {
  others = λ j other. rw other refl;
  sound = λ h j. elim (Bool-cases (key == j)) [
    | inl same ↦ rw same (m (h key))
    | inr other ↦ rw other (h j)
  ];
}

removed-Keeps : (key : String) (s : Remote) → Keeps key s (removed key s)
removed-Keeps key s = record {
  others = λ j other. rw other refl;
  sound =
      λ h j. elim (Bool-cases (key == j)) [ inl same ↦ rw same tt | inr other ↦ rw other (h j) ];
}

-- A computation that does so from any state, seen through a view.
abbrev pub Stays : {T A : Type 0} → (T → Remote) → String → M T A → Type 0
Stays view key m = (t : _) → Keeps key (view t) (view (m t).1)

module _ {T : Type 0} (view : T → Remote) (key : String) where
  pub pure-Stays : {A : Type 0} (a : A) → Stays view key (pure a)
  pure-Stays a t = same-Keeps key refl

  answered-Keeps :
      {A B : Type 0} (f : A → M T B) (r : Result A) (s : Remote) (t : T)
      → ((a : A) → Stays view key (f a))
      → Keeps key s (view t)
      → Keeps key s (view (((λ _. (r, t)) >>= f) t).1)
  answered-Keeps f (ok a) s t h first = Keeps-trans first (h a t)
  answered-Keeps f (err e) s t h first = first

  pub >>=-Stays :
      {A B : Type 0} (m : M T A) (f : A → M T B)
      → Stays view key m
      → ((a : A) → Stays view key (f a))
      → Stays view key (m >>= f)
  >>=-Stays m f first h t = answered-Keeps f (m t).0 (view t) (m t).1 h (first t)

  pub then-Stays :
      {A B : Type 0} (m : M T A) (n : M T B)
      → Stays view key m
      → Stays view key n
      → Stays view key (m >> n)
  then-Stays m n first second = >>=-Stays m (λ _. n) first (λ _. second)

  pub if-Stays :
      {A : Type 0} (b : Bool) (m n : M T A)
      → Stays view key m
      → Stays view key n
      → Stays view key (if b then m else n)
  if-Stays true m n first second = first
  if-Stays false m n first second = second

abbrev itself : Remote → Remote
itself s = s

module _ (l : Latitude) (key : String) where
  ticked-Keeps : (s : Remote) → Keeps key s (ticked s)
  ticked-Keeps s = same-Keeps key refl

  set_field-Stays : (f : String) (v : Bytes) → Stays itself key (set_field l key f v)
  unfolding set_field
  set_field-Stays f v s = put-Keeps key _ s (insert-IsMap f _ (s.hashes key))

  pub add_field-Stays : (f : String) (v : Bytes) → Stays itself key (add_field l key f v)
  unfolding add_field
  add_field-Stays f v s = elim (Option-cases (found s key f)) [
    | inl absent ↦ rw (absent, add_field) (put-Keeps key _ s (insert-IsMap f _ (s.hashes key)))
    | inr (x, there) ↦ rw (there, add_field) (ticked-Keeps s)
  ]

  expire_field-Stays : (e : ℤ) (f : String) → Stays itself key (expire_field l key e f)
  unfolding expire_field
  expire_field-Stays e f s = elim (Option-cases (found s key f)) [
    | inl absent ↦ rw (absent, expire_field) (ticked-Keeps s)
    | inr (x, there) ↦ elim (Bool-cases (ltb_ℤ (now s.clock) e)) [
      | inl later ↦
          rw (there, later, expire_field) (put-Keeps key _ s (insert-IsMap f _ (s.hashes key)))
      | inr ended ↦
          rw (there, ended, expire_field) (put-Keeps key _ s (erase-IsMap f (s.hashes key)))
    ]
  ]

  pub h_del-Stays : (f : String) → Stays itself key ((documented_server l).h_del key f)
  h_del-Stays f s = put-Keeps key _ s (erase-IsMap f (s.hashes key))

  h_get_all-Stays : Stays itself key ((documented_server l).h_get_all key)
  h_get_all-Stays s = put-Keeps key _ s (retain-IsMap _ (s.hashes key))

  pub h_expire_at-Stays :
      (e : ℤ) (f : String) → Stays itself key ((documented_server l).h_expire_at key e f)
  h_expire_at-Stays e f s = elim (Bool-cases (l.in_range e)) [
    | inl taken ↦ rw taken (expire_field-Stays (millis e) f s)
    | inr refused ↦ rw refused (ticked-Keeps s)
  ]

  h_expire-Stays :
      (ttl : ℤ) (f : String) → Stays itself key ((documented_server l).h_expire key ttl f)
  h_expire-Stays ttl f s = expire_field-Stays (now s.clock +ℤ millis ttl) f s

  unlink_or_del-Stays : Stays itself key (unlink_or_del (documented_server l) key)
  unfolding unlink_or_del
  unlink_or_del-Stays s = elim (Bool-cases l.has_unlink) [
    | inl known ↦ rw known (removed-Keeps key s)
    | inr unknown ↦ rw unknown (removed-Keeps key s)
  ]

  unlink_if_any-Stays :
      (items : List Item) → Stays itself key (unlink_if_any (documented_server l) key items)
  unfolding unlink_if_any
  unlink_if_any-Stays [] = pure-Stays itself key tt
  unlink_if_any-Stays (_ ∷ _) = unlink_or_del-Stays

  pub hgetall_and_delete-Stays : Stays itself key (hgetall_and_delete (documented_server l) key)
  unfolding hgetall_and_delete
  hgetall_and_delete-Stays =
      >>=-Stays itself key ((documented_server l).h_get_all key)
        (λ items. unlink_if_any (documented_server l) key items >> pure (array items))
        h_get_all-Stays
        (λ items.
          then-Stays itself key (unlink_if_any (documented_server l) key items) (pure (array items))
            (unlink_if_any-Stays items) (pure-Stays itself key (array items)))

  raised-Stays :
      (f : String) (delta : ℤ) (ttl_arr : List ℤ)
      → Stays itself key
          ((documented_server l).h_expire key (current_ttl ttl_arr +ℤ delta) f >> pure tt)
  raised-Stays f delta ttl_arr =
      then-Stays itself key ((documented_server l).h_expire key (current_ttl ttl_arr +ℤ delta) f)
        (pure tt) (h_expire-Stays (current_ttl ttl_arr +ℤ delta) f) (pure-Stays itself key tt)

  update_ttl-Stays :
      (f : String) (ts delta : ℤ)
      → Stays itself key (update_ttl (documented_server l) key f ts delta)
  unfolding update_ttl
  update_ttl-Stays f ts delta =
      let doc = documented_server l in
      let raise =
        λ (ttl_arr : List ℤ). doc.h_expire key (current_ttl ttl_arr +ℤ delta) f >> pure tt in
      if-Stays itself key (ltb_ℤ (pos 0) ts) (doc.h_expire_at key ts f >> pure tt)
        (if ltb_ℤ (pos 0) delta then (doc.h_ttl key f >>= raise) else pure tt)
        (then-Stays itself key (doc.h_expire_at key ts f) (pure tt) (h_expire_at-Stays ts f)
          (pure-Stays itself key tt))
        (if-Stays itself key (ltb_ℤ (pos 0) delta) (doc.h_ttl key f >>= raise) (pure tt)
          (>>=-Stays itself key (doc.h_ttl key f) raise ticked-Keeps (raised-Stays f delta))
          (pure-Stays itself key tt))

  take_or_update-Stays :
      (f : String) (flag : Bool) (ts delta : ℤ) (v : Bytes)
      → Stays itself key (take_or_update (documented_server l) key f flag ts delta v)
  unfolding take_or_update
  take_or_update-Stays f flag ts delta v =
      let doc = documented_server l in
      let reply : M Remote Value = pure (one (payload v)) in
      if-Stays itself key flag (doc.h_del key f >> reply) (update_ttl doc key f ts delta >> reply)
        (then-Stays itself key (doc.h_del key f) reply (h_del-Stays f)
          (pure-Stays itself key (one (payload v))))
        (then-Stays itself key (update_ttl doc key f ts delta) reply (update_ttl-Stays f ts delta)
          (pure-Stays itself key (one (payload v))))

  found_or_not :
      (f : String) (flag : Bool) (ts delta : ℤ) (o : Option Bytes)
      → Stays itself key (elim o as (λ _. M Remote Value) [
        | none ↦ pure (one null)
        | some v ↦ take_or_update (documented_server l) key f flag ts delta v
      ])
  found_or_not f flag ts delta none = pure-Stays itself key (one null)
  found_or_not f flag ts delta (some v) = take_or_update-Stays f flag ts delta v

  reply_or_nil-Stays : (v : Value) → Stays itself key (reply_or_nil l v)
  reply_or_nil-Stays (one null) s = same-Keeps key refl
  reply_or_nil-Stays (one (text f)) s = same-Keeps key refl
  reply_or_nil-Stays (one (payload v)) s = same-Keeps key refl
  reply_or_nil-Stays (one (integer n)) s = same-Keeps key refl
  reply_or_nil-Stays (array items) s = same-Keeps key refl

  or_nil-Stays : (o : Option Bytes) → Stays itself key (or_nil l o)
  or_nil-Stays none s = same-Keeps key refl
  or_nil-Stays (some v) s = same-Keeps key refl

  pub get_and_update_ttl-Stays :
      (f delete_arg : String) (ts delta : ℤ)
      → Stays itself key (get_and_update_ttl (documented_server l) key f delete_arg ts delta)
  unfolding get_and_update_ttl
  get_and_update_ttl-Stays f delete_arg ts delta =
      let flag = delete_arg == "1" || delete_arg == "true" in
      >>=-Stays itself key ((documented_server l).h_get key f)
        (λ value. elim value [
          | none ↦ pure (one null)
          | some v ↦ take_or_update (documented_server l) key f flag ts delta v
        ])
        ticked-Keeps (found_or_not f flag ts delta)

  h_set-Stays : (f : String) (v : Bytes) → Stays itself key (queued l (h_set key f v))
  unfolding queued
  h_set-Stays f v =
      then-Stays itself key (set_field l key f v) (pure tt) (set_field-Stays f v)
        (pure-Stays itself key tt)

  queued_expire-Stays : (t : Time) (f : String) → Stays itself key (queued l (h_expire_at key t f))
  unfolding queued
  queued_expire-Stays t f =
      then-Stays itself key ((documented_server l).h_expire_at key (unix t) f) (pure tt)
        (h_expire_at-Stays (unix t) f) (pure-Stays itself key tt)

  pub queue-Stays :
      (f : String) (v : Bytes) (t : Time) → Stays itself key (run_queue l (queue key f v t))
  unfolding run_queue
  queue-Stays f v t s = elim (Bool-cases (is_zero t)) [
    | inl zero ↦ rw zero (h_set-Stays f v s)
    | inr other ↦
        let s1 = (queued l (h_set key f v) s).1 in
        rw other (Keeps-trans (h_set-Stays f v s) (queued_expire-Stays t f s1))
  ]

  -- what the client makes of a reply
  pub replied-Stays :
      (m : M Remote Value) → Stays itself key m → Stays itself key (m >>= reply_or_nil l)
  replied-Stays m first = >>=-Stays itself key m (reply_or_nil l) first reply_or_nil-Stays

  pub h_get-Stays : (f : String) → Stays itself key ((documented_client l).h_get key f)
  h_get-Stays f =
      >>=-Stays itself key ((documented_server l).h_get key f) (or_nil l) ticked-Keeps or_nil-Stays
