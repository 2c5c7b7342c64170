-- ===== src/Redis/Holds.antt =====
-- A hash of the server of cache/redis.go whose fields live for ever, as a map from keys to values.
use cachefx.Prelude.{
  Bytes, String, false, ◌≡◌, refl, ap, ◌∙◌, sym, Option, none, some, [], ◌==◌, if◌then◌else◌, ℤ,
  Bool-cases, inl, inr, eq_iff,
}
use cachefx.Dict.{IsMap}
use cachefx.Options.{apply}
use cachefx.Time.{Duration, Clock, zero_time, is_positive, now}
use cachefx.Cache.Plain
use cachefx.Cache.Plain.{
  Values, Step, IsPlain, Call, play, serve, run, run-Step, status, bytes, contents, set,
  set_or_fail, get, get_and_delete, delete, cleanup, drain, shown_items,
}
use cachefx.Redis.{base_options, item_options}
use cachefx.Redis.Documented.{Remote, Field, found, live_at, has_ended, value_of, ticked}
use cachefx.Redis.Fields.{field, Wrote}
use cachefx.Redis.Storing.{deadline}
use cachefx.Redis.Evaluating.{plain_reply}

-- a field that lives for ever
abbrev pub lasting : Option Bytes → Option Field
lasting none = none
lasting (some v) = some (record { value = v; expires = none })

-- The hash is well formed and holds the values for ever.
pub record Holds (key : String) (s : Remote) (m : Values) : Type 0 where
  pub valid : IsMap (s.hashes key)
  pub fields : (k : String) → field key s k ≡ lasting (m k)

live-lasting : (u : ℤ) (o : Option Bytes) → live_at u (lasting o) ≡ lasting o
unfolding has_ended
live-lasting u none = refl
live-lasting u (some v) = refl

write-lasting :
    (k : String) (o : Option Bytes) (m : Values) (j : String)
    → (if k == j then lasting o else lasting (m j)) ≡ lasting (Plain.write k o m j)
write-lasting k o m j = elim (Bool-cases (k == j)) [
  | inl same ↦ rw same refl
  | inr other ↦ rw other refl
]

pub reply-lasting : (o : Option Bytes) → plain_reply (lasting o) ≡ Plain.value_or_missing o
reply-lasting none = refl
reply-lasting (some v) = refl

pub value-lasting : (o : Option Bytes) → value_of (lasting o) ≡ o
value-lasting none = refl
value-lasting (some v) = refl

module _ (key k : String) {s : Remote} {m : Values} (h : Holds key s m) where
  pub found-lasting : found s key k ≡ lasting (m k)
  found-lasting = ap (live_at (now s.clock)) (h.fields k) ∙ live-lasting (now s.clock) (m k)

  pub Wrote-Holds :
      (o : Option Bytes) (s' : Remote)
      → Wrote key k (lasting o) s s'
      → Holds key s' (Plain.write k o m)
  Wrote-Holds o s' wrote = record {
    valid = wrote.valid;
    fields = λ j.
        wrote.written j
        ∙ ap (λ x. if k == j then lasting o else x) (h.fields j)
        ∙ write-lasting k o m j;
  }

  -- What is taken from a key that has nothing.
  pub absent-Holds : m k ≡ none → Holds key (ticked s) (Plain.write k none m)
  absent-Holds e = record {
    valid = h.valid;
    fields = λ j. h.fields j ∙ elim (Bool-cases (k == j)) [
      | inl same ↦ rw same (ap lasting (ap m (sym ((eq_iff k j).0 same)) ∙ e))
      | inr other ↦ rw other refl
    ];
  }

pub no_deadline :
    (ttl : Duration) (c : Clock) → is_positive ttl ≡ false → deadline ttl [] c ≡ zero_time
unfolding item_options base_options apply
no_deadline ttl c none_set = rw (none_set, deadline, item_options, base_options) refl
