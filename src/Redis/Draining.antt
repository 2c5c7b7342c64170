-- ===== src/Redis/Draining.antt =====
-- `Drain` of cache/redis.go over a client that behaves as documented.
use cachefx.Prelude.{
  Bool-cases, inl, inr, ℕ, Bytes, String, false, not, ◌≡◌, refl, ap, sym, ◌∙◌, subst, Option, none,
  some, [], ◌∷◌, ◌==◌, eq_refl, eq_iff, ℤ, arith,
}
use cachefx.Errors.{Result, ok, wrap}
use cachefx.Dict.{
  Dict, lookup, insert, retain, IsMap, lookup-insert, lookup-retain, retain-IsMap, only_if,
}
use cachefx.Time.{Duration, now}
use cachefx.Redis
use cachefx.Redis.{RedisCache, Host, read_pairs, read_reply, with_error}
use cachefx.Redis.Calls.{M, pure, ◌>>=◌, array, Value}
use cachefx.Redis.Documented.{
  Remote, Latitude, Field, documented_server, has_ended, live_at, found, put, removed, live_values,
  flat, value_of, reply_or_nil,
}
use cachefx.Redis.Scripts.{hgetall_and_delete, unlink_if_any, unlink_or_del}
use cachefx.Redis.Laws.{IsClient, >>-ok}
use cachefx.Redis.Methods.{seen, documented, drain-Follows}
use cachefx.Redis.Fields.{field}
use cachefx.Redis.Storing.{left}

-- HGETALL lists each field of the hash once, in some order.
pub record IsListing (l : Latitude) : Type 0 where
  pub once : (n : ℕ) (d : Dict Bytes) → IsMap d → IsMap (l.order n d)
  pub whole : (n : ℕ) (d : Dict Bytes) (k : String) → IsMap d → lookup k (l.order n d) ≡ lookup k d

live_values-lookup :
    (t : ℤ) (k : String) (d : Dict Field)
    → IsMap d
    → lookup k (live_values t d) ≡ value_of (live_at t (lookup k d))
unfolding lookup live_values
live_values-lookup t k [] m = refl
live_values-lookup t k ((j, f) ∷ d) m = ground (arith, eq_iff j k, live_values-lookup t k d m.1)

live_values-IsMap : (t : ℤ) (d : Dict Field) → IsMap d → IsMap (live_values t d)
unfolding lookup live_values
live_values-IsMap t [] m = tt
live_values-IsMap t ((j, f) ∷ d) m =
    ground (arith, live_values-lookup t j d m.1, live_values-IsMap t d m.1)

abbrev or_else : Option Bytes → Option Bytes → Option Bytes
or_else none o = o
or_else (some v) o = some v

-- The loop of `Drain` over a listing: it never runs off its end, and collects every field.
read_pairs-flat :
    (d : Dict Bytes) (out : Dict Bytes)
    → IsMap d
    → (items : Dict Bytes) × (read_pairs (flat d) out ≡ ok items)
      × ((k : String) → lookup k items ≡ or_else (lookup k d) (lookup k out))
unfolding read_pairs lookup
read_pairs-flat [] out m = (out, refl, λ k. refl)
read_pairs-flat ((j, v) ∷ d) out m =
    let (items, read, shown) = read_pairs-flat d (insert j v out) m.1 in
    (items, read, λ k. ground (arith, shown k, lookup-insert j k v out, eq_iff j k, m.0))

or_else-none : (o : Option Bytes) → or_else o none ≡ o
or_else-none none = refl
or_else-none (some v) = refl

value_of-none : (o : Option Field) → value_of o ≡ none → o ≡ none
value_of-none none e = refl
value_of-none (some f) e = absurd (ground (arith, e))

only_if-live : (t : ℤ) (o : Option Field) → only_if (λ f. not (has_ended f t)) o ≡ live_at t o
only_if-live t none = refl
only_if-live t (some f) = ground arith

-- The hash has no field, and the others are as they were.
pub record Emptied (key : String) (s s' : Remote) : Type 0 where
  pub valid : IsMap (s'.hashes key)
  pub gone : (k : String) → field key s' k ≡ none
  pub others : (j k : String) → (key == j) ≡ false → field j s' k ≡ field j s k

-- What a Drain answers and leaves.
abbrev pub DrainAnswers : String → Remote → Result (Dict Bytes) × Remote → Type 0
DrainAnswers key s a =
    (items : Dict Bytes) × (a.0 ≡ ok items)
    × ((k : String) → lookup k items ≡ value_of (found s key k))
    × Emptied key s a.1

module _ (l : Latitude) (key : String) (s : Remote) (m : IsMap (s.hashes key))
    (listing : IsListing l) where
  abbrev u : ℤ
  u = now s.clock

  abbrev purged : Remote
  purged = put key (retain (λ f. not (has_ended f u)) (s.hashes key)) s

  abbrev live : Dict Bytes
  live = live_values u (s.hashes key)

  abbrev listed : Dict Bytes
  listed = l.order s.clock.reads live

  listed_values : (k : String) → lookup k listed ≡ value_of (found s key k)
  listed_values k =
      listing.whole s.clock.reads live k (live_values-IsMap u (s.hashes key) m)
      ∙ live_values-lookup u k (s.hashes key) m

  purged-field : (k : String) → field key purged k ≡ found s key k
  purged-field k =
      let self : field key purged k ≡ lookup k (retain (λ f. not (has_ended f u)) (s.hashes key)) =
        rw eq_refl refl in
      self
      ∙ lookup-retain (λ f. not (has_ended f u)) k (s.hashes key) m
      ∙ only_if-live u (lookup k (s.hashes key))

  removed-Emptied : Emptied key s (removed key purged)
  unfolding lookup
  removed-Emptied = record {
    valid = rw eq_refl tt;
    gone = λ k. rw eq_refl refl;
    others = λ j k other. rw other refl;
  }

  -- with UNLINK or without it
  gone-Emptied :
      (r : Result (Unit {0}) × Remote)
      → r ≡ (ok tt, removed key purged)
      → (r.0 ≡ ok tt) × Emptied key s r.1
  gone-Emptied r e = subst (λ x. (x.0 ≡ ok tt) × Emptied key s x.1) (sym e) (refl, removed-Emptied)

  unlink_or_del-removed :
      unlink_or_del (documented_server l) key purged ≡ (ok tt, removed key purged)
  unfolding unlink_or_del
  unlink_or_del-removed = elim (Bool-cases l.has_unlink) [
    | inl known ↦ rw known refl
    | inr unknown ↦ rw unknown refl
  ]

  unlinked-Emptied :
      (d : Dict Bytes)
      → listed ≡ d
      → ((unlink_if_any (documented_server l) key (flat d) purged).0 ≡ ok tt)
        × Emptied key s (unlink_if_any (documented_server l) key (flat d) purged).1
  unfolding unlink_if_any lookup
  unlinked-Emptied [] e = (
    refl,
    record {
      valid = rw eq_refl (retain-IsMap (λ f. not (has_ended f u)) (s.hashes key) m);
      gone = λ k.
          let none_live : value_of (found s key k) ≡ none =
            sym (listed_values k) ∙ ap (lookup k) e in
          purged-field k ∙ value_of-none (found s key k) none_live;
      others = λ j k other. rw other refl;
    },
  )
  unlinked-Emptied ((k, v) ∷ d) e =
      gone-Emptied (unlink_or_del (documented_server l) key purged) unlink_or_del-removed

module _ {S : Type 0} (view : S → Remote) (l : Latitude) (seconds : Duration → ℤ)
    (r : RedisCache S) where
  -- `Drain` of the documented client behind the script
  abbrev behind_script : Host Remote → Result Value × Remote → Result (Dict Bytes) × Host Remote
  behind_script h x =
      let e = ((λ _. x) >>= reply_or_nil l) h.remote in
      ((λ _. (with_error (wrap "failed to drain cache: %w") e.0, record h { remote = e.1 }))
          >>= λ res h1. (read_reply res, h1))
        h

  drain-Answers :
      (h : Host Remote)
      → IsMap (h.remote.hashes r.key)
      → IsListing l
      → DrainAnswers r.key h.remote (left (λ s. s) (Redis.drain seconds (documented l r) h))
  unfolding Redis.drain hgetall_and_delete read_reply lookup
  drain-Answers h m listing =
      let d = listed l r.key h.remote m listing in
      let s1 = purged l r.key h.remote m listing in
      let unlink = unlink_if_any (documented_server l) r.key (flat d) in
      let reply : M Remote Value = pure (array (flat d)) in
      let (answer, emptied) = unlinked-Emptied l r.key h.remote m listing d refl in
      let whole =
        listing.once h.remote.clock.reads (live l r.key h.remote m listing)
          (live_values-IsMap (now h.remote.clock) (h.remote.hashes r.key) m) in
      let (items, read, shown) = read_pairs-flat d [] whole in
      let eq : Redis.drain seconds (documented l r) h
          ≡ (read_pairs (flat d) [], record h { remote = (unlink s1).1 }) =
        ap (behind_script h) (>>-ok unlink reply s1 answer) in
      rw eq (
        items,
        read,
        λ k. shown k ∙ or_else-none (lookup k d) ∙ listed_values l r.key h.remote m listing k,
        emptied,
      )

  -- Drain over a client that behaves as documented, whatever the order in which the server lists a
  -- hash, and whether or not it has UNLINK: it
  -- answers the values of exactly the fields that have not expired, and leaves the hash empty and
  -- every other as it was.
  pub redis_drain_lem :
      (h : Host S)
      → IsClient view l r.client
      → IsMap ((view h.remote).hashes r.key)
      → IsListing l
      → DrainAnswers r.key (view h.remote) (left view (Redis.drain seconds r h))
  redis_drain_lem h v m listing =
      let (same, state) = drain-Follows view l r v seconds h in
      subst (DrainAnswers r.key (view h.remote))
        (λ i. (sym same i, sym (ap (λ x. x.remote) state) i))
        (drain-Answers (seen view h) m listing)
