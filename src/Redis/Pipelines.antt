-- ===== src/Redis/Pipelines.antt =====
-- `Set` of cache/redis.go from many connections at once: the server handles the commands of their
-- pipelines one by one, those of each pipeline in their order.
pub mod Mixing
pub mod Forever
use cachefx.Prelude.{
  Bytes, String, true, false, ◌≡◌, refl, ap, sym, ◌∙◌, subst, Option, none, some, List, [], ◌∷◌,
  eq_refl, ℤ, ltb_ℤ, Bool-cases, Option-cases, inl, inr, ◌==◌, eq_iff, ◌⊎◌,
}
use cachefx.Dict.{IsMap}
use cachefx.Errors.{Result, ok, err}
use cachefx.Redis.{queue}
use cachefx.Redis.Calls.{M, ◌>>◌, pure, Command, h_set, h_expire_at}
use cachefx.Redis.Documented.{
  Remote, Latitude, Field, documented_client, expire_field, found, has_ended, live_at, millis,
  queued, run_queue, set_field, ticked,
}
use cachefx.Redis.Fields.{field, Wrote, expire_field-Wrote, Wrote-trans, Wrote-ticked}
use cachefx.Redis.Storing.{fresh, fresh-Wrote, fresh_found}
use cachefx.Redis.Laws.{>>-ok}
use cachefx.Time.{Time, is_zero, now, tick, unix}

-- The server takes the first command of one of the pipelines.
pub data Takes (c : Command) : List (List Command) → List (List Command) → Type 0 where
  first : (q : List Command) (qs : List (List Command)) → Takes c ((c ∷ q) ∷ qs) (q ∷ qs)
  later :
      (q : List Command) {qs rest : List (List Command)}
      → Takes c qs rest
      → Takes c (q ∷ qs) (q ∷ rest)

-- The commands that the server has handled, and what is left of the pipelines.
pub data Handles (rest : List (List Command)) : List (List Command) → List Command → Type 0 where
  waiting : Handles rest rest []
  taking :
      {c : Command} {qs after : List (List Command)} {cs : List Command}
      → Takes c qs after
      → Handles rest after cs
      → Handles rest qs (c ∷ cs)

-- what a Set stores
pub record Write : Type 0 where
  pub value : Bytes
  pub deadline : Time

-- The Set is one of the list.
abbrev pub Among : Write → List Write → Type 0
Among w [] = ⊥
Among w (v ∷ sets) = (w ≡ v) ⊎ Among w sets

-- The pipelines of the Sets of a key.
abbrev pub queues : String → String → List Write → List (List Command)
queues key f [] = []
queues key f (w ∷ sets) = queue key f w.value w.deadline ∷ queues key f sets

-- an expiry that one of the Sets asks for, or none
abbrev pub Expiry : List Write → Option ℤ → Type 0
Expiry sets none = Unit
Expiry sets (some e) = (w : Write) × Among w sets × (e ≡ millis (unix w.deadline))

-- the value of one of the Sets with the expiry of one of them, which may be another one, or no field
abbrev pub Mixed : List Write → Option Field → Type 0
Mixed sets none = Unit
Mixed sets (some x) = ((w : Write) × Among w sets × (x.value ≡ w.value)) × Expiry sets x.expires

-- A command of one of the Sets.
pub data Asks (key f : String) (sets : List Write) : Command → Type 0 where
  value_of : (w : Write) → Among w sets → Asks key f sets (h_set key f w.value)
  deadline_of : (w : Write) → Among w sets → Asks key f sets (h_expire_at key w.deadline f)

module _ (key f : String) (sets : List Write) where
  abbrev pub Ask : List Command → Type 0
  Ask [] = Unit
  Ask (c ∷ cs) = Asks key f sets c × Ask cs

  abbrev pub AllAsk : List (List Command) → Type 0
  AllAsk [] = Unit
  AllAsk (q ∷ qs) = Ask q × AllAsk qs

  queue-Ask : (w : Write) → Among w sets → Ask (queue key f w.value w.deadline)
  queue-Ask w m = elim (Bool-cases (is_zero w.deadline)) [
    | inl zero ↦ rw zero (value_of w m, tt)
    | inr other ↦ rw other (value_of w m, (deadline_of w m, tt))
  ]

  pub queues-AllAsk :
      (some_sets : List Write)
      → ((w : Write) → Among w some_sets → Among w sets)
      → AllAsk (queues key f some_sets)
  queues-AllAsk [] h = tt
  queues-AllAsk (w ∷ ws) h = (queue-Ask w (h w (inl refl)), queues-AllAsk ws (λ v m. h v (inr m)))

  pub Takes-Asks :
      {c : Command} {qs rest : List (List Command)}
      → Takes c qs rest
      → AllAsk qs
      → Asks key f sets c × AllAsk rest
  Takes-Asks (first q qs) a = (a.0.0, (a.0.1, a.1))
  Takes-Asks (later q t) a = let (asked, b) = Takes-Asks t a.1 in (asked, (a.0, b))

  pub Handles-Ask :
      {rest qs : List (List Command)} {cs : List Command} → Handles rest qs cs → AllAsk qs → Ask cs
  Handles-Ask waiting a = tt
  Handles-Ask (taking t h) a = let (asked, b) = Takes-Asks t a in (asked, Handles-Ask h b)

  -- The first command of all is a HSET.
  pub first_is_h_set :
      {c : Command} (some_sets : List Write) {rest : List (List Command)}
      → Takes c (queues key f some_sets) rest
      → (w : Write) × Among w some_sets × (c ≡ h_set key f w.value)
  first_is_h_set [] t = elim t [ ]
  first_is_h_set (w ∷ ws) (first q qs) = (w, inl refl, refl)
  first_is_h_set (w ∷ ws) (later q t) = let (v, m, e) = first_is_h_set ws t in (v, inr m, e)
