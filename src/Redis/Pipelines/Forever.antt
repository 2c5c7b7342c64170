-- ===== src/Redis/Pipelines/Forever.antt =====
-- `Set` of cache/redis.go from two connections at once: an expiry that reaches the value of the other.
use cachefx.Prelude.{
  String, true, false, ◌≡◌, refl, ap, ◌∙◌, none, some, List, [], ◌∷◌, eq_refl, ℤ, ltb_ℤ,
}
use cachefx.Dict.{IsMap}
use cachefx.Errors.{Result, ok, err}
use cachefx.Redis.Calls.{M, pure, Command, h_set, h_expire_at}
use cachefx.Redis.Documented.{
  Remote, Latitude, documented_client, expire_field, has_ended, live_at, millis, queued, run_queue,
  set_field,
}
use cachefx.Redis.Fields.{field, expire_field-Wrote}
use cachefx.Redis.Storing.{fresh, fresh-Wrote, fresh_found}
use cachefx.Redis.Laws.{>>-ok}
use cachefx.Time.{is_zero, now, tick, unix}
use cachefx.Redis.Pipelines.{first, later, Handles, waiting, taking, Write, queues}

module _ (l : Latitude) (key f : String) (w v : Write) (s : Remote) where
  -- Both values first, and then the expiry of the first Set.
  abbrev crossed : List Command
  crossed = h_set key f w.value ∷ h_set key f v.value ∷ h_expire_at key w.deadline f ∷ []

  -- The server handles the two pipelines in some order to their ends, with no error, and the key has the
  -- value of the second Set with the expiry of the first.
  abbrev pub Crosses : Type 0
  Crosses =
      (cs : List Command) × Handles ([] ∷ [] ∷ []) (queues key f (w ∷ v ∷ [])) cs
      × ((run_queue l cs s).0 ≡ ok tt)
      × (field key (run_queue l cs s).1 f
          ≡ some (record { value = v.value; expires = some (millis (unix w.deadline)) }))

  crossed-Handles :
      is_zero w.deadline ≡ false
      → is_zero v.deadline ≡ true
      → Handles ([] ∷ [] ∷ []) (queues key f (w ∷ v ∷ [])) crossed
  crossed-Handles ends forever =
      rw (ends, forever)
        (taking (first _ _) (taking (later _ (first _ _)) (taking (first _ _) waiting)))

  -- a pipeline behind its last command
  abbrev last_of : Result (Unit {0}) × Remote → Result (Unit {0}) × Remote
  last_of (a, s1) = (elim a [ ok _ ↦ ok tt | err e ↦ err e ], s1)

  -- A value that is set for ever gets the expiry of another Set, if the server handles the two Sets of
  -- the key at the same time: the pipeline of Set is not atomic.
  pub set_forever_expires :
      IsMap (s.hashes key)
      → is_zero w.deadline ≡ false
      → l.in_range (unix w.deadline) ≡ true
      → ltb_ℤ (now (tick (tick s.clock))) (millis (unix w.deadline)) ≡ true
      → is_zero v.deadline ≡ true
      → Crosses
  unfolding run_queue queued set_field has_ended
  set_forever_expires m ends valid ahead forever =
      let s1 = fresh l key f w.value w.deadline s m in
      let m1 = (fresh-Wrote l key f w.value w.deadline s m).valid in
      let s2 = fresh l key f v.value v.deadline s1 m1 in
      let m2 = (fresh-Wrote l key f v.value v.deadline s1 m1).valid in
      let e = millis (unix w.deadline) in
      let (n, answer, wrote, _) =
        expire_field-Wrote l key f e (record { value = v.value; expires = none }) s2 m2
          (fresh_found l key f v.value v.deadline s1 m1) in
      let expire : M Remote (List ℤ) = (documented_client l).h_expire_at key w.deadline f in
      let taken : expire s2 ≡ expire_field l key e f s2 = rw valid refl in
      let run : run_queue l crossed s ≡ (ok tt, (expire s2).1) =
        ap last_of (>>-ok expire (pure tt) s2 (ap (λ x. x.0) taken ∙ answer)) in
      let there : field key (expire s2).1 f
          ≡ live_at (now s2.clock) (some (record { value = v.value; expires = some e })) =
        ap (λ x. field key x.1 f) taken ∙ wrote.written f ∙ rw eq_refl refl in
      (
        crossed,
        crossed-Handles ends forever,
        ap (λ x. x.0) run,
        ap (λ x. field key x.1 f) run ∙ there ∙ rw ahead refl,
      )
