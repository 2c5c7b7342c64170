-- ===== src/Redis/Laws.antt =====
-- When a client and its server behave as documented: every call answers what `Redis.Documented` says of
-- an abstract state, and leaves the state that it says. The connection then never fails.
use cachefx.Prelude.{Bytes, String, Bool, true, false, if◌then◌else◌, ◌≡◌, refl, subst, List, ℤ}
use cachefx.Errors.{Result, ok, err}
use cachefx.Time.{Time}
use cachefx.Redis.Calls.{M, ◌>>=◌, ◌>>◌, pure, Value, Command, Server, Client}
use cachefx.Redis.Documented.{Remote, Latitude, documented_server, documented_client}

pub >>=-ok :
    {S A B : Type 0} (m : M S A) (f : A → M S B) (s : S) {a : A}
    → (m s).0 ≡ ok a
    → (m >>= f) s ≡ f a (m s).1
>>=-ok m f s answer = rw (answer, ◌>>=◌) refl

pub >>-ok :
    {S A B : Type 0} (m : M S A) (n : M S B) (s : S) {a : A}
    → (m s).0 ≡ ok a
    → (m >> n) s ≡ n (m s).1
>>-ok m n s answer = >>=-ok m (λ _. n) s answer

-- The same answer, and behind it the same state, seen through a view.
module _ {S T : Type 0} (view : S → T) where
  abbrev pub Follows : {A : Type 0} → M S A → M T A → Type 0
  Follows m n = (s : S) → ((m s).0 ≡ (n (view s)).0) × (view (m s).1 ≡ (n (view s)).1)

  pub pure-Follows : {A : Type 0} (a : A) → Follows (pure a) (pure a)
  pure-Follows a s = (refl, refl)

  abbrev Same : {A : Type 0} → Result A × S → Result A × T → Type 0
  Same x y = (x.0 ≡ y.0) × (view x.1 ≡ y.1)

  pub if-Follows :
      {A : Type 0} (b : Bool) (m m' : M S A) (n n' : M T A)
      → Follows m n
      → Follows m' n'
      → Follows (if b then m else m') (if b then n else n')
  if-Follows true m m' n n' h k = h
  if-Follows false m m' n n' h k = k

  -- What handles an answer, one way and the other, keeps the two together.
  pub handled-Follows :
      {A B : Type 0} (m : M S A) (n : M T A) (f : Result A → M S B) (g : Result A → M T B)
      → Follows m n
      → ((r : Result A) → Follows (f r) (g r))
      → Follows (λ s. f (m s).0 (m s).1) (λ t. g (n t).0 (n t).1)
  handled-Follows {A = A} m n f g h k s =
      let answered = λ (x : Result A × T). Same (f (m s).0 (m s).1) (g x.0 x.1) in
      subst (λ r. answered (r, (n (view s)).1)) (h s).0
        (subst (λ t. answered ((m s).0, t)) (h s).1 (k (m s).0 (m s).1))

  module _ {A B : Type 0} (f : A → M S B) (g : A → M T B) (k : (a : A) → Follows (f a) (g a)) where
    continued :
        (r : Result A)
        → Follows {A = B}
            (λ s. elim r [ ok a ↦ f a s | err e ↦ (err e, s) ])
            (λ t. elim r [ ok a ↦ g a t | err e ↦ (err e, t) ])
    continued (ok a) s = k a s
    continued (err e) s = (refl, refl)

    -- Two computations that follow one another step by step do so as a whole.
    pub >>=-Follows : (m : M S A) (n : M T A) → Follows m n → Follows (m >>= f) (n >>= g)
    >>=-Follows m n h =
        handled-Follows m n (λ r s. elim r [ ok a ↦ f a s | err e ↦ (err e, s) ])
          (λ r t. elim r [ ok a ↦ g a t | err e ↦ (err e, t) ]) h continued

  pub then-Follows :
      {A B : Type 0} (m : M S A) (n : M T A) (f : M S B) (g : M T B)
      → Follows m n
      → Follows f g
      → Follows (m >> f) (n >> g)
  then-Follows m n f g h k = >>=-Follows (λ _. f) (λ _. g) (λ _. k) m n h

module _ {S : Type 0} (view : S → Remote) where
  pub record IsServer (l : Latitude) (server : Server S) : Type 0 where
    pub h_get :
        (key f : String) → Follows view (server.h_get key f) ((documented_server l).h_get key f)
    pub h_del :
        (key f : String) → Follows view (server.h_del key f) ((documented_server l).h_del key f)
    pub h_get_all :
        (key : String) → Follows view (server.h_get_all key) ((documented_server l).h_get_all key)
    pub h_expire_at :
        (key : String) (e : ℤ) (f : String)
        → Follows view (server.h_expire_at key e f) ((documented_server l).h_expire_at key e f)
    pub h_expire :
        (key : String) (ttl : ℤ) (f : String)
        → Follows view (server.h_expire key ttl f) ((documented_server l).h_expire key ttl f)
    pub h_ttl :
        (key f : String) → Follows view (server.h_ttl key f) ((documented_server l).h_ttl key f)
    pub unlink :
        (key : String) → Follows view (server.unlink key) ((documented_server l).unlink key)
    pub del : (key : String) → Follows view (server.del key) ((documented_server l).del key)

  -- `eval` runs any script in one step, and answers what it answers.
  pub record IsClient (l : Latitude) (client : Client S) : Type 0 where
    pub server : IsServer l client.server
    pub h_get :
        (key f : String) → Follows view (client.h_get key f) ((documented_client l).h_get key f)
    pub h_del :
        (key f : String) → Follows view (client.h_del key f) ((documented_client l).h_del key f)
    pub h_set_nx :
        (key f : String) (v : Bytes)
        → Follows view (client.h_set_nx key f v) ((documented_client l).h_set_nx key f v)
    pub h_expire_at :
        (key : String) (t : Time) (f : String)
        → Follows view (client.h_expire_at key t f) ((documented_client l).h_expire_at key t f)
    pub pipelined :
        (cs : List Command)
        → Follows view (client.pipelined cs) ((documented_client l).pipelined cs)
    pub eval :
        (m : M S Value) (n : M Remote Value)
        → Follows view m n
        → Follows view (client.eval m) ((documented_client l).eval n)
    pub close : Follows view client.close (documented_client l).close
