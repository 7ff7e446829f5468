-- ===== src/World/Raises.antt =====
-- Which exceptions an action can raise.
use geo_optimizer.Base.{◌≡◌}
use geo_optimizer.Errors.{Error, Result, ok, err}
use geo_optimizer.Storage.{Store}
use geo_optimizer.World.{
  World, Env, Exec, Measure, pure, raise, gets, modify, storing, try_except, try_finally, now,
  perf_counter, uuid4, measure, ◌>>=◌,
}
use geo_optimizer.World.Does.{
  Does, Meets, Does-pure, Does-raise, Does-modify, Does-storing, Does-bind, Does-gets, Does-weaken,
  Does-try_except, Does-try_finally, Does-Keeps,
}

abbrev pub Always : World → Type 0
Always w = Unit

-- What it raises satisfies `E`.
abbrev pub Raises : {A : Type 0} → (Error → Type 0) → Exec A → Type 0
Raises E m = Does Always m (λ _. Always) (λ e w. E e)

module _ (E : Error → Type 0) where
  pub Raises-pure : {A : Type 0} (a : A) → Raises E (pure a)
  Raises-pure a = Does-pure _ _ a (λ w h. tt)

  pub Raises-raise : {A : Type 0} (e : Error) → E e → Raises E (raise {A = A} e)
  Raises-raise e h = Does-raise _ _ e (λ w _. h)

  pub Raises-modify : (f : World → World) → Raises E (modify f)
  Raises-modify f = Does-modify _ _ f (λ w h. tt)

  pub Raises-now : (env : Env) → Raises E (now env)
  unfolding now
  Raises-now env = record { at = λ w h. tt }

  pub Raises-perf_counter : (env : Env) → Raises E (perf_counter env)
  unfolding perf_counter
  Raises-perf_counter env = record { at = λ w h. tt }

  pub Raises-uuid4 : (env : Env) → Raises E (uuid4 env)
  unfolding uuid4
  Raises-uuid4 env = record { at = λ w h. tt }

  pub Raises-measure : (m : Measure) → Raises E (measure m)
  unfolding measure
  Raises-measure m = Raises-modify _

  pub Raises-storing :
      (f : Store → Result Store)
      → ((s : Store) (e : Error) → f s ≡ err e → E e)
      → Raises E (storing f)
  Raises-storing f k = Does-storing _ _ f (λ w s h u. tt) (λ w e h u. k w.store e u)

  pub Raises-bind :
      {A B : Type 0} (m : Exec A) (f : A → Exec B)
      → Raises E m
      → ((a : A) → Raises E (f a))
      → Raises E (m >>= f)
  Raises-bind m f d k = Does-bind _ _ _ m f d k

  pub Raises-gets :
      {A B : Type 0} (f : World → A) (k : A → Exec B)
      → ((a : A) → Raises E (k a))
      → Raises E (gets f >>= k)
  Raises-gets f k d =
      Does-gets _ _ f k
        (λ a. Does-weaken _ _ _ _ (k a) (d a) (λ w h. tt) (λ b w h. tt) (λ e w h. h))

  pub Raises-try_except :
      {A : Type 0} (E' : Error → Type 0) (m : Exec A) (handler : Error → Exec A)
      → Raises E' m
      → ((e : Error) → E' e → Raises E (handler e))
      → Raises E (try_except m handler)
  Raises-try_except E' m handler d k =
      Does-try_except _ _ (λ e w. E' e) m handler d (λ e. record { at = λ w h. (k e h).at w tt })

  failing_still :
      (e : Error) (r : Result (Unit {0}) × World)
      → E e
      → Meets (λ _. Always) (λ x w. E x) r
      → Meets (λ _ w. E e) (λ x w. E x) r
  failing_still e (ok a, w) h k = h
  failing_still e (err x, w) h k = k

  pub Raises-try_finally :
      {A : Type 0} (m : Exec A) (last : Exec (Unit {0}))
      → Raises E m
      → Raises E last
      → Raises E (try_finally m last)
  Raises-try_finally m last d k =
      Does-try_finally _ _ m last d (λ a. k)
        (λ e. record { at = λ w h. failing_still e (last w) h (k.at w tt) })

pub Raises-any : {A : Type 0} (m : Exec A) → Raises (λ e. Unit) m
Raises-any m =
    Does-weaken _ _ _ _ m (Does-Keeps m (record { at = λ w h. tt })) (λ w h. h) (λ a w h. h)
      (λ e w h. tt)
