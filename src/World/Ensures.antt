-- ===== src/World/Ensures.antt =====
-- What an action brings about when it returns: from a state with one property, to a state with
-- another.
use geo_optimizer.Errors.{Error, Result, ok, err}
use geo_optimizer.Base.{refl, ◌≡◌}
use geo_optimizer.Storage.{Store}
use geo_optimizer.World.{
  storing, store_result, World, Exec, raise, gets, modify, try_except, try_finally, on_error,
  continue, ◌>>=◌, then_finally, finishing,
}
use geo_optimizer.World.Keeps.{Keeps}

-- A property of the state in which something is returned.
abbrev pub Holds : {A : Type 0} → (World → Type 0) → Result A × World → Type 0
Holds Q (ok a, w) = Q w
Holds Q (err e, w) = Unit

pub record Ensures {A : Type 0} (P : World → Type 0) (m : Exec A) (Q : World → Type 0)
    : Type 0 where
  pub at : (w : World) → P w → Holds Q (m w)

failing :
    (A : Type 0) (Q : World → Type 0) (e : Error) (s : Result (Unit {0}) × World)
    → Holds Q (finishing {A = A} (err e) s)
unfolding finishing
failing A Q e (ok _, v) = tt
failing A Q e (err e', v) = tt

stored :
    (Q : World → Type 0) (r : Result Store) (w : World)
    → ((s : Store) → r ≡ ok s → Q (record w { store = s }))
    → Holds Q (store_result r w)
unfolding store_result
stored Q (ok s) w k = k s refl
stored Q (err e) w k = tt

pub Ensures-storing :
    {P Q : World → Type 0} (f : Store → Result Store)
    → ((w : World) (s : Store) → P w → f w.store ≡ ok s → Q (record w { store = s }))
    → Ensures P (storing f) Q
unfolding storing
Ensures-storing {Q} f k = record { at = λ w h. stored Q (f w.store) w (λ s e. k w s h e) }

module _ {A : Type 0} (Q : World → Type 0) where
  holds : (r : Result A × World) → Q r.1 → Holds Q r
  holds (ok a, w) h = h
  holds (err e, w) h = tt

  caught :
      (r : Result A × World) (handler : Error → Exec A)
      → Holds Q r
      → ((e : Error) → Ensures (λ w. Unit {0}) (handler e) Q)
      → Holds Q (on_error r handler)
  unfolding on_error
  caught (ok a, w) handler h k = h
  caught (err e, w) handler h k = (k e).at w tt

  closing : (a : A) (s : Result (Unit {0}) × World) → Q s.1 → Holds Q (finishing (ok a) s)
  unfolding finishing
  closing a (ok _, v) q = q
  closing a (err e, v) q = tt

  finished :
      (r : Result A × World) (last : Exec (Unit {0}))
      → Holds Q r
      → Keeps Q last
      → Holds Q (then_finally r last)
  unfolding then_finally
  finished (ok a, w) last h k = closing a (last w) (k.at w h)
  finished (err e, w) last h k = failing A Q e (last w)

  continued :
      {B : Type 0} (R : World → Type 0) (r : Result A × World) (f : A → Exec B)
      → Holds Q r
      → ((a : A) → Ensures Q (f a) R)
      → Holds R (continue r f)
  unfolding continue
  continued R (ok a, w) f h k = (k a).at w h
  continued R (err e, w) f h k = tt

pub Ensures-Keeps : {A : Type 0} {P : World → Type 0} (m : Exec A) → Keeps P m → Ensures P m P
Ensures-Keeps {P} m k = record { at = λ w h. holds P (m w) (k.at w h) }

pub Ensures-modify :
    {P Q : World → Type 0} (f : World → World)
    → ((w : World) → P w → Q (f w))
    → Ensures P (modify f) Q
unfolding modify
Ensures-modify f k = record { at = k }

module _ {A : Type 0} {P Q : World → Type 0} where
  pub Ensures-raise : (e : Error) → Ensures P (raise {A = A} e) Q
  unfolding raise
  Ensures-raise e = record { at = λ w h. tt }

  -- The handler may start from any state.
  pub Ensures-try_except :
      (m : Exec A) (handler : Error → Exec A)
      → Ensures P m Q
      → ((e : Error) → Ensures (λ w. Unit {0}) (handler e) Q)
      → Ensures P (try_except m handler) Q
  unfolding try_except
  Ensures-try_except m handler em eh = record { at = λ w h. caught Q (m w) handler (em.at w h) eh }

  pub Ensures-try_finally :
      (m : Exec A) (last : Exec (Unit {0}))
      → Ensures P m Q
      → Keeps Q last
      → Ensures P (try_finally m last) Q
  unfolding try_finally
  Ensures-try_finally m last em kl = record { at = λ w h. finished Q (m w) last (em.at w h) kl }

pub Ensures-bind :
    {A B : Type 0} {P Q R : World → Type 0} (m : Exec A) (f : A → Exec B)
    → Ensures P m Q
    → ((a : A) → Ensures Q (f a) R)
    → Ensures P (m >>= f) R
unfolding ◌>>=◌
Ensures-bind {Q} {R} m f em ef = record { at = λ w h. continued Q R (m w) f (em.at w h) ef }

-- What was read is known to what follows.
pub Ensures-gets :
    {A B : Type 0} {P R : World → Type 0} (f : World → A) (k : A → Exec B)
    → ((a : A) → Ensures (λ w. P w × (f w ≡ a)) (k a) R)
    → Ensures P (gets f >>= k) R
unfolding ◌>>=◌ gets continue
Ensures-gets f k ek = record { at = λ w h. (ek (f w)).at w (h, refl) }

pub Ensures-any : {A : Type 0} (m : Exec A) → Ensures (λ w. Unit {0}) m (λ w. Unit {0})
Ensures-any m = Ensures-Keeps m (record { at = λ w h. tt })
