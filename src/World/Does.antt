-- ===== src/World/Does.antt =====
-- What an action does from a state: what holds of the value and the state when it returns, and of
-- the exception and the state when it raises.
use mathlib.Core.Path.{subst}
use geo_optimizer.Base.{inl, inr, refl, sym, ◌≡◌, ◌⊎◌}
use geo_optimizer.Errors.{Error, Result, ok, err}
use geo_optimizer.Storage.{Store}
use geo_optimizer.World.{
  World, Exec, pure, raise, gets, modify, storing, store_result, try_except, try_finally, on_error,
  then_finally, finishing, continue, ◌>>=◌,
}
use geo_optimizer.World.Keeps.{Keeps}

abbrev pub Meets :
    {A : Type 0} → (A → World → Type 0) → (Error → World → Type 0) → Result A × World → Type 0
Meets Q E (ok a, w) = Q a w
Meets Q E (err e, w) = E e w

pub record Does {A : Type 0} (P : World → Type 0) (m : Exec A) (Q : A → World → Type 0)
    (E : Error → World → Type 0) : Type 0 where
  pub at : (w : World) → P w → Meets Q E (m w)

module _ {A : Type 0} (Q : A → World → Type 0) (E : Error → World → Type 0) where
  pub Does-pure : {P : World → Type 0} (a : A) → ((w : World) → P w → Q a w) → Does P (pure a) Q E
  unfolding pure
  Does-pure a k = record { at = k }

  pub Does-raise :
      {P : World → Type 0} (e : Error) → ((w : World) → P w → E e w) → Does P (raise e) Q E
  unfolding raise
  Does-raise e k = record { at = k }

  met_again :
      {Q' : A → World → Type 0} {E' : Error → World → Type 0} (r : Result A × World)
      → ((a : A) (w : World) → Q' a w → Q a w)
      → ((e : Error) (w : World) → E' e w → E e w)
      → Meets Q' E' r
      → Meets Q E r
  met_again (ok a, w) q e h = q a w h
  met_again (err x, w) q e h = e x w h

  pub Does-weaken :
      {P P' : World → Type 0} (Q' : A → World → Type 0) (E' : Error → World → Type 0) (m : Exec A)
      → Does P' m Q' E'
      → ((w : World) → P w → P' w)
      → ((a : A) (w : World) → Q' a w → Q a w)
      → ((e : Error) (w : World) → E' e w → E e w)
      → Does P m Q E
  Does-weaken Q' E' m d p q e = record { at = λ w h. met_again (m w) q e (d.at w (p w h)) }

  kept : (r : Result A × World) → ((a : A) → Q a r.1) → ((e : Error) → E e r.1) → Meets Q E r
  kept (ok a, w) q e = q a
  kept (err x, w) q e = e x

  caught :
      (E' : Error → World → Type 0) (r : Result A × World) (handler : Error → Exec A)
      → Meets Q E' r
      → ((e : Error) → Does (E' e) (handler e) Q E)
      → Meets Q E (on_error r handler)
  unfolding on_error
  caught E' (ok a, w) handler h k = h
  caught E' (err e, w) handler h k = (k e).at w h

  pub Does-try_except :
      {P : World → Type 0} (E' : Error → World → Type 0) (m : Exec A) (handler : Error → Exec A)
      → Does P m Q E'
      → ((e : Error) → Does (E' e) (handler e) Q E)
      → Does P (try_except m handler) Q E
  unfolding try_except
  Does-try_except E' m handler d k = record { at = λ w h. caught E' (m w) handler (d.at w h) k }

-- An invariant, and what follows from it whichever way the action ends.
pub Does-Keeps :
    {A : Type 0} {P : World → Type 0} (m : Exec A) → Keeps P m → Does P m (λ a. P) (λ e. P)
Does-Keeps {P} m k = record {
  at = λ w h. kept (λ a. P) (λ e. P) (m w) (λ a. k.at w h) (λ e. k.at w h);
}

module _ (Q : World → Type 0) (E : Error → World → Type 0) where
  pub Does-modify :
      {P : World → Type 0} (f : World → World)
      → ((w : World) → P w → Q (f w))
      → Does P (modify f) (λ _. Q) E
  unfolding modify
  Does-modify f k = record { at = k }

  stored :
      (r : Result Store) (w : World)
      → ((s : Store) → r ≡ ok s → Q (record w { store = s }))
      → ((e : Error) → r ≡ err e → E e w)
      → Meets (λ (_ : Unit {0}). Q) E (store_result r w)
  unfolding store_result
  stored (ok s) w q e = q s refl
  stored (err x) w q e = e x refl

  pub Does-storing :
      {P : World → Type 0} (f : Store → Result Store)
      → ((w : World) (s : Store) → P w → f w.store ≡ ok s → Q (record w { store = s }))
      → ((w : World) (e : Error) → P w → f w.store ≡ err e → E e w)
      → Does P (storing f) (λ _. Q) E
  unfolding storing
  Does-storing f q e = record {
    at = λ w h. stored (f w.store) w (λ s u. q w s h u) (λ x u. e w x h u);
  }

module _ {A B : Type 0} (Q : A → World → Type 0) (R : B → World → Type 0)
    (E : Error → World → Type 0) where
  continued :
      (r : Result A × World) (f : A → Exec B)
      → Meets Q E r
      → ((a : A) → Does (Q a) (f a) R E)
      → Meets R E (continue r f)
  unfolding continue
  continued (ok a, w) f h k = (k a).at w h
  continued (err e, w) f h k = h

  pub Does-bind :
      {P : World → Type 0} (m : Exec A) (f : A → Exec B)
      → Does P m Q E
      → ((a : A) → Does (Q a) (f a) R E)
      → Does P (m >>= f) R E
  unfolding ◌>>=◌
  Does-bind m f d k = record { at = λ w h. continued (m w) f (d.at w h) k }

-- What was read is known to what follows.
pub Does-gets :
    {A B : Type 0} {P : World → Type 0} (R : B → World → Type 0) (E : Error → World → Type 0)
    (f : World → A) (k : A → Exec B)
    → ((a : A) → Does (λ w. P w × (f w ≡ a)) (k a) R E)
    → Does P (gets f >>= k) R E
unfolding ◌>>=◌ gets continue
Does-gets R E f k d = record { at = λ w h. (d (f w)).at w (h, refl) }

module _ {A : Type 0} (Q : A → World → Type 0) (E : Error → World → Type 0) where
  closing :
      (a : A) (s : Result (Unit {0}) × World)
      → Meets (λ (_ : Unit {0}). Q a) E s
      → Meets Q E (finishing (ok a) s)
  unfolding finishing
  closing a (ok _, v) h = h
  closing a (err e, v) h = h

  failing :
      (e : Error) (s : Result (Unit {0}) × World)
      → Meets (λ (_ : Unit {0}). E e) E s
      → Meets Q E (finishing (err e) s)
  unfolding finishing
  failing e (ok _, v) h = h
  failing e (err x, v) h = h

  finished :
      (r : Result A × World) (last : Exec (Unit {0}))
      → Meets Q E r
      → ((a : A) → Does (Q a) last (λ _. Q a) E)
      → ((e : Error) → Does (E e) last (λ _. E e) E)
      → Meets Q E (then_finally r last)
  unfolding then_finally
  finished (ok a, w) last h q e = closing a (last w) ((q a).at w h)
  finished (err x, w) last h q e = failing x (last w) ((e x).at w h)

  pub Does-try_finally :
      {P : World → Type 0} (m : Exec A) (last : Exec (Unit {0}))
      → Does P m Q E
      → ((a : A) → Does (Q a) last (λ _. Q a) E)
      → ((e : Error) → Does (E e) last (λ _. E e) E)
      → Does P (try_finally m last) Q E
  unfolding try_finally
  Does-try_finally m last d q e = record { at = λ w h. finished (m w) last (d.at w h) q e }

-- A value that is read the same in all these states.
pub Does-gets_known :
    {A B : Type 0} {P : World → Type 0} (R : B → World → Type 0) (E : Error → World → Type 0)
    (f : World → A) (a : A) (k : A → Exec B)
    → ((w : World) → P w → f w ≡ a)
    → Does P (k a) R E
    → Does P (gets f >>= k) R E
unfolding ◌>>=◌ gets continue
Does-gets_known R E f a k known d = record {
  at = λ w h. subst (λ x. Meets R E (k x w)) (sym (known w h)) (d.at w h);
}

-- From either of two sorts of states.
pub Does-either :
    {A : Type 0} {P P' : World → Type 0} (Q : A → World → Type 0) (E : Error → World → Type 0)
    (m : Exec A)
    → Does P m Q E
    → Does P' m Q E
    → Does (λ w. P w ⊎ P' w) m Q E
Does-either Q E m d d' = record { at = λ w h. elim h [ inl p ↦ d.at w p | inr p ↦ d'.at w p ] }
