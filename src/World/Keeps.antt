-- ===== src/World/Keeps.antt =====
-- Invariants of actions, one rule for each way to build an action.
use geo_optimizer.Base.{refl, ◌≡◌}
use geo_optimizer.Errors.{Error, Result, ok, err}
use geo_optimizer.Storage.{Store}
use geo_optimizer.World.{
  World, Exec, pure, raise, gets, modify, storing, try_except, try_finally, on_error, finishing,
  continue, store_result, ◌>>=◌,
}

-- `m` keeps `P`, whether it returns or raises.
pub record Keeps {A : Type 0} (P : World → Type 0) (m : Exec A) : Type 0 where
  pub at : (w : World) → P w → P (m w).1

finishing-keeps :
    {A : Type 0} (P : World → Type 0) (r : Result A) (s : Result (Unit {0}) × World)
    → P s.1
    → P (finishing r s).1
unfolding finishing
finishing-keeps P r (ok _, w) h = h
finishing-keeps P r (err e, w) h = h

store_result-keeps :
    (P : World → Type 0) (r : Result Store) (w : World)
    → ((s : Store) → r ≡ ok s → P (record w { store = s }))
    → P w
    → P (store_result r w).1
unfolding store_result
store_result-keeps P (ok s) w k h = k s refl
store_result-keeps P (err e) w k h = h

module _ {A : Type 0} {P : World → Type 0} where
  pub Keeps-pure : (a : A) → Keeps P (pure a)
  unfolding pure
  Keeps-pure a = record { at = λ w h. h }

  pub Keeps-raise : (e : Error) → Keeps P (raise {A = A} e)
  unfolding raise
  Keeps-raise e = record { at = λ w h. h }

  pub Keeps-gets : (f : World → A) → Keeps P (gets f)
  unfolding gets
  Keeps-gets f = record { at = λ w h. h }

  on_error-keeps :
      (r : Result A × World) (handler : Error → Exec A)
      → ((e : Error) → Keeps P (handler e))
      → P r.1
      → P (on_error r handler).1
  unfolding on_error
  on_error-keeps (ok a, w) handler k h = h
  on_error-keeps (err e, w) handler k h = (k e).at w h

  pub Keeps-try_except :
      (m : Exec A) (handler : Error → Exec A)
      → Keeps P m
      → ((e : Error) → Keeps P (handler e))
      → Keeps P (try_except m handler)
  unfolding try_except
  Keeps-try_except m handler km kh = record {
    at = λ w h. on_error-keeps (m w) handler kh (km.at w h);
  }

  pub Keeps-try_finally :
      (m : Exec A) (last : Exec (Unit {0}))
      → Keeps P m
      → Keeps P last
      → Keeps P (try_finally m last)
  unfolding try_finally
  Keeps-try_finally m last km kl = record {
    at = λ w h. let (r, w') = m w in finishing-keeps P r (last w') (kl.at w' (km.at w h));
  }

module _ {P : World → Type 0} where
  pub Keeps-modify : (f : World → World) → ((w : World) → P w → P (f w)) → Keeps P (modify f)
  unfolding modify
  Keeps-modify f k = record { at = k }

  pub Keeps-storing :
      (f : Store → Result Store)
      → ((w : World) (s : Store) → P w → f w.store ≡ ok s → P (record w { store = s }))
      → Keeps P (storing f)
  unfolding storing
  Keeps-storing f k = record { at = λ w h. store_result-keeps P (f w.store) w (λ s e. k w s h e) h }

module _ {A B : Type 0} {P : World → Type 0} where
  continue-keeps :
      (r : Result A × World) (f : A → Exec B)
      → ((a : A) → Keeps P (f a))
      → P r.1
      → P (continue r f).1
  unfolding continue
  continue-keeps (ok a, w) f k h = (k a).at w h
  continue-keeps (err e, w) f k h = h

  pub Keeps-bind :
      (m : Exec A) (f : A → Exec B) → Keeps P m → ((a : A) → Keeps P (f a)) → Keeps P (m >>= f)
  unfolding ◌>>=◌
  Keeps-bind m f km kf = record { at = λ w h. continue-keeps (m w) f kf (km.at w h) }

pub ruleset keeps_rules =
    (Keeps-pure, Keeps-raise, Keeps-gets, Keeps-try_except, Keeps-try_finally, Keeps-bind)
