-- ===== src/Pipeline/Gauge/Moves.antt =====
-- A change of the state of the current item, what is stored of it and the gauge.
use mathlib.Core.Path.{subst}
use geo_optimizer.Base.{ap, arith, codes_eq, nat_eq, refl, some, sym, true, ℕ, ◌+◌, ◌∙◌, ◌≡◌}
use geo_optimizer.Dict.{lookup, insert, lookup-insert}
use geo_optimizer.Errors.{Error, ok}
use geo_optimizer.Models.{WorkItem, WorkItemState, transition, allowed}
use geo_optimizer.Storage.{Store, update_work_item, write_item, updated_item}
use geo_optimizer.World.{World, Env, state_count_up, state_count_down, measure, modify, now}
use geo_optimizer.World.Does.{Does, Meets, Does-modify, Does-storing, Does-bind, Does-gets}
use geo_optimizer.Pipeline.{save_item, track_state_transition, transition_to, moved}
use geo_optimizer.Pipeline.Gauge.{
  IsBalanced, one, ups, downs, count_in, ups-append, downs-append, count_in-insert,
}

-- The current item is stored in the state `p`.
abbrev pub IsStored : WorkItemState → World → Type 0
IsStored p w = (row : WorkItem) × (lookup w.item.id w.store.work_items ≡ some row) × (row.state ≡ p)

-- The gauge is right; the current item is in the state `n`, and stored in the state `p`.
abbrev pub IsAt : WorkItemState → WorkItemState → World → Type 0
IsAt p n w = IsBalanced w × IsStored p w × (w.item.state ≡ n)

-- The current item was created in the state `n`, which is not counted yet.
abbrev pub IsCreated : WorkItemState → World → Type 0
IsCreated n w =
    ((s : WorkItemState)
      → count_in s w.store.work_items + downs s w.measures ≡ ups s w.measures + one s n)
    × IsStored n w
    × (w.item.state ≡ n)

-- The current item was moved from the state `p` to the state `n`, which is not counted yet.
abbrev pub IsMoved : WorkItemState → WorkItemState → World → Type 0
IsMoved p n w =
    ((s : WorkItemState)
      → count_in s w.store.work_items + downs s w.measures + one s p ≡ ups s w.measures + one s n)
    × IsStored n w
    × (w.item.state ≡ n)

-- The gauge is right, whatever was raised.
abbrev pub StillBalanced : Error → World → Type 0
StillBalanced e = IsBalanced

inserted :
    (item row : WorkItem) (s t : Store)
    → lookup item.id s.work_items ≡ some row
    → update_work_item item s ≡ ok t
    → t.work_items ≡ insert item.id (updated_item row item) s.work_items
unfolding update_work_item write_item
inserted item row s t e h = ground arith

module _ (E : Error → World → Type 0) where
  pub measure_up :
      (n : WorkItemState) → Does (IsCreated n) (measure (state_count_up n)) (λ _. IsAt n n) E
  unfolding measure
  measure_up n = Does-modify _ _ _ (λ w h. (
    λ s. omega (
      arith,
      h.0 s,
      ups-append s w.measures (state_count_up n),
      downs-append s w.measures (state_count_up n),
    ),
    h.1,
    h.2,
  ))

  pub track-IsMoved :
      (p n : WorkItemState)
      → Does (IsMoved p n) (track_state_transition (some p) n) (λ _. IsAt n n) E
  unfolding track_state_transition measure
  track-IsMoved p n =
      Does-bind (λ _. IsCreated n) (λ _. IsAt n n) _ _ _
        (Does-modify _ _ _ (λ w h. (
          λ s. omega (
            arith,
            h.0 s,
            ups-append s w.measures (state_count_down p),
            downs-append s w.measures (state_count_down p),
          ),
          h.1,
          h.2,
        )))
        (λ _. measure_up n)

saved-IsMoved :
    (p n : WorkItemState) (w : World) (t : Store)
    → IsAt p n w
    → update_work_item w.item w.store ≡ ok t
    → IsMoved p n (record w { store = t })
unfolding updated_item
saved-IsMoved p n w t (balanced, (row, found, at), current) u =
    let items = inserted w.item row w.store t found u in
    (
      λ s. rw items (
          omega (
            arith,
            balanced s,
            count_in-insert s w.item.id (updated_item row w.item) row w.store.work_items found,
            ap (λ (x : WorkItemState). one s x) at,
            ap (λ (x : WorkItemState). one s x) current,
          )),
      (
        updated_item row w.item,
        rw items (
            ground (
              arith,
              lookup-insert w.item.id w.item.id (updated_item row w.item) w.store.work_items,
            )),
        current,
      ),
      current,
    )

pub save-IsMoved :
    (p n : WorkItemState) → Does (IsAt p n) save_item (λ _. IsMoved p n) (λ e. IsAt p n)
unfolding save_item
save-IsMoved p n = Does-gets _ _ _ _ (λ current.
    Does-storing _ _ (update_work_item current)
      (λ w t h u.
        saved-IsMoved p n w t h.0 (subst (λ c. update_work_item c w.store ≡ ok t) (sym h.1) u))
      (λ w e h u. h.0))

transition-allowed :
    (item : WorkItem) (m n : WorkItemState) (at : ℕ)
    → item.state ≡ m
    → allowed m n ≡ true
    → transition item n at ≡ some (record item { state = n; updated_at = at })
unfolding transition
transition-allowed item m n at e may = rw (e, may) refl

module _ (E : Error → World → Type 0) where
  moved-IsAt :
      (p m n : WorkItemState) (item : WorkItem) (at : ℕ)
      → allowed m n ≡ true
      → Does
          (λ w. IsAt p m w × (w.item ≡ item))
          (moved item.state n (transition item n at))
          (λ _. IsAt p n)
          E
  unfolding moved modify
  moved-IsAt p m n item at may = record {
    at = λ w h.
        let current = ap (λ (i : WorkItem). i.state) (sym h.1) ∙ h.0.2 in
        subst (λ o. Meets (λ (_ : Unit {0}). IsAt p n) E (moved item.state n o w))
          (sym (transition-allowed item m n at current may))
          (
            h.0.0,
            subst
                (λ j. (row : WorkItem) × (lookup j w.store.work_items ≡ some row) × (row.state ≡ p))
                (ap (λ (i : WorkItem). i.id) h.1) h.0.1,
            refl,
          );
  }

  -- An item that may move to a state does.
  pub transition_moved :
      (env : Env) (p m n : WorkItemState)
      → allowed m n ≡ true
      → Does (IsAt p m) (transition_to env n) (λ _. IsAt p n) E
  unfolding transition_to
  transition_moved env p m n may =
      Does-bind (λ _. IsAt p m) _ _ _ _ (record { at = λ w h. unfold now in h })
        (λ at. Does-gets _ _ _ _ (λ item. moved-IsAt p m n item at may))
