-- ===== src/Pipeline/Gauge/Items.antt =====
-- The work on an item and the gauge of its state.
use mathlib.Core.Path.{subst}
use geo_optimizer.Base.{
  ap, arith, codes_eq, false, inr, nat_eq, none, refl, some, sym, ℕ, ◌+◌, ◌∙◌, ◌≡◌, ◌⊎◌,
}
use geo_optimizer.Text.{Text}
use geo_optimizer.Dict.{lookup, insert, has_key, lookup-insert}
use geo_optimizer.Errors.{ok}
use geo_optimizer.Models.{WorkItem, WorkItemState, WorkStage, transition, allowed}
use geo_optimizer.Storage.{Store, create_work_item}
use geo_optimizer.World.{
  World, Env, state_count_up, measure, storing, pure, raise, now, uuid4, continue, ◌>>=◌,
}
use geo_optimizer.World.Does.{
  Does, Meets, Does-modify, Does-storing, Does-bind, Does-gets, Does-weaken, Does-gets_known,
  Does-either,
}
use geo_optimizer.Pipeline.{
  store_new, track_state_transition, transition_to, moved, new_work_item, new_item, complete_item,
  fail_item,
}
use geo_optimizer.Pipeline.Gauge.{
  IsBalanced, one, ups, downs, count_in, ups-append, downs-append, count_in-insert_new,
}
use geo_optimizer.Pipeline.Gauge.Moves.{
  IsAt, IsCreated, IsMoved, StillBalanced, measure_up, track-IsMoved, save-IsMoved,
  transition_moved,
}

created :
    (item : WorkItem) (s t : Store)
    → create_work_item item s ≡ ok t
    → (has_key item.id s.work_items ≡ false) × (t.work_items ≡ insert item.id item s.work_items)
unfolding create_work_item
created item s t h = ground arith

-- The item was created, and is not counted yet.
abbrev pub IsNew : WorkItem → World → Type 0
IsNew item w =
    ((s : WorkItemState)
      → count_in s w.store.work_items + downs s w.measures
        ≡ ups s w.measures + one s WorkItemState.queued)
    × (lookup item.id w.store.work_items ≡ some item)
    × (item.state ≡ WorkItemState.queued)

pub create_work_item-Does :
    (item : WorkItem)
    → Does
        (λ w. IsBalanced w × (item.state ≡ WorkItemState.queued))
        (storing (create_work_item item))
        (λ _. IsNew item)
        StillBalanced
create_work_item-Does item =
    Does-storing _ _ (create_work_item item)
      (λ w t h u.
        let (fresh, items) = created item w.store t u in
        (
          λ s. rw items (
              omega (
                arith,
                h.0 s,
                count_in-insert_new s item.id item w.store.work_items fresh,
                ap (λ (x : WorkItemState). one s x) h.1,
              )),
          rw items (ground (arith, lookup-insert item.id item.id item w.store.work_items)),
          h.1,
        ))
      (λ w e h u. h.0)

-- Then it is counted.
pub IsNew-counted :
    (item : WorkItem)
    → Does
        (IsNew item)
        (track_state_transition none WorkItemState.queued)
        (λ _. IsBalanced)
        StillBalanced
unfolding track_state_transition measure
IsNew-counted item = Does-modify _ _ _ (λ w h s. omega (
  arith,
  h.0 s,
  ups-append s w.measures (state_count_up WorkItemState.queued),
  downs-append s w.measures (state_count_up WorkItemState.queued),
))

-- What a failure of the work on an item leaves: an item in process, or one that was to be
-- completed.
abbrev pub IsUnsettled : World → Type 0
IsUnsettled w =
    IsAt WorkItemState.processing WorkItemState.processing w
    ⊎ (IsBalanced w × (w.item.state ≡ WorkItemState.completed))

module _ (env : Env) where
  pub complete_item-Does :
      Does
        (IsAt WorkItemState.processing WorkItemState.processing)
        (complete_item env)
        (λ _. IsAt WorkItemState.completed WorkItemState.completed)
        (λ e. IsUnsettled)
  unfolding complete_item allowed
  complete_item-Does =
      let from : WorkItemState = WorkItemState.processing in
      let to : WorkItemState = WorkItemState.completed in
      Does-gets_known _ _ _ from _ (λ w h. h.2)
        (Does-bind (λ _. IsAt from to) _ _ _ _ (transition_moved _ env from from to refl)
          (λ _.
            Does-bind (λ _. IsMoved from to) _ _ _ _
              (Does-weaken _ _ _ _ _ (save-IsMoved from to) (λ w h. h) (λ _ w h. h)
                (λ e w h. inr (h.0, h.2)))
              (λ _. track-IsMoved _ from to)))

  -- An item in process fails, and the gauge with it.
  fail_processing :
      (error : Text)
      → Does
          (IsAt WorkItemState.processing WorkItemState.processing)
          (fail_item env error)
          (λ _. IsBalanced)
          StillBalanced
  unfolding fail_item allowed
  fail_processing error =
      let from : WorkItemState = WorkItemState.processing in
      let to : WorkItemState = WorkItemState.failed in
      Does-gets_known _ _ _ from _ (λ w h. h.2)
        (Does-bind (λ _. IsAt from from) _ _ _ _ (Does-modify _ _ _ (λ w h. h))
          (λ _.
            Does-bind (λ _. IsAt from to) _ _ _ _ (transition_moved _ env from from to refl)
              (λ _.
                Does-bind (λ _. IsMoved from to) _ _ _ _
                  (Does-weaken _ _ _ _ _ (save-IsMoved from to) (λ w h. h) (λ _ w h. h)
                    (λ e w h. h.0))
                  (λ _.
                    Does-weaken _ _ _ _ _ (track-IsMoved StillBalanced from to) (λ w h. h)
                      (λ _ w h. h.0) (λ e w h. h)))))

  transition-refused :
      (item : WorkItem) (at : ℕ)
      → item.state ≡ WorkItemState.completed
      → transition item WorkItemState.failed at ≡ none
  unfolding transition allowed
  transition-refused item at e = rw e refl

  abbrev IsDone : World → Type 0
  IsDone w = IsBalanced w × (w.item.state ≡ WorkItemState.completed)

  refused_at :
      (item : WorkItem) (at : ℕ)
      → Does
          (λ w. IsDone w × (w.item ≡ item))
          (moved item.state WorkItemState.failed (transition item WorkItemState.failed at))
          (λ _ w. ⊥)
          StillBalanced
  unfolding moved raise
  refused_at item at = record {
    at = λ w h.
        subst
          (λ o.
            Meets (λ (_ : Unit {0}) (w : World). ⊥) StillBalanced
              (moved item.state WorkItemState.failed o w))
          (sym (transition-refused item at (ap (λ (i : WorkItem). i.state) (sym h.1) ∙ h.0.1)))
          h.0.0;
  }

  -- A completed item cannot fail any more.
  fail_completed :
      (error : Text) → Does IsDone (fail_item env error) (λ _. IsBalanced) StillBalanced
  unfolding fail_item transition_to now
  fail_completed error =
      Does-gets_known _ _ _ WorkItemState.completed _ (λ w h. h.1)
        (Does-bind (λ _. IsDone) _ _ _ _ (Does-modify _ _ _ (λ w h. h))
          (λ _.
            Does-bind (λ _ w. ⊥) _ _ _ _
              (Does-bind (λ _. IsDone) _ _ _ _ (record { at = λ w h. h })
                (λ at. Does-gets _ _ _ _ (λ item. refused_at item at)))
              (λ _. record { at = λ w h. absurd h })))

  pub fail_item-Does :
      (error : Text) → Does IsUnsettled (fail_item env error) (λ _. IsBalanced) StillBalanced
  fail_item-Does error = Does-either _ _ _ (fail_processing error) (fail_completed error)

  store_new-Does :
      (item : WorkItem)
      → Does
          (λ w. IsBalanced w × (item.state ≡ WorkItemState.queued))
          (store_new item)
          (λ _. IsCreated WorkItemState.queued)
          StillBalanced
  unfolding store_new
  store_new-Does item =
      Does-bind (λ _. IsNew item) _ _ _ _ (create_work_item-Does item)
        (λ _. Does-modify _ _ _ (λ w h. (h.0, (item, h.1, h.2), h.2)))

  pub new_work_item-Does :
      (run_id : ℕ) (stage : WorkStage) (url : Text)
      → Does IsBalanced
          (new_work_item env run_id stage url)
          (λ item w. IsBalanced w × (item.state ≡ WorkItemState.queued))
          StillBalanced
  unfolding new_work_item uuid4 now pure continue ◌>>=◌
  new_work_item-Does run_id stage url = record { at = λ w h. (h, refl) }

  pub new_item-Does :
      (run_id : ℕ) (stage : WorkStage) (url : Text)
      → Does IsBalanced
          (new_item env run_id stage url)
          (λ _. IsAt WorkItemState.processing WorkItemState.processing)
          StillBalanced
  unfolding new_item track_state_transition allowed
  new_item-Does run_id stage url =
      let from : WorkItemState = WorkItemState.queued in
      let to : WorkItemState = WorkItemState.processing in
      Does-bind _ _ _ _ _ (new_work_item-Does run_id stage url) (λ item.
        Does-bind (λ _. IsCreated from) _ _ _ _ (store_new-Does item)
          (λ _.
            Does-bind (λ _. IsAt from from) _ _ _ _ (measure_up _ from)
              (λ _.
                Does-bind (λ _. IsAt from to) _ _ _ _ (transition_moved _ env from from to refl)
                  (λ _.
                    Does-bind (λ _. IsAt from to) _ _ _ _ (Does-modify _ _ _ (λ w h. h))
                      (λ _.
                        Does-bind (λ _. IsMoved from to) _ _ _ _
                          (Does-weaken _ _ _ _ _ (save-IsMoved from to) (λ w h. h) (λ _ w h. h)
                            (λ e w h. h.0))
                          (λ _. track-IsMoved _ from to))))))
