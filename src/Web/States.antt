-- ===== src/Web/States.antt =====
-- The state that the page shows for a stage, and the items that the storage has for it.
use geo_optimizer.Base.{
  Bool, Bool-cases, List, [], any, arith, codes_beq, codes_eq, contains, false, filter,
  if◌then◌else◌, inl, inr, is_empty, map, nat_eq, refl, sym, true, ℕ, ◌&&◌, ◌==◌, ◌∙◌, ◌∷◌, ◌≡◌,
}
use geo_optimizer.Text.{Text, lit}
use geo_optimizer.Models.{WorkItem, WorkItemState, WorkStage, stage_value, state_value}
use geo_optimizer.Storage.{same_state}
use geo_optimizer.World.{Env}
use geo_optimizer.Api.{ItemView, item_view}
use geo_optimizer.Web.{StageState, pending, active, done, failed, stage_state}

abbrev pub same_stage : WorkStage → WorkStage → Bool
same_stage s t = stage_value s == stage_value t

-- There is an item of the stage in the state.
abbrev pub some_item : WorkStage → WorkItemState → List WorkItem → Bool
some_item stage state items =
    any (λ (i : WorkItem). same_stage i.stage stage && same_state i.state state) items

-- The state of a stage by the items of the storage.
abbrev pub state_of : WorkStage → List WorkItem → StageState
state_of stage items =
    if some_item stage WorkItemState.failed items
    then failed
    else if some_item stage WorkItemState.processing items
    then active
    else if some_item stage WorkItemState.completed items
    then done
    else pending

state_value-same : (s t : WorkItemState) → (state_value t == state_value s) ≡ same_state s t
unfolding state_value same_state lit codes_beq
state_value-same WorkItemState.queued WorkItemState.queued = refl
state_value-same WorkItemState.queued WorkItemState.processing = refl
state_value-same WorkItemState.queued WorkItemState.completed = refl
state_value-same WorkItemState.queued WorkItemState.failed = refl
state_value-same WorkItemState.processing WorkItemState.queued = refl
state_value-same WorkItemState.processing WorkItemState.processing = refl
state_value-same WorkItemState.processing WorkItemState.completed = refl
state_value-same WorkItemState.processing WorkItemState.failed = refl
state_value-same WorkItemState.completed WorkItemState.queued = refl
state_value-same WorkItemState.completed WorkItemState.processing = refl
state_value-same WorkItemState.completed WorkItemState.completed = refl
state_value-same WorkItemState.completed WorkItemState.failed = refl
state_value-same WorkItemState.failed WorkItemState.queued = refl
state_value-same WorkItemState.failed WorkItemState.processing = refl
state_value-same WorkItemState.failed WorkItemState.completed = refl
state_value-same WorkItemState.failed WorkItemState.failed = refl

empty_contains :
    (state : Text) (items : List ItemView)
    → is_empty items ≡ true
    → contains state (map (λ (i : ItemView). i.state) items) ≡ false
unfolding contains
empty_contains state [] h = refl
empty_contains state (item ∷ items) h = absurd (ground arith)

module _ (env : Env) (isoformat : ℕ → Text) (stage : WorkStage) where
  -- The states of the items of the stage, as the page reads them.
  abbrev states_shown : List WorkItem → List Text
  states_shown items =
      map (λ (i : ItemView). i.state)
        (filter (λ (i : ItemView). i.stage == stage_value stage)
          (map (item_view env isoformat) items))

  contains-states_shown :
      (state : WorkItemState) (items : List WorkItem)
      → contains (state_value state) (states_shown items) ≡ some_item stage state items
  unfolding contains item_view
  contains-states_shown state [] = refl
  contains-states_shown state (item ∷ items) =
      let same = state_value-same item.state state in
      let rest = contains-states_shown state items in
      elim (Bool-cases (same_stage item.stage stage)) [
        | inl y ↦ rw (y, same, rest) refl
        | inr n ↦ rw (n) rest
      ]

  -- Whatever the storage has for a run, the page shows a stage by its items: failed if one has
  -- failed, else active if one is being processed, else done if one is completed, else pending.
  pub stage_state-item_view :
      (items : List WorkItem)
      → stage_state (stage_value stage) (map (item_view env isoformat) items) ≡ state_of stage items
  unfolding stage_state state_value
  stage_state-item_view items =
      let shown =
        filter (λ (i : ItemView). i.stage == stage_value stage)
          (map (item_view env isoformat) items) in
      let has_failed = contains-states_shown WorkItemState.failed items in
      let has_processing = contains-states_shown WorkItemState.processing items in
      let has_completed = contains-states_shown WorkItemState.completed items in
      elim (Bool-cases (is_empty shown)) [
        | inl y ↦
            rw
              (
                y,
                sym has_failed ∙ empty_contains (lit "failed") shown y,
                sym has_processing ∙ empty_contains (lit "processing") shown y,
                sym has_completed ∙ empty_contains (lit "completed") shown y,
              )
              refl
        | inr n ↦ rw (n, has_failed, has_processing, has_completed) refl
      ]
