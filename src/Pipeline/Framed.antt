-- ===== src/Pipeline/Framed.antt =====
-- Invariants that the work on items and events leaves alone: if the code of the stages keeps one,
-- so does the execution of the stages.
use geo_optimizer.Base.{List, Option, [], none, some, ℕ, ◌∷◌}
use geo_optimizer.Text.{Text}
use geo_optimizer.Value.{Metadata}
use geo_optimizer.Errors.{Error}
use geo_optimizer.Models.{WorkItem, WorkItemState, WorkStage, CrawlEvent}
use geo_optimizer.Storage.{create_event}
use geo_optimizer.World.{
  World, Env, Exec, Measure, now, perf_counter, uuid4, measure, storing, modify,
}
use geo_optimizer.World.Keeps.{
  Keeps, Keeps-gets, Keeps-raise, Keeps-pure, Keeps-modify, Keeps-bind, Keeps-try_except,
  Keeps-try_finally,
}
use geo_optimizer.Pipeline.{
  store_new, save_item, track_state_transition, transition_to, new_work_item, new_item,
  complete_item, fail_item, new_event, close_stage_event, stage_span, stage_failed, stage_body,
  save_stage_event, run_stage, run_stages,
}

-- What an invariant must bear of the clock, of identifiers and of events that are stored.
pub record IsEventFramed (env : Env) (P : World → Type 0) : Type 0 where
  pub readings : (w : World) (n : ℕ) → P w → P (record w { readings = n })
  pub drawn : (w : World) (n : ℕ) → P w → P (record w { drawn = n })
  pub create_event-Keeps : (e : CrawlEvent) → Keeps P (storing (create_event e))

module _ (env : Env) (P : World → Type 0) (framed : IsEventFramed env P) where
  pub now-Keeps : Keeps P (now env)
  unfolding now
  now-Keeps = record { at = λ w h. framed.readings w _ h }

  pub perf_counter-Keeps : Keeps P (perf_counter env)
  unfolding perf_counter
  perf_counter-Keeps = record { at = λ w h. framed.readings w _ h }

  pub uuid4-Keeps : Keeps P (uuid4 env)
  unfolding uuid4
  uuid4-Keeps = record { at = λ w h. framed.drawn w _ h }

  pub new_work_item-Keeps :
      (run_id : ℕ) (stage : WorkStage) (url : Text) → Keeps P (new_work_item env run_id stage url)
  unfolding new_work_item
  new_work_item-Keeps run_id stage url = Keeps-bind _ _ uuid4-Keeps (λ id.
      Keeps-bind _ _ now-Keeps (λ created. Keeps-bind _ _ now-Keeps (λ updated. Keeps-pure _)))

  pub new_event-Keeps :
      (run_id : ℕ) (name system : Text) (metadata : Metadata)
      → Keeps P (new_event env run_id name system metadata)
  unfolding new_event
  new_event-Keeps run_id name system metadata =
      Keeps-bind _ _ uuid4-Keeps (λ id. Keeps-bind _ _ now-Keeps (λ started. Keeps-pure _))

  pub save_stage_event-Keeps :
      (execute : WorkStage → Exec (Unit {0})) → Keeps P (save_stage_event env execute)
  unfolding save_stage_event
  save_stage_event-Keeps execute =
      Keeps-bind _ _ (Keeps-gets _) (λ event. framed.create_event-Keeps event)

-- What it must bear besides of the work on items: measures, and the current item and event with
-- what is stored of them.
pub record IsFramed (env : Env) (P : World → Type 0) : Type 0 where
  pub events : IsEventFramed env P
  pub measures : (w : World) (ms : List Measure) → P w → P (record w { measures = ms })
  pub event : (w : World) (e : CrawlEvent) → P w → P (record w { event = e })
  pub attempted :
      (w : World) (n : ℕ) → P w → P (record w { item = record (w.item) { attempt_count = n } })
  pub failing :
      (w : World) (e : Option Text)
      → P w
      → P (record w { item = record (w.item) { last_error = e } })
  pub transition_to-Keeps : (state : WorkItemState) → Keeps P (transition_to env state)
  pub store_new-Keeps : (item : WorkItem) → Keeps P (store_new item)
  pub save_item-Keeps : Keeps P save_item

module _ (env : Env) (P : World → Type 0) (framed : IsFramed env P) where
  open framed use {events, transition_to-Keeps, store_new-Keeps, save_item-Keeps}

  pub measure-Keeps : (m : Measure) → Keeps P (measure m)
  unfolding measure modify
  measure-Keeps m = record { at = λ w h. framed.measures w _ h }

  pub track_state_transition-Keeps :
      (from_state : Option WorkItemState) (to_state : WorkItemState)
      → Keeps P (track_state_transition from_state to_state)
  unfolding track_state_transition
  track_state_transition-Keeps none to_state = measure-Keeps _
  track_state_transition-Keeps (some from_state) to_state =
      Keeps-bind _ _ (measure-Keeps _) (λ _. measure-Keeps _)

  pub new_item-Keeps :
      (run_id : ℕ) (stage : WorkStage) (url : Text) → Keeps P (new_item env run_id stage url)
  unfolding new_item
  new_item-Keeps run_id stage url =
      Keeps-bind _ _ (new_work_item-Keeps env P events run_id stage url) (λ new.
        Keeps-bind _ _ (store_new-Keeps new) (λ _.
          Keeps-bind _ _ (track_state_transition-Keeps _ _) (λ _.
            Keeps-bind _ _ (transition_to-Keeps _) (λ _.
              Keeps-bind _ _ (Keeps-modify _ (λ w h. framed.attempted w _ h))
                (λ _. Keeps-bind _ _ save_item-Keeps (λ _. track_state_transition-Keeps _ _))))))

  pub complete_item-Keeps : Keeps P (complete_item env)
  unfolding complete_item
  complete_item-Keeps = Keeps-bind _ _ (Keeps-gets _) (λ previous.
      Keeps-bind _ _ (transition_to-Keeps _)
        (λ _. Keeps-bind _ _ save_item-Keeps (λ _. track_state_transition-Keeps _ _)))

  fail_item-Keeps : (error : Text) → Keeps P (fail_item env error)
  unfolding fail_item
  fail_item-Keeps error = Keeps-bind _ _ (Keeps-gets _) (λ previous.
      Keeps-bind _ _ (Keeps-modify _ (λ w h. framed.failing w _ h)) (λ _.
        Keeps-bind _ _ (transition_to-Keeps _)
          (λ _. Keeps-bind _ _ save_item-Keeps (λ _. track_state_transition-Keeps _ _))))

  pub set_event-Keeps : (f : World → CrawlEvent) → Keeps P (modify (λ w. record w { event = f w }))
  set_event-Keeps f = Keeps-modify _ (λ w h. framed.event w (f w) h)

  pub close_stage_event-Keeps : (entries : Metadata) → Keeps P (close_stage_event env entries)
  unfolding close_stage_event
  close_stage_event-Keeps entries =
      Keeps-bind _ _ (now-Keeps env P events) (λ at. Keeps-modify _ (λ w h. framed.event w _ h))

  pub stage_span-Keeps :
      (stage : WorkStage) (body : Exec (Unit {0}))
      → Keeps P body
      → Keeps P (stage_span env stage body)
  unfolding stage_span
  stage_span-Keeps stage body k = Keeps-bind _ _ (perf_counter-Keeps env P events) (λ start.
      Keeps-bind _ _ k
        (λ _. Keeps-bind _ _ (perf_counter-Keeps env P events) (λ end. measure-Keeps _)))

  module _ (execute : WorkStage → Exec (Unit {0})) where
    stage_failed-Keeps :
        (run_id : ℕ) (stage : WorkStage) (exc : Error)
        → Keeps P (stage_failed env execute run_id stage exc)
    unfolding stage_failed
    stage_failed-Keeps run_id stage exc = Keeps-bind _ _ (fail_item-Keeps _) (λ _.
        Keeps-bind _ _ (measure-Keeps _)
          (λ _. Keeps-bind _ _ (close_stage_event-Keeps _) (λ _. Keeps-raise _)))

    module _ (execute-Keeps : (stage : WorkStage) → Keeps P (execute stage)) where
      stage_body-Keeps : (stage : WorkStage) → Keeps P (stage_body env execute stage)
      unfolding stage_body
      stage_body-Keeps stage = Keeps-bind _ _ (execute-Keeps stage) (λ _.
          Keeps-bind _ _ complete_item-Keeps
            (λ _. Keeps-bind _ _ (measure-Keeps _) (λ _. close_stage_event-Keeps _)))

      run_stage-Keeps : (stage : WorkStage) → Keeps P (run_stage env execute stage)
      unfolding run_stage
      run_stage-Keeps stage = Keeps-bind _ _ (Keeps-gets _) (λ run.
          Keeps-bind _ _ (new_item-Keeps _ _ _) (λ _.
            Keeps-bind _ _ (new_event-Keeps env P events _ _ _ _) (λ event.
              Keeps-bind _ _ (set_event-Keeps (λ w. event)) (λ _. stage_span-Keeps stage _ (
                Keeps-try_finally _ _
                  (Keeps-try_except _ _ (stage_body-Keeps stage) (stage_failed-Keeps _ stage))
                  (save_stage_event-Keeps env P events execute))))))

      pub run_stages-Keeps : (stages : List WorkStage) → Keeps P (run_stages env execute stages)
      unfolding run_stages
      run_stages-Keeps [] = Keeps-pure tt
      run_stages-Keeps (stage ∷ stages) =
          Keeps-bind _ _ (run_stage-Keeps stage) (λ _. run_stages-Keeps stages)
