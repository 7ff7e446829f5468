-- ===== src/Pipeline/Raised.antt =====
-- What `process_run` raises for a stored run: the error of a stage, or, outside the code of the
-- stages, a row that the database rejects or a change of state that a work item rejects.
use geo_optimizer.Base.{List, Option, [], arith, inl, inr, none, refl, some, ℕ, ◌∷◌, ◌≡◌, ◌⊎◌}
use geo_optimizer.Text.{Text}
use geo_optimizer.Value.{Metadata}
use geo_optimizer.Errors.{
  Error, err, integrity_error, invalid_transition, invalid_input, run_not_found,
  pipeline_processing, library,
}
use geo_optimizer.Models.{CrawlRun, CrawlEvent, WorkItem, WorkItemState, WorkStage}
use geo_optimizer.Storage.{
  Store, create_run, update_run, create_work_item, update_work_item, write_item, create_event,
}
use geo_optimizer.World.{Env, Exec}
use geo_optimizer.World.Raises.{
  Raises, Raises-any, Raises-pure, Raises-raise, Raises-modify, Raises-now, Raises-perf_counter,
  Raises-uuid4, Raises-measure, Raises-storing, Raises-bind, Raises-gets, Raises-try_except,
  Raises-try_finally,
}
use geo_optimizer.Pipeline.{
  track_state_transition, moved, store_new, save_item, save_run, transition_to, new_work_item,
  new_item, fail_item, new_event, close_stage_event, stage_span, stage_failed, save_stage_event,
  run_stage, run_stages, plan, limit_rate, report_success, complete_run, run_body, run_failed,
  handle_run_error, process_found,
}

-- The database rejects a row, or a work item rejects a state.
abbrev pub IsRefusal : Error → Type 0
IsRefusal e =
    (e ≡ integrity_error)
    ⊎ ((old : WorkItemState) × (next : WorkItemState) × (e ≡ invalid_transition old next))

abbrev pub IsOfStage : Error → Type 0
IsOfStage (pipeline_processing stage run_id cause) = Unit
IsOfStage (library message) = ⊥
IsOfStage (invalid_transition old next) = ⊥
IsOfStage (invalid_input field reason) = ⊥
IsOfStage (run_not_found run_id) = ⊥

abbrev pub IsRaised : Error → Type 0
IsRaised e = IsOfStage e ⊎ IsRefusal e

abbrev Anything : Error → Type 0
Anything e = Unit

update_run-refused :
    (run : CrawlRun) (s : Store) (e : Error) → update_run run s ≡ err e → IsRaised e
unfolding update_run create_run
update_run-refused run s e h = inr (inl (ground arith))

create_event-refused :
    (event : CrawlEvent) (s : Store) (e : Error) → create_event event s ≡ err e → IsRaised e
unfolding create_event
create_event-refused event s e h = inr (inl (ground arith))

create_work_item-refused :
    (item : WorkItem) (s : Store) (e : Error) → create_work_item item s ≡ err e → IsRaised e
unfolding create_work_item
create_work_item-refused item s e h = inr (inl (ground arith))

update_work_item-refused :
    (item : WorkItem) (s : Store) (e : Error) → update_work_item item s ≡ err e → IsRaised e
unfolding update_work_item write_item create_work_item
update_work_item-refused item s e h = inr (inl (ground arith))

save_run-Raises : Raises IsRaised save_run
unfolding save_run
save_run-Raises = Raises-gets _ _ _ (λ run. Raises-storing _ _ (update_run-refused run))

save_item-Raises : Raises IsRaised save_item
unfolding save_item
save_item-Raises = Raises-gets _ _ _ (λ item. Raises-storing _ _ (update_work_item-refused item))

moved-Raises :
    (old next : WorkItemState) (item : Option WorkItem) → Raises IsRaised (moved old next item)
unfolding moved
moved-Raises old next none = Raises-raise _ _ (inr (inr (old, next, refl)))
moved-Raises old next (some item) = Raises-modify _ _

track-Raises :
    (from : Option WorkItemState) (to : WorkItemState)
    → Raises IsRaised (track_state_transition from to)
unfolding track_state_transition
track-Raises none to = Raises-measure _ _
track-Raises (some from) to = Raises-bind _ _ _ (Raises-measure _ _) (λ _. Raises-measure _ _)

-- An event is made without fail.
pub new_event-Raises :
    (E : Error → Type 0) (env : Env) (run_id : ℕ) (name system : Text) (metadata : Metadata)
    → Raises E (new_event env run_id name system metadata)
unfolding new_event
new_event-Raises E env run_id name system metadata =
    Raises-bind _ _ _ (Raises-uuid4 _ env)
      (λ id. Raises-bind _ _ _ (Raises-now _ env) (λ started. Raises-pure _ _))

module _ (env : Env) where
  transition_to-Raises : (state : WorkItemState) → Raises IsRaised (transition_to env state)
  unfolding transition_to
  transition_to-Raises state =
      Raises-bind _ _ _ (Raises-now _ env) (λ at. Raises-gets _ _ _ (λ item. moved-Raises _ _ _))

  new_work_item-Raises :
      (run_id : ℕ) (stage : WorkStage) (url : Text)
      → Raises IsRaised (new_work_item env run_id stage url)
  unfolding new_work_item
  new_work_item-Raises run_id stage url = Raises-bind _ _ _ (Raises-uuid4 _ env) (λ id.
      Raises-bind _ _ _ (Raises-now _ env)
        (λ created. Raises-bind _ _ _ (Raises-now _ env) (λ updated. Raises-pure _ _)))

  store_new-Raises : (item : WorkItem) → Raises IsRaised (store_new item)
  unfolding store_new
  store_new-Raises item =
      Raises-bind _ _ _ (Raises-storing _ _ (create_work_item-refused item))
        (λ _. Raises-modify _ _)

  new_item-Raises :
      (run_id : ℕ) (stage : WorkStage) (url : Text)
      → Raises IsRaised (new_item env run_id stage url)
  unfolding new_item
  new_item-Raises run_id stage url = Raises-bind _ _ _ (new_work_item-Raises _ _ _) (λ item.
      Raises-bind _ _ _ (store_new-Raises item) (λ _. Raises-bind _ _ _ (track-Raises _ _) (λ _.
        Raises-bind _ _ _ (transition_to-Raises _) (λ _.
          Raises-bind _ _ _ (Raises-modify _ _)
            (λ _. Raises-bind _ _ _ save_item-Raises (λ _. track-Raises _ _))))))

  fail_item-Raises : (error : Text) → Raises IsRaised (fail_item env error)
  unfolding fail_item
  fail_item-Raises error = Raises-gets _ _ _ (λ previous.
      Raises-bind _ _ _ (Raises-modify _ _) (λ _.
        Raises-bind _ _ _ (transition_to-Raises _)
          (λ _. Raises-bind _ _ _ save_item-Raises (λ _. track-Raises _ _))))

  close_stage_event-Raises : (entries : Metadata) → Raises IsRaised (close_stage_event env entries)
  unfolding close_stage_event
  close_stage_event-Raises entries = Raises-bind _ _ _ (Raises-now _ env) (λ at. Raises-modify _ _)

  stage_span-Raises :
      (stage : WorkStage) (body : Exec (Unit {0}))
      → Raises IsRaised body
      → Raises IsRaised (stage_span env stage body)
  unfolding stage_span
  stage_span-Raises stage body d = Raises-bind _ _ _ (Raises-perf_counter _ env) (λ start.
      Raises-bind _ _ _ d
        (λ _. Raises-bind _ _ _ (Raises-perf_counter _ env) (λ end. Raises-measure _ _)))

module _ (env : Env) (execute : WorkStage → Exec (Unit {0})) where
  stage_failed-Raises :
      (run_id : ℕ) (stage : WorkStage) (exc : Error)
      → Raises IsRaised (stage_failed env execute run_id stage exc)
  unfolding stage_failed
  stage_failed-Raises run_id stage exc = Raises-bind _ _ _ (fail_item-Raises env _) (λ _.
      Raises-bind _ _ _ (Raises-measure _ _)
        (λ _. Raises-bind _ _ _ (close_stage_event-Raises env _) (λ _. Raises-raise _ _ (inl tt))))

  save_stage_event-Raises : Raises IsRaised (save_stage_event env execute)
  unfolding save_stage_event
  save_stage_event-Raises =
      Raises-gets _ _ _ (λ event. Raises-storing _ _ (create_event-refused event))

  run_stage-Raises : (stage : WorkStage) → Raises IsRaised (run_stage env execute stage)
  unfolding run_stage
  run_stage-Raises stage = Raises-gets _ _ _ (λ run.
      Raises-bind _ _ _ (new_item-Raises env _ _ _) (λ _.
        Raises-bind _ _ _ (new_event-Raises _ env _ _ _ _) (λ event.
          Raises-bind _ _ _ (Raises-modify _ _) (λ _. stage_span-Raises env stage _ (
            Raises-try_finally _ _ _
              (Raises-try_except _ Anything _ _ (Raises-any _)
                (λ e _. stage_failed-Raises _ stage e))
              save_stage_event-Raises)))))

  run_stages-Raises : (stages : List WorkStage) → Raises IsRaised (run_stages env execute stages)
  unfolding run_stages
  run_stages-Raises [] = Raises-pure _ _
  run_stages-Raises (stage ∷ stages) =
      Raises-bind _ _ _ (run_stage-Raises stage) (λ _. run_stages-Raises stages)

  limit_rate-Raises : Raises IsRaised (limit_rate env execute)
  unfolding limit_rate
  limit_rate-Raises =
      Raises-bind _ _ _ (Raises-now _ env)
        (λ entered. Raises-bind _ _ _ (Raises-now _ env) (λ later. Raises-modify _ _))

  report_success-Raises : (event : CrawlEvent) → Raises IsRaised (report_success env execute event)
  unfolding report_success
  report_success-Raises event = Raises-gets _ _ _ (λ run. Raises-gets _ _ _ (λ found.
      Raises-gets _ _ _ (λ artifact. Raises-bind _ _ _ (Raises-measure _ _) (λ _.
        Raises-bind _ _ _ (Raises-measure _ _) (λ _. Raises-bind _ _ _ (Raises-now _ env) (λ at.
          Raises-bind _ _ _ (Raises-storing _ _ (create_event-refused _))
            (λ _. Raises-pure _ _)))))))

  complete_run-Raises : (event : CrawlEvent) → Raises IsRaised (complete_run env execute event)
  unfolding complete_run
  complete_run-Raises event = Raises-bind _ _ _ (Raises-now _ env) (λ at.
      Raises-bind _ _ _ (Raises-modify _ _) (λ _.
        Raises-bind _ _ _ save_run-Raises
          (λ _. Raises-bind _ _ _ (Raises-measure _ _) (λ _. report_success-Raises event))))

  run_body-Raises : (event : CrawlEvent) → Raises IsRaised (run_body env execute event)
  unfolding run_body
  run_body-Raises event =
      Raises-bind _ _ _ limit_rate-Raises
        (λ _. Raises-bind _ _ _ (run_stages-Raises plan) (λ _. complete_run-Raises event))

  run_failed-Raises :
      (event : CrawlEvent) (exc : Error)
      → IsRaised exc
      → Raises IsRaised (run_failed env execute event exc)
  unfolding run_failed
  run_failed-Raises event exc h = Raises-bind _ _ _ (Raises-now _ env) (λ at.
      Raises-bind _ _ _ (Raises-modify _ _) (λ _. Raises-bind _ _ _ save_run-Raises (λ _.
        Raises-bind _ _ _ (Raises-measure _ _) (λ _. Raises-bind _ _ _ (Raises-now _ env) (λ closed.
          Raises-bind _ _ _ (Raises-storing _ _ (create_event-refused _))
            (λ _. Raises-raise _ _ h))))))

  handle_run_error-Raises :
      (event : CrawlEvent) (exc : Error)
      → IsRaised exc
      → Raises IsRaised (handle_run_error env execute event exc)
  unfolding handle_run_error
  handle_run_error-Raises event (pipeline_processing stage run_id cause) h =
      run_failed-Raises event _ h
  handle_run_error-Raises event exc h = Raises-raise _ _ h

  pub process_found-Raises :
      (run : CrawlRun) (run_id : ℕ) → Raises IsRaised (process_found env execute (some run) run_id)
  unfolding process_found
  process_found-Raises run run_id = Raises-bind _ _ _ (new_event-Raises _ env _ _ _ _) (λ event.
      Raises-bind _ _ _ (Raises-modify _ _) (λ _. Raises-bind _ _ _ save_run-Raises (λ _.
        Raises-try_except _ IsRaised _ _ (run_body-Raises event) (handle_run_error-Raises event))))
