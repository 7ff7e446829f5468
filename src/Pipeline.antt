-- ===== src/Pipeline.antt =====
-- src/crawllmer/core/orchestrator.py: `CrawlPipeline`. The functions of the stage plan are the
-- parameter `execute`. Logging and the attributes of spans are not modelled.
pub mod Framed
pub mod Runs
pub mod Raised
pub mod Gauge
pub mod Queued
pub mod Endings
use geo_optimizer.Base.{
  List, Option, [], codes_eq, false, if◌then◌else◌, is_empty, length, ltb, nat_eq, none, some, true,
  ℕ, ◌++◌, ◌+◌, ◌-◌, ◌||◌, ◌∷◌,
}
use geo_optimizer.Text.{Text, lit}
use geo_optimizer.Dict.{insert}
use geo_optimizer.Value.{Metadata, str, optional, null, float}
use geo_optimizer.Url.{urlparse}
use geo_optimizer.Errors.{
  Error, Result, ok, err, invalid_transition, invalid_input, run_not_found, pipeline_processing,
  describe,
}
use geo_optimizer.Scheduler.{wait}
use geo_optimizer.Models.{
  CrawlRun, RunStatus, WorkItem, WorkItemState, WorkStage, CrawlEvent, GenerationArtifact,
  stage_value, transition,
}
use geo_optimizer.Storage.{
  create_run, update_run, get_run, create_work_item, update_work_item, create_event,
  get_extracted_pages, get_artifact,
}
use geo_optimizer.World.{
  World, Env, Exec, Measure, state_count_up, state_count_down, stage_event, run_outcome,
  pages_indexed, llmstxt_size, pure, raise, gets, modify, storing, try_except, try_finally, ◌>>=◌,
  ◌>>◌, now, perf_counter, uuid4, measure, stage_duration,
}

-- `len(s.encode())`
char_bytes : ℕ → ℕ
char_bytes c = if ltb c 128 then 1 else if ltb c 2048 then 2 else if ltb c 65536 then 3 else 4

unfoldable pub byte_length : Text → ℕ
unfolding char_bytes
byte_length [] = 0
byte_length (c ∷ s) = char_bytes c + byte_length s

-- `telemetry.track_state_transition`
unfoldable pub track_state_transition : Option WorkItemState → WorkItemState → Exec (Unit {0})
track_state_transition none to_state = measure (state_count_up to_state)
track_state_transition (some from_state) to_state = do
  measure (state_count_down from_state)
  measure (state_count_up to_state)

abbrev pub plan : List WorkStage
plan =
    WorkStage.discovery ∷ WorkStage.extraction ∷ WorkStage.canonicalization ∷ WorkStage.scoring
    ∷ WorkStage.generation ∷ []

-- `item.transition(state)` of the current item, which may raise.
unfoldable pub moved : (state next_state : WorkItemState) → Option WorkItem → Exec (Unit {0})
moved state next_state none = raise (invalid_transition state next_state)
moved state next_state (some item) = modify (λ w. record w { item = item })

-- `repository.create_work_item(item)`, after which `item` is the current item.
unfoldable pub store_new : WorkItem → Exec (Unit {0})
store_new item = do storing (create_work_item item); modify (λ w. record w { item = item })

-- `repository.update_work_item(item)`
unfoldable pub save_item : Exec (Unit {0})
save_item = do current ← gets (λ w. w.item); storing (update_work_item current)

-- `repository.update_run(run)`
unfoldable pub save_run : Exec (Unit {0})
save_run = do run ← gets (λ w. w.run); storing (update_run run)

module _ (env : Env) where
  unfoldable pub transition_to : WorkItemState → Exec (Unit {0})
  unfolding moved
  transition_to state = do
    at ← now env
    item ← gets (λ w. w.item)
    moved item.state state (transition item state at)

  unfoldable pub new_work_item : ℕ → WorkStage → Text → Exec WorkItem
  new_work_item run_id stage url = do
    id ← uuid4 env
    created ← now env
    updated ← now env
    pure (record {
      id = id;
      run_id = run_id;
      stage = stage;
      state = WorkItemState.queued;
      url = url;
      attempt_count = 0;
      last_error = none;
      priority = 100;
      metadata = [];
      created_at = created;
      updated_at = updated;
    })

  -- `enqueue_run`
  unfoldable pub enqueue_run : Text → Exec CrawlRun
  unfolding new_work_item
  enqueue_run url =
      let parsed = urlparse url in
      if is_empty parsed.scheme || is_empty parsed.netloc
      then raise (invalid_input (lit "url") (lit "invalid URL"))
      else do
        id ← uuid4 env
        created ← now env
        let run : CrawlRun = record {
          id = id;
          target_url = url;
          hostname = parsed.netloc;
          status = RunStatus.queued;
          score = none;
          score_breakdown = [];
          artifact_path = none;
          notes = [];
          created_at = created;
          completed_at = none;
        }
        storing (create_run run)
        item ← new_work_item id WorkStage.discovery url
        storing (create_work_item item)
        track_state_transition none WorkItemState.queued
        modify (λ w. record w {
          published =
              w.published
              ++ (
                lit "discovery",
                (lit "run_id", str (env.show_id id))
                    ∷ (lit "work_item_id", str (env.show_id item.id))
                    ∷ [],
              )
                ∷ [];
        })
        pure run

  -- `_new_item`
  unfoldable pub new_item : ℕ → WorkStage → Text → Exec (Unit {0})
  unfolding new_work_item store_new save_item
  new_item run_id stage url = do
    item ← new_work_item run_id stage url
    store_new item
    track_state_transition none WorkItemState.queued
    transition_to WorkItemState.processing
    modify (λ w. record w { item = record (w.item) { attempt_count = w.item.attempt_count + 1 } })
    save_item
    track_state_transition (some WorkItemState.queued) WorkItemState.processing

  -- `_complete_item`
  unfoldable pub complete_item : Exec (Unit {0})
  unfolding save_item
  complete_item = do
    previous ← gets (λ w. w.item.state)
    transition_to WorkItemState.completed
    save_item
    track_state_transition (some previous) WorkItemState.completed

  -- `_fail_item`
  unfoldable pub fail_item : Text → Exec (Unit {0})
  unfolding save_item
  fail_item error = do
    previous ← gets (λ w. w.item.state)
    modify (λ w. record w { item = record (w.item) { last_error = some error } })
    transition_to WorkItemState.failed
    save_item
    track_state_transition (some previous) WorkItemState.failed

  unfoldable pub new_event : ℕ → Text → Text → Metadata → Exec CrawlEvent
  new_event run_id name system metadata = do
    id ← uuid4 env
    started ← now env
    pure (record {
      id = id;
      run_id = run_id;
      name = name;
      system = system;
      started_at = started;
      completed_at = none;
      metadata = metadata;
    })

  -- `telemetry.stage_span`: a body that raises has no duration.
  unfoldable pub stage_span : WorkStage → Exec (Unit {0}) → Exec (Unit {0})
  stage_span stage body = do
    start ← perf_counter env
    body
    end ← perf_counter env
    measure (stage_duration stage (end - start))

  -- Sets the end and further metadata of the event of the stage.
  unfoldable pub close_stage_event : Metadata → Exec (Unit {0})
  close_stage_event entries = do
    at ← now env
    modify (λ w. record w {
      event = record (w.event) { completed_at = some at; metadata = w.event.metadata ++ entries };
    })

  module _ (execute : WorkStage → Exec (Unit {0})) where
    unfoldable pub stage_failed : ℕ → WorkStage → Error → Exec (Unit {0})
    unfolding close_stage_event
    stage_failed run_id stage exc = do
      fail_item (describe env.show_id exc)
      measure (stage_event stage false)
      close_stage_event (
          (lit "outcome", str (lit "failure")) ∷ (lit "error", str (describe env.show_id exc)) ∷ [])
      raise (pipeline_processing stage run_id exc)

    unfoldable pub stage_body : WorkStage → Exec (Unit {0})
    unfolding close_stage_event
    stage_body stage = do
      execute stage
      complete_item
      measure (stage_event stage true)
      close_stage_event ((lit "outcome", str (lit "success")) ∷ [])

    unfoldable pub save_stage_event : Exec (Unit {0})
    save_stage_event = do event ← gets (λ w. w.event); storing (create_event event)

    -- `_run_stage`
    unfoldable pub run_stage : WorkStage → Exec (Unit {0})
    unfolding stage_failed stage_body save_stage_event stage_span
    run_stage stage = do
      run ← gets (λ w. w.run)
      new_item run.id stage run.target_url
      event ← new_event run.id (lit "stage." ++ stage_value stage) (stage_value stage) []
      modify (λ w. record w { event = event })
      stage_span stage
          (try_finally (try_except (stage_body stage) (stage_failed run.id stage)) save_stage_event)

    unfoldable pub run_stages : List WorkStage → Exec (Unit {0})
    run_stages [] = pure tt
    run_stages (stage ∷ stages) = do run_stage stage; run_stages stages

    -- `self.rate_limiter.wait(run.hostname)`
    unfoldable pub limit_rate : Exec (Unit {0})
    limit_rate = do
      entered ← now env
      later ← now env
      modify (λ w. record w { limiter = wait w.limiter w.run.hostname later })

    -- The metrics and the event of a run that completed.
    unfoldable pub report_success : CrawlEvent → Exec CrawlRun
    report_success run_event = do
      run ← gets (λ w. w.run)
      found ← gets (λ w. get_extracted_pages w.run.id w.store)
      artifact ← gets (λ w. get_artifact w.run.id w.store)
      measure (pages_indexed (length found))
      measure (llmstxt_size (elim artifact [ none ↦ 0 | some a ↦ byte_length a.llms_txt ]))
      at ← now env
      storing (
          create_event (record run_event {
            completed_at = some at;
            metadata =
                run_event.metadata
                ++ (lit "outcome", str (lit "success"))
                  ∷ (lit "score", elim run.score [ none ↦ null | some x ↦ float x ])
                  ∷ [];
          }))
      pure run

    -- What `process_run` does when all the stages have returned.
    unfoldable pub complete_run : CrawlEvent → Exec CrawlRun
    unfolding report_success save_run
    complete_run run_event = do
      at ← now env
      modify (λ w. record w {
        run = record (w.run) { completed_at = some at; status = RunStatus.completed };
      })
      save_run
      measure (run_outcome true)
      report_success run_event

    -- The body of the `try` in `process_run`.
    unfoldable pub run_body : CrawlEvent → Exec CrawlRun
    unfolding limit_rate complete_run
    run_body run_event = do limit_rate; run_stages plan; complete_run run_event

    -- The handler of a `PipelineProcessingError`.
    unfoldable pub run_failed : CrawlEvent → Error → Exec CrawlRun
    unfolding save_run
    run_failed run_event exc = do
      at ← now env
      modify (λ w. record w {
        run = record (w.run) {
          status = RunStatus.failed;
          notes = insert (lit "processing_error") (str (describe env.show_id exc)) w.run.notes;
          completed_at = some at;
        };
      })
      save_run
      measure (run_outcome false)
      closed ← now env
      storing (
          create_event (record run_event {
            completed_at = some closed;
            metadata =
                run_event.metadata
                ++ (lit "outcome", str (lit "failure"))
                  ∷ (lit "error", str (describe env.show_id exc))
                  ∷ [];
          }))
      raise exc

    -- Only a `PipelineProcessingError` is caught.
    unfoldable pub handle_run_error : CrawlEvent → Error → Exec CrawlRun
    handle_run_error run_event (pipeline_processing stage run_id cause) =
        run_failed run_event (pipeline_processing stage run_id cause)
    handle_run_error run_event exc = raise exc

    unfoldable pub process_found : Option CrawlRun → ℕ → Exec CrawlRun
    unfolding handle_run_error save_run
    process_found none run_id = raise (run_not_found run_id)
    process_found (some run) run_id = do
      run_event ←
          new_event run.id (lit "pipeline.run") (lit "pipeline")
            ((lit "target_url", str run.target_url) ∷ [])
      modify (λ w. record w { run = record run { status = RunStatus.running } })
      save_run
      try_except (run_body run_event) (handle_run_error run_event)

    unfoldable pub process_run : ℕ → Exec CrawlRun
    process_run run_id = do found ← gets (λ w. get_run run_id w.store); process_found found run_id
