-- ===== src/Pipeline/Runs.antt =====
-- Invariants of a run: if the execution of the stages keeps one, so does `process_run`.
use geo_optimizer.Base.{Option, none, refl, some, ℕ, ◌≡◌}
use geo_optimizer.Errors.{Error, pipeline_processing}
use geo_optimizer.Models.{CrawlRun, WorkStage, CrawlEvent}
use geo_optimizer.Scheduler.{HostRateLimiter}
use geo_optimizer.World.{
  World, Env, Exec, Measure, state_count_up, state_count_down, stage_event, run_outcome,
  pages_indexed, llmstxt_size, stage_duration, measure,
}
use geo_optimizer.World.Keeps.{
  Keeps, Keeps-gets, Keeps-raise, Keeps-pure, Keeps-modify, Keeps-bind, Keeps-try_except,
}
use geo_optimizer.Pipeline.Framed.{IsEventFramed, now-Keeps, new_event-Keeps}
use geo_optimizer.Pipeline.{
  save_run, limit_rate, report_success, complete_run, run_body, run_failed, handle_run_error,
  process_found, process_run, run_stages, plan,
}

-- A measure that does not count work items by their state.
abbrev pub IsReport : Measure → Type 0
IsReport (state_count_up s) = ⊥
IsReport (state_count_down s) = ⊥
IsReport (stage_event stage success) = Unit
IsReport (run_outcome success) = Unit
IsReport (pages_indexed n) = Unit
IsReport (llmstxt_size n) = Unit
IsReport (stage_duration stage duration) = Unit

-- What an invariant must bear of the work around the stages.
pub record IsRunFramed (env : Env) (P : World → Type 0) : Type 0 where
  pub events : IsEventFramed env P
  pub run : (w : World) (run : CrawlRun) → run.id ≡ w.run.id → P w → P (record w { run = run })
  pub limiter : (w : World) (l : HostRateLimiter) → P w → P (record w { limiter = l })
  pub save_run-Keeps : Keeps P save_run
  pub measure-Keeps : (m : Measure) → IsReport m → Keeps P (measure m)

module _ (env : Env) (P : World → Type 0) (framed : IsRunFramed env P)
    (execute : WorkStage → Exec (Unit {0})) where
  open framed use {events, save_run-Keeps, measure-Keeps}
  open events use {create_event-Keeps}

  limit_rate-Keeps : Keeps P (limit_rate env execute)
  unfolding limit_rate
  limit_rate-Keeps = Keeps-bind _ _ (now-Keeps env P events) (λ entered.
      Keeps-bind _ _ (now-Keeps env P events)
        (λ later. Keeps-modify _ (λ w h. framed.limiter w _ h)))

  report_success-Keeps : (event : CrawlEvent) → Keeps P (report_success env execute event)
  unfolding report_success
  report_success-Keeps event = Keeps-bind _ _ (Keeps-gets _) (λ run.
      Keeps-bind _ _ (Keeps-gets _) (λ found. Keeps-bind _ _ (Keeps-gets _) (λ artifact.
        Keeps-bind _ _ (measure-Keeps _ tt) (λ _. Keeps-bind _ _ (measure-Keeps _ tt) (λ _.
          Keeps-bind _ _ (now-Keeps env P events)
            (λ at. Keeps-bind _ _ (create_event-Keeps _) (λ _. Keeps-pure run)))))))

  complete_run-Keeps : (event : CrawlEvent) → Keeps P (complete_run env execute event)
  unfolding complete_run
  complete_run-Keeps event = Keeps-bind _ _ (now-Keeps env P events) (λ at.
      Keeps-bind _ _ (Keeps-modify _ (λ w h. framed.run w _ refl h)) (λ _.
        Keeps-bind _ _ save_run-Keeps
          (λ _. Keeps-bind _ _ (measure-Keeps _ tt) (λ _. report_success-Keeps event))))

  run_failed-Keeps : (event : CrawlEvent) (exc : Error) → Keeps P (run_failed env execute event exc)
  unfolding run_failed
  run_failed-Keeps event exc = Keeps-bind _ _ (now-Keeps env P events) (λ at.
      Keeps-bind _ _ (Keeps-modify _ (λ w h. framed.run w _ refl h)) (λ _.
        Keeps-bind _ _ save_run-Keeps (λ _. Keeps-bind _ _ (measure-Keeps _ tt) (λ _.
          Keeps-bind _ _ (now-Keeps env P events)
            (λ closed. Keeps-bind _ _ (create_event-Keeps _) (λ _. Keeps-raise exc))))))

  pub handle_run_error-Keeps :
      (event : CrawlEvent) (exc : Error) → Keeps P (handle_run_error env execute event exc)
  unfolding handle_run_error
  handle_run_error-Keeps event (pipeline_processing stage run_id cause) = run_failed-Keeps event _
  handle_run_error-Keeps event exc = Keeps-raise exc

  module _ (stages-Keeps : Keeps P (run_stages env execute plan)) where
    pub run_body-Keeps : (event : CrawlEvent) → Keeps P (run_body env execute event)
    unfolding run_body
    run_body-Keeps event =
        Keeps-bind _ _ limit_rate-Keeps
          (λ _. Keeps-bind _ _ stages-Keeps (λ _. complete_run-Keeps event))

    -- The run that is taken up may be any.
    module _ (loaded : (w : World) (run : CrawlRun) → P w → P (record w { run = run })) where
      process_found-Keeps :
          (found : Option CrawlRun) (run_id : ℕ) → Keeps P (process_found env execute found run_id)
      unfolding process_found
      process_found-Keeps none run_id = Keeps-raise _
      process_found-Keeps (some run) run_id =
          Keeps-bind _ _ (new_event-Keeps env P events _ _ _ _) (λ event.
            Keeps-bind _ _ (Keeps-modify _ (λ w h. loaded w _ h)) (λ _.
              Keeps-bind _ _ save_run-Keeps
                (λ _. Keeps-try_except _ _ (run_body-Keeps event) (handle_run_error-Keeps event))))

      pub process_run-Keeps : (run_id : ℕ) → Keeps P (process_run env execute run_id)
      unfolding process_run
      process_run-Keeps run_id =
          Keeps-bind _ _ (Keeps-gets _) (λ found. process_found-Keeps found run_id)
