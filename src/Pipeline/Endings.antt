-- ===== src/Pipeline/Endings.antt =====
-- How `process_run` ends, and what the storage then says of the run.
use geo_optimizer.Base.{
  Option, Option-cases, arith, codes_eq, inl, inr, nat_eq, none, refl, some, ℕ, ◌≡◌,
}
use geo_optimizer.Text.{lit}
use geo_optimizer.Dict.{lookup, insert}
use geo_optimizer.Value.{str}
use geo_optimizer.Errors.{
  describe, Error, Result, ok, err, run_not_found, pipeline_processing, invalid_input,
  invalid_transition, library,
}
use geo_optimizer.Models.{CrawlRun, RunStatus, CrawlEvent, WorkStage}
use geo_optimizer.Storage.{Store, update_run, get_run, create_event}
use geo_optimizer.Storage.Runs.{saved, get_run-update_run}
use geo_optimizer.World.{
  World, Env, Exec, pure, raise, gets, modify, storing, try_except, now, uuid4, measure, on_error,
  continue, store_result, ◌>>=◌,
}
use geo_optimizer.Pipeline.{
  save_run, new_event, complete_run, run_body, run_failed, handle_run_error, process_found,
  process_run, report_success, run_stages, limit_rate, plan,
}

-- The storage has the run, with this status.
abbrev pub Recorded : RunStatus → ℕ → Store → Type 0
Recorded status id store =
    (row : CrawlRun) × (lookup id store.runs ≡ some row) × (row.status ≡ status)

-- A run that is returned is stored as completed, and one whose stage failed as failed.
unfoldable pub Ending : Result CrawlRun → World → Type 0
Ending (ok run) w = Recorded RunStatus.completed run.id w.store
Ending (err (pipeline_processing stage run_id cause)) w = Recorded RunStatus.failed w.run.id w.store
Ending (err e) w = Unit

-- An update stores the status of the run.
update_run-Recorded :
    (run : CrawlRun) (store : Store)
    → (store' : Store) × (update_run run store ≡ ok store') × Recorded run.status run.id store'
update_run-Recorded run store =
    let (store', e, h) = get_run-update_run run store in
    (
      store',
      e,
      elim (Option-cases (get_run run.id store)) [
        | inl n ↦ (run, unfold get_run in ground (arith, h run.id), refl)
        | inr (row, s) ↦ (saved (some row) run, unfold get_run in ground (arith, h run.id), refl)
      ],
    )

module _ (env : Env) (execute : WorkStage → Exec (Unit {0})) where
  report_success-Ending :
      (event : CrawlEvent) (w : World)
      → Recorded RunStatus.completed w.run.id w.store
      → Ending (report_success env execute event w).0 (report_success env execute event w).1
  unfolding report_success Ending gets measure modify now storing store_result create_event pure
      continue ◌>>=◌
  report_success-Ending event w h = ground arith

  run_failed-Ending :
      (event : CrawlEvent) (stage : WorkStage) (id : ℕ) (cause : Error) (w : World)
      → Ending
          (run_failed env execute event (pipeline_processing stage id cause) w).0
          (run_failed env execute event (pipeline_processing stage id cause) w).1
  unfolding run_failed Ending save_run gets measure modify now storing store_result create_event
      raise continue ◌>>=◌
  run_failed-Ending event stage id cause w =
      let (store', e, h) =
        update_run-Recorded
          (record (w.run) {
            status = RunStatus.failed;
            notes =
                insert (lit "processing_error")
                  (str (describe env.show_id (pipeline_processing stage id cause))) w.run.notes;
            completed_at = some (env.time w.readings);
          })
          w.store in
      rw (e) (ground arith)

  handle_run_error-Ending :
      (event : CrawlEvent) (exc : Error) (w : World)
      → Ending
          (handle_run_error env execute event exc w).0
          (handle_run_error env execute event exc w).1
  unfolding handle_run_error Ending raise
  handle_run_error-Ending event (pipeline_processing stage id cause) w =
      run_failed-Ending event stage id cause w
  handle_run_error-Ending event (library message) w = tt
  handle_run_error-Ending event (invalid_transition old next) w = tt
  handle_run_error-Ending event (invalid_input field reason) w = tt
  handle_run_error-Ending event (run_not_found id) w = tt

  -- What holds of the body of the `try` when it returns a run.
  abbrev Returned : Result CrawlRun × World → Type 0
  Returned r = (run : CrawlRun) → r.0 ≡ ok run → Recorded RunStatus.completed run.id r.1.store

  continue-Returned :
      {A : Type 0} (r : Result A × World) (f : A → Exec CrawlRun)
      → ((a : A) (w : World) → Returned (f a w))
      → Returned (continue r f)
  unfolding continue
  continue-Returned (ok a, w) f h run p = h a w run p
  continue-Returned (err e, w) f h run p = absurd (ground arith)

  Ending-Returned : (r : Result CrawlRun × World) → Ending r.0 r.1 → Returned r
  unfolding Ending
  Ending-Returned (ok run, w) h found p = ground arith
  Ending-Returned (err e, w) h found p = absurd (ground arith)

  complete_run-Returned :
      (event : CrawlEvent) (w : World) → Returned (complete_run env execute event w)
  unfolding complete_run save_run gets now modify measure storing store_result continue ◌>>=◌
  complete_run-Returned event w =
      let run : CrawlRun = record (w.run) {
        completed_at = some (env.time w.readings);
        status = RunStatus.completed;
      } in
      let (store', e, h) = update_run-Recorded run w.store in
      rw (e) (Ending-Returned _ (report_success-Ending event _ h))

  run_body-Returned : (event : CrawlEvent) (w : World) → Returned (run_body env execute event w)
  unfolding run_body ◌>>=◌
  run_body-Returned event w =
      continue-Returned (limit_rate env execute w)
        (λ _. run_stages env execute plan >>= λ _. complete_run env execute event)
        (λ _ w1.
          continue-Returned (run_stages env execute plan w1) (λ _. complete_run env execute event)
            (λ _ w2. complete_run-Returned event w2))

  on_error-Ending :
      (r : Result CrawlRun × World) (handler : Error → Exec CrawlRun)
      → Returned r
      → ((e : Error) (w : World) → Ending (handler e w).0 (handler e w).1)
      → Ending (on_error r handler).0 (on_error r handler).1
  unfolding on_error Ending
  on_error-Ending (ok run, w) handler h k = h run refl
  on_error-Ending (err e, w) handler h k = k e w

  process_found-Ending :
      (found : Option CrawlRun) (run_id : ℕ) (w : World)
      → Ending
          (process_found env execute found run_id w).0
          (process_found env execute found run_id w).1
  unfolding process_found raise Ending save_run gets modify new_event uuid4 now pure storing
      store_result continue try_except ◌>>=◌
  process_found-Ending none run_id w = tt
  process_found-Ending (some run) run_id w =
      let running = record run { status = RunStatus.running } in
      let (store', e, h) = update_run-Recorded running w.store in
      rw (e) (
        on_error-Ending _ (handle_run_error env execute _) (run_body-Returned _ _)
          (handle_run_error-Ending _))

  -- However a run ends: one that `process_run` returns is stored as completed, and when it raises
  -- the error of a stage, the run that was being processed is stored as failed.
  pub process_run-Ending :
      (run_id : ℕ) (w : World)
      → Ending (process_run env execute run_id w).0 (process_run env execute run_id w).1
  unfolding process_run gets continue ◌>>=◌
  process_run-Ending run_id w = process_found-Ending (get_run run_id w.store) run_id w
