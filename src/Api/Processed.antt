-- ===== src/Api/Processed.antt =====
-- The routes of a run that was processed.
use geo_optimizer.Base.{
  Option-cases, arith, codes_eq, inl, inr, is_some, nat_eq, refl, some, true, ℕ, ◌≡◌,
}
use geo_optimizer.Text.{Text}
use geo_optimizer.Dict.{lookup}
use geo_optimizer.Errors.{
  Result, ok, err, library, invalid_transition, invalid_input, run_not_found, pipeline_processing,
}
use geo_optimizer.Models.{CrawlRun, RunStatus}
use geo_optimizer.Storage.{Store, get_run, get_artifact}
use geo_optimizer.World.{World, Env}
use geo_optimizer.Pipeline.{process_run}
use geo_optimizer.Stages.{Outside, execute_stage}
use geo_optimizer.Stages.Completed.{IsCompleted, process_run-IsCompleted}
use geo_optimizer.Api.{
  success, StatusView, ProcessedView, replied, process_error, processed_view, process_api,
  crawl_status, crawl_llms_txt, status_view, found_or_404,
}

module _ (env : Env) (isoformat : ℕ → Text) where
  -- The routes answer that the run is completed, with a score, and with a text.
  abbrev pub IsReadable : ℕ → Store → Type 0
  IsReadable i store =
      (view : StatusView) × (crawl_status env isoformat i store ≡ success view)
      × (view.status ≡ RunStatus.completed)
      × (is_some view.score ≡ true)
      × ((text : Text) × (crawl_llms_txt env isoformat i store ≡ success text))

  IsCompleted-IsReadable : (i : ℕ) (w : World) → IsCompleted i w → IsReadable i w.store
  unfolding crawl_status crawl_llms_txt status_view found_or_404 get_run get_artifact
  IsCompleted-IsReadable i w (row, found, status, score, path, kept) =
      elim (Option-cases (lookup i w.store.artifacts)) [
        | inl n ↦ absurd (ground (arith, n, kept))
        | inr (artifact, e) ↦ (
          status_view env isoformat row,
          rw (found) refl,
          status,
          score,
          (artifact.llms_txt, rw (e) refl),
        )
      ]

  success-returned :
      (r : Result CrawlRun) (view : ProcessedView)
      → replied (processed_view env isoformat) (process_error env isoformat) r ≡ success view
      → (run : CrawlRun) × (r ≡ ok run)
  unfolding replied process_error
  success-returned (ok run) view h = (run, refl)
  success-returned (err (library message)) view h = absurd (ground arith)
  success-returned (err (invalid_transition old next)) view h = absurd (ground arith)
  success-returned (err (invalid_input field reason)) view h = absurd (ground arith)
  success-returned (err (run_not_found id)) view h = absurd (ground arith)
  success-returned (err (pipeline_processing stage id cause)) view h = absurd (ground arith)

  -- If the stored run has the identifier under which it is stored, and the request to process it
  -- with the program's stages succeeds, then afterwards the status of the run is answered as
  -- completed with a score, and its `llms.txt` is answered with a text.
  pub process_api-IsReadable :
      (outside : Outside) (i : ℕ) (w : World) (view : ProcessedView)
      → ((stored : CrawlRun) → get_run i w.store ≡ some stored → stored.id ≡ i)
      → (process_api env isoformat (execute_stage env outside) i w).0 ≡ success view
      → IsReadable i (process_api env isoformat (execute_stage env outside) i w).1.store
  unfolding process_api
  process_api-IsReadable outside i w view k h =
      let (run, e) = success-returned (process_run env (execute_stage env outside) i w).0 view h in
      IsCompleted-IsReadable i (process_run env (execute_stage env outside) i w).1
        (process_run-IsCompleted env outside i w run k e)
