-- ===== src/Api/Known.antt =====
-- The route that processes a run, for runs that are stored and for others.
use geo_optimizer.Base.{
  Option-cases, arith, codes_eq, false, inl, inr, is_some, nat_eq, not, refl, ℕ, ◌==◌, ◌≡◌,
}
use geo_optimizer.Text.{Text}
use geo_optimizer.Errors.{
  Result, ok, err, library, invalid_transition, invalid_input, run_not_found, pipeline_processing,
}
use geo_optimizer.Models.{CrawlRun, WorkStage}
use geo_optimizer.Storage.{get_run}
use geo_optimizer.World.{World, Env, Exec, raise, gets, continue, ◌>>=◌}
use geo_optimizer.World.Does.{Meets}
use geo_optimizer.World.Raises.{Always}
use geo_optimizer.Pipeline.{process_found, process_run}
use geo_optimizer.Pipeline.Raised.{IsRaised, process_found-Raises}
use geo_optimizer.Api.{status_code, replied, process_error, processed_view, process_api}

module _ (env : Env) (isoformat : ℕ → Text) where
  replied_known :
      (r : Result CrawlRun × World)
      → Meets (λ _. Always) (λ e w. IsRaised e) r
      → (status_code (replied (processed_view env isoformat) (process_error env isoformat) r.0)
          == 404)
        ≡ false
  unfolding status_code replied process_error
  replied_known (ok run, w) h = refl
  replied_known (err (pipeline_processing stage id cause), w) h = refl
  replied_known (err (library message), w) h = refl
  replied_known (err (invalid_transition old next), w) h = refl
  replied_known (err (invalid_input field reason), w) h = refl
  replied_known (err (run_not_found id), w) h = elim h [
    | inl b ↦ absurd b
    | inr r ↦ elim r [ inl e ↦ absurd (ground arith) | inr e ↦ absurd (ground arith) ]
  ]

  -- Whatever the code of the stages does, a request to process a run is answered with 404 exactly when
  -- the run is not stored.
  pub status_code-process_api :
      (execute : WorkStage → Exec (Unit {0})) (run_id : ℕ) (w : World)
      → (status_code (process_api env isoformat execute run_id w).0 == 404)
        ≡ not (is_some (get_run run_id w.store))
  unfolding process_api process_run gets continue ◌>>=◌
  status_code-process_api execute run_id w = elim (Option-cases (get_run run_id w.store)) [
    | inl n ↦ rw n (unfold process_found raise replied process_error status_code in refl)
    | inr (run, e) ↦ rw e (replied_known _ ((process_found-Raises env execute run run_id).at w tt))
  ]
