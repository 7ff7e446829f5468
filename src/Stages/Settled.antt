-- ===== src/Stages/Settled.antt =====
-- What becomes of a stored run that is processed with the code of the stages.
use mathlib.Core.Path.{subst}
use geo_optimizer.Base.{Option, arith, inl, inr, none, refl, some, ℕ, ◌∙◌, ◌≡◌, ◌⊎◌}
use geo_optimizer.Errors.{
  Error, Result, ok, err, invalid_transition, invalid_input, run_not_found, pipeline_processing,
  library,
}
use geo_optimizer.Models.{CrawlRun, RunStatus, WorkStage}
use geo_optimizer.Storage.{get_run}
use geo_optimizer.World.{World, Env, Exec, measure, gets, continue, ◌>>=◌}
use geo_optimizer.World.Keeps.{Keeps, Keeps-bind, Keeps-modify, Keeps-try_except}
use geo_optimizer.World.Does.{Does, Meets, Does-bind, Does-modify, Does-weaken, Does-Keeps}
use geo_optimizer.World.Raises.{Always}
use geo_optimizer.Pipeline.{run_stages, process_found, process_run, plan}
use geo_optimizer.Pipeline.Framed.{run_stages-Keeps}
use geo_optimizer.Pipeline.Runs.{IsRunFramed, run_body-Keeps, handle_run_error-Keeps}
use geo_optimizer.Pipeline.Raised.{
  IsRefusal, IsOfStage, IsRaised, new_event-Raises, process_found-Raises,
}
use geo_optimizer.Pipeline.Endings.{Ending, Recorded, process_run-Ending}
use geo_optimizer.Stages.{Outside, execute_stage}
use geo_optimizer.Stages.OnRun.{OnRun, OnRun-IsEventFramed, OnRun-IsFramed, OnRun-IsFetchFramed}
use geo_optimizer.Stages.Planned.{IsRun, save_run-Keeps}
use geo_optimizer.Stages.Executed.{execute_stage-Keeps}
use geo_optimizer.Stages.Completed.{IsCompleted, process_run-IsCompleted}

-- The storage has the run as completed or as failed.
abbrev pub IsSettled : ℕ → World → Type 0
IsSettled i w = Recorded RunStatus.completed i w.store ⊎ Recorded RunStatus.failed i w.store

module _ (env : Env) (outside : Outside) (i : ℕ) where
  abbrev Current : World → Type 0
  Current = OnRun (IsRun i)

  IsRun-IsRunFramed : IsRunFramed env Current
  IsRun-IsRunFramed = record {
    events = OnRun-IsEventFramed (IsRun i) env;
    run = λ w run same h. same ∙ h;
    limiter = λ w l h. h;
    save_run-Keeps = save_run-Keeps (IsRun i);
    measure-Keeps = λ m r. unfold measure in Keeps-modify _ (λ w h. h);
  }

  abbrev executed : WorkStage → Exec (Unit {0})
  executed = execute_stage env outside

  stages-Keeps : Keeps Current (run_stages env executed plan)
  stages-Keeps =
      run_stages-Keeps env _ (OnRun-IsFramed (IsRun i) env) executed
        (execute_stage-Keeps env outside _ IsRun-IsRunFramed (OnRun-IsFetchFramed (IsRun i) env)
          (λ w d h. h))
        plan

  -- The run that was taken up is the current one to the end.
  process_found-Does :
      (run : CrawlRun)
      → run.id ≡ i
      → Does Always (process_found env executed (some run) i) (λ _. Current) (λ e. Current)
  unfolding process_found
  process_found-Does run same =
      Does-bind (λ _. Always) _ _ _ _
        (Does-weaken _ _ _ _ _ (new_event-Raises (λ e. ⊥) env _ _ _ _) (λ w h. h) (λ a w h. h)
          (λ e w h. absurd h))
        (λ event.
          Does-bind (λ _. Current) _ _ _ _ (Does-modify _ _ _ (λ w h. same))
            (λ _. Does-Keeps _ (
              Keeps-bind _ _ (save_run-Keeps (IsRun i)) (λ _.
                Keeps-try_except _ _
                  (run_body-Keeps env _ IsRun-IsRunFramed executed stages-Keeps event)
                  (handle_run_error-Keeps env _ IsRun-IsRunFramed executed event)))))

  abbrev Outcome : Result CrawlRun × World → Type 0
  Outcome r = IsSettled i r.1 ⊎ ((e : Error) × (r.0 ≡ err e) × IsRefusal e)

  refused_only : (e : Error) (w : World) → (IsOfStage e → ⊥) → IsRaised e → Outcome (err e, w)
  refused_only e w not_stage h = elim h [ inl s ↦ absurd (not_stage s) | inr r ↦ inr (e, refl, r) ]

  settled :
      (r : Result CrawlRun × World)
      → Meets (λ _. Always) (λ e w. IsRaised e) r
      → Meets (λ _. Current) (λ e. Current) r
      → Ending r.0 r.1
      → ((run : CrawlRun) → r.0 ≡ ok run → IsCompleted i r.1)
      → Outcome r
  unfolding Ending
  settled (ok run, w) raised current ending completed =
      let (row, found, status, score, path, artifact) = completed run refl in
      inl (inl (row, found, status))
  settled (err (pipeline_processing stage id cause), w) raised current ending completed =
      inl (inr (subst (λ j. Recorded RunStatus.failed j w.store) current ending))
  settled (err (library message), w) raised current ending completed =
      refused_only _ w (λ b. b) raised
  settled (err (invalid_transition old next), w) raised current ending completed =
      refused_only _ w (λ b. b) raised
  settled (err (invalid_input field reason), w) raised current ending completed =
      refused_only _ w (λ b. b) raised
  settled (err (run_not_found id), w) raised current ending completed =
      refused_only _ w (λ b. b) raised

  found_again :
      (found : Option CrawlRun) (run : CrawlRun) (w : World)
      → found ≡ some run
      → run.id ≡ i
      → Meets (λ _. Always) (λ e w. IsRaised e) (process_found env executed found i w)
        × Meets (λ _. Current) (λ e. Current) (process_found env executed found i w)
  found_again none run w e same = absurd (ground arith)
  found_again (some other) run w e same = (
    (process_found-Raises env executed other i).at w tt,
    (process_found-Does other (ground arith)).at w tt,
  )

  -- A run that is stored under its identifier and is processed, however its stages fare, is stored
  -- as completed or as failed afterwards, unless the exception that is raised is one of a row that
  -- the database rejects or of a state that a work item rejects.
  pub process_run-IsSettled :
      (w : World) (run : CrawlRun)
      → get_run i w.store ≡ some run
      → run.id ≡ i
      → IsSettled i (process_run env (execute_stage env outside) i w).1
        ⊎ ((e : Error) × ((process_run env (execute_stage env outside) i w).0 ≡ err e)
            × IsRefusal e)
  unfolding process_run gets continue ◌>>=◌
  process_run-IsSettled w run stored same =
      let (raised, current) = found_again (get_run i w.store) run w stored same in
      settled (process_run env executed i w) raised current (process_run-Ending env executed i w)
        (λ done e. process_run-IsCompleted env outside i w done (λ other h. ground arith) e)
