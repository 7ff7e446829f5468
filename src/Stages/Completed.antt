-- ===== src/Stages/Completed.antt =====
-- What the storage has for a run that went through all the stages.
use mathlib.Core.Path.{subst}
use geo_optimizer.Base.{
  Option, Option-cases, ap, arith, codes_eq, inl, inr, is_some, nat_eq, none, refl, some, true, ℕ,
  ◌∙◌, ◌≡◌,
}
use geo_optimizer.Dict.{Dict, lookup, lookup-insert}
use geo_optimizer.Errors.{Error, Result, ok, err, pipeline_processing}
use geo_optimizer.Models.{CrawlRun, RunStatus, WorkStage, CrawlEvent, GenerationArtifact}
use geo_optimizer.Storage.{Store, create_event, update_run, create_run, updated_run, get_run}
use geo_optimizer.World.{
  World, Env, Exec, Measure, modify, continue, storing, gets, measure, now, ◌>>=◌,
}
use geo_optimizer.World.Keeps.{
  Keeps, Keeps-gets, Keeps-bind, Keeps-storing, Keeps-pure, Keeps-modify,
}
use geo_optimizer.World.Ensures.{
  Holds, Ensures, Ensures-Keeps, Ensures-modify, Ensures-raise, Ensures-try_except, Ensures-bind,
  Ensures-storing, Ensures-gets, Ensures-any,
}
use geo_optimizer.Pipeline.{
  save_run, limit_rate, report_success, complete_run, run_body, run_failed, handle_run_error,
  process_found, process_run,
}
use geo_optimizer.Pipeline.Framed.{now-Keeps}
use geo_optimizer.Stages.{Outside, execute_stage}
use geo_optimizer.Stages.Planned.{IsRun, IsWritten, save_run-Keeps, run_stages-Ensures}
use geo_optimizer.Stages.OnRun.{OnRun, OnRun-IsEventFramed}

-- The storage has the run as completed, with its score, and its artifact.
abbrev pub IsCompleted : ℕ → World → Type 0
IsCompleted i w =
    (row : CrawlRun) × (lookup i w.store.runs ≡ some row)
    × (row.status ≡ RunStatus.completed)
    × (is_some row.score ≡ true)
    × (is_some row.artifact_path ≡ true)
    × (is_some (lookup i w.store.artifacts) ≡ true)

-- A row that an update leaves has the columns of the run.
update_run-row :
    (run : CrawlRun) (s t : Store)
    → update_run run s ≡ ok t
    → (row : CrawlRun) × (lookup run.id t.runs ≡ some row)
      × (row.status ≡ run.status)
      × (row.score ≡ run.score)
      × (row.artifact_path ≡ run.artifact_path)
      × (t.artifacts ≡ s.artifacts)
unfolding update_run create_run updated_run
update_run-row run s t h = elim (Option-cases (lookup run.id s.runs)) [
  | inl n ↦
      (run, ground (arith, lookup-insert run.id run.id run s.runs), refl, refl, refl, ground arith)
  | inr (row, e) ↦ (
    updated_run row run,
    ground (arith, lookup-insert run.id run.id (updated_run row run) s.runs),
    refl,
    refl,
    refl,
    ground arith,
  )
]

-- The run is about to be written as completed.
abbrev IsClosing : ℕ → CrawlRun → Dict ℕ GenerationArtifact → Type 0
IsClosing i run artifacts = IsWritten i run artifacts × (run.status ≡ RunStatus.completed)

IsCompleted-row :
    (i : ℕ) (w : World) (run : CrawlRun) (t : Store)
    → IsClosing i run w.store.artifacts
    → update_run run w.store ≡ ok t
    → IsCompleted i (record w { store = t })
IsCompleted-row i w run t h u =
    let (row, found, status, score, path, kept) = update_run-row run w.store t u in
    (
      row,
      subst (λ j. lookup j t.runs ≡ some row) h.0.0 found,
      status ∙ h.1,
      ap is_some score ∙ h.0.1,
      ap is_some path ∙ h.0.2,
      ap (λ (d : Dict ℕ GenerationArtifact). is_some (lookup i d)) kept ∙ h.0.3,
    )

returned :
    {A : Type 0} (Q : World → Type 0) (r : Result A × World) (a : A)
    → Holds Q r
    → r.0 ≡ ok a
    → Q r.1
returned Q (ok b, w) a h e = h
returned Q (err x, w) a h e = absurd (ground arith)

module _ (env : Env) (outside : Outside) (i : ℕ) where
  save_run-Ensures : Ensures (OnRun (IsClosing i)) save_run (IsCompleted i)
  unfolding save_run
  save_run-Ensures = Ensures-gets _ _ (λ run. Ensures-storing (update_run run) (λ w t h u.
      IsCompleted-row i w run t (subst (λ r. IsClosing i r w.store.artifacts) h.1 h.0) u))

  now-IsCompleted : Keeps (IsCompleted i) (now env)
  unfolding now
  now-IsCompleted = record { at = λ w h. h }

  measure-IsCompleted : (m : Measure) → Keeps (IsCompleted i) (measure m)
  unfolding measure
  measure-IsCompleted m = Keeps-modify _ (λ w h. h)

  create_event-IsCompleted : (e : CrawlEvent) → Keeps (IsCompleted i) (storing (create_event e))
  create_event-IsCompleted e =
      Keeps-storing (create_event e) (λ w s h u. unfold create_event in ground arith)

  module _ (execute : WorkStage → Exec (Unit {0})) where
    report_success-Keeps :
        (event : CrawlEvent) → Keeps (IsCompleted i) (report_success env execute event)
    unfolding report_success
    report_success-Keeps event = Keeps-bind _ _ (Keeps-gets _) (λ run.
        Keeps-bind _ _ (Keeps-gets _) (λ found. Keeps-bind _ _ (Keeps-gets _) (λ artifact.
          Keeps-bind _ _ (measure-IsCompleted _) (λ _. Keeps-bind _ _ (measure-IsCompleted _) (λ _.
            Keeps-bind _ _ now-IsCompleted
              (λ at. Keeps-bind _ _ (create_event-IsCompleted _) (λ _. Keeps-pure run)))))))

    complete_run-Ensures :
        (event : CrawlEvent)
        → Ensures (OnRun (IsWritten i)) (complete_run env execute event) (IsCompleted i)
    unfolding complete_run
    complete_run-Ensures event =
        Ensures-bind {Q = OnRun (IsWritten i)} _ _
          (Ensures-Keeps _ (now-Keeps env _ (OnRun-IsEventFramed (IsWritten i) env)))
          (λ at.
            Ensures-bind {Q = OnRun (IsClosing i)} _ _ (Ensures-modify _ (λ w h. (h, refl))) (λ _.
              Ensures-bind {Q = IsCompleted i} _ _ save_run-Ensures (λ _.
                Ensures-bind {Q = IsCompleted i} _ _ (Ensures-Keeps _ (measure-IsCompleted _))
                  (λ _. Ensures-Keeps _ (report_success-Keeps event)))))

    run_failed-Ensures :
        (event : CrawlEvent) (e : Error)
        → Ensures (λ w. Unit {0}) (run_failed env execute event e) (IsCompleted i)
    unfolding run_failed
    run_failed-Ensures event e = Ensures-bind {Q = λ w. Unit {0}} _ _ (Ensures-any _) (λ _.
        Ensures-bind {Q = λ w. Unit {0}} _ _ (Ensures-any _) (λ _.
          Ensures-bind {Q = λ w. Unit {0}} _ _ (Ensures-any _) (λ _.
            Ensures-bind {Q = λ w. Unit {0}} _ _ (Ensures-any _) (λ _.
              Ensures-bind {Q = λ w. Unit {0}} _ _ (Ensures-any _) (λ _.
                Ensures-bind {Q = λ w. Unit {0}} _ _ (Ensures-any _) (λ _. Ensures-raise e))))))

    handle_run_error-Ensures :
        (event : CrawlEvent) (e : Error)
        → Ensures (λ w. Unit {0}) (handle_run_error env execute event e) (IsCompleted i)
    unfolding handle_run_error
    handle_run_error-Ensures event (pipeline_processing stage run_id cause) =
        run_failed-Ensures event _
    handle_run_error-Ensures event e = Ensures-raise e

  limit_rate-Keeps :
      (execute : WorkStage → Exec (Unit {0})) → Keeps (OnRun (IsRun i)) (limit_rate env execute)
  unfolding limit_rate now modify continue ◌>>=◌
  limit_rate-Keeps execute = record { at = λ w h. h }

  run_body-Ensures :
      (event : CrawlEvent)
      → Ensures (OnRun (IsRun i)) (run_body env (execute_stage env outside) event) (IsCompleted i)
  unfolding run_body
  run_body-Ensures event =
      Ensures-bind {Q = OnRun (IsRun i)} _ _
        (Ensures-Keeps _ (limit_rate-Keeps (execute_stage env outside)))
        (λ _.
          Ensures-bind {Q = OnRun (IsWritten i)} _ _ (run_stages-Ensures env outside i)
            (λ _. complete_run-Ensures (execute_stage env outside) event))

  process_found-Ensures :
      (found : Option CrawlRun)
      → ((run : CrawlRun) → found ≡ some run → run.id ≡ i)
      → Ensures
          (λ w. Unit {0})
          (process_found env (execute_stage env outside) found i)
          (IsCompleted i)
  unfolding process_found
  process_found-Ensures none k = Ensures-raise _
  process_found-Ensures (some run) k =
      Ensures-bind {Q = λ w. Unit {0}} _ _ (Ensures-any _) (λ event.
        Ensures-bind {Q = OnRun (IsRun i)} _ _ (Ensures-modify _ (λ w h. k run refl)) (λ _.
          Ensures-bind {Q = OnRun (IsRun i)} _ _ (Ensures-Keeps _ (save_run-Keeps (IsRun i))) (λ _.
            Ensures-try_except _ _ (run_body-Ensures event)
              (handle_run_error-Ensures (execute_stage env outside) event))))

  -- If `process_run` returns, and the stored run has the identifier under which it is stored, then
  -- afterwards the storage has that run as completed, with a score and an artifact path, and has
  -- an artifact for it.
  pub process_run-IsCompleted :
      (w : World) (run : CrawlRun)
      → ((stored : CrawlRun) → get_run i w.store ≡ some stored → stored.id ≡ i)
      → (process_run env (execute_stage env outside) i w).0 ≡ ok run
      → IsCompleted i (process_run env (execute_stage env outside) i w).1
  unfolding process_run gets continue ◌>>=◌
  process_run-IsCompleted w run k e =
      returned (IsCompleted i) _ run ((process_found-Ensures (get_run i w.store) k).at w tt) e
