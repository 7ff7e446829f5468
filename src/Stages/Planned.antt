-- ===== src/Stages/Planned.antt =====
-- What the plan of the stages brings about: a score and an artifact.
use geo_optimizer.Base.{
  Option, ap, arith, codes_eq, is_some, nat_eq, none, refl, some, true, ℕ, ◌≡◌,
}
use geo_optimizer.Text.{Text}
use geo_optimizer.Dict.{Dict, lookup, lookup-insert}
use geo_optimizer.Errors.{Error}
use geo_optimizer.Models.{CrawlRun, WorkStage, GenerationArtifact}
use geo_optimizer.Storage.{save_artifact, update_run, create_run}
use geo_optimizer.World.{World, Env, Exec}
use geo_optimizer.World.Keeps.{Keeps, Keeps-gets, Keeps-bind, Keeps-pure, Keeps-raise}
use geo_optimizer.World.Ensures.{
  Ensures, Ensures-Keeps, Ensures-modify, Ensures-raise, Ensures-try_except, Ensures-try_finally,
  Ensures-bind, Ensures-gets, Ensures-any,
}
use geo_optimizer.Pipeline.{
  save_run, stage_body, stage_span, stage_failed, run_stage, run_stages, plan,
}
use geo_optimizer.Pipeline.Framed.{
  now-Keeps, perf_counter-Keeps, measure-Keeps, new_item-Keeps, complete_item-Keeps,
  new_event-Keeps, set_event-Keeps, close_stage_event-Keeps, save_stage_event-Keeps,
}
use geo_optimizer.Stages.{Outside, run_scoring, run_generation, written, execute_stage}
use geo_optimizer.Stages.OnRun.{
  OnRun, OnRun-IsFramed, OnRun-IsEventFramed, OnRun-IsFetchFramed, storing-OnRun,
}
use geo_optimizer.Stages.Kept.{
  run_discovery-Keeps, run_extraction-Keeps, run_canonicalization-Keeps,
}

-- The run has the identifier, and then a score, and then an artifact.
abbrev pub IsRun : ℕ → CrawlRun → Dict ℕ GenerationArtifact → Type 0
IsRun i run artifacts = run.id ≡ i

abbrev pub IsScored : ℕ → CrawlRun → Dict ℕ GenerationArtifact → Type 0
IsScored i run artifacts = (run.id ≡ i) × (is_some run.score ≡ true)

abbrev pub IsWritten : ℕ → CrawlRun → Dict ℕ GenerationArtifact → Type 0
IsWritten i run artifacts =
    (run.id ≡ i)
    × (is_some run.score ≡ true)
    × (is_some run.artifact_path ≡ true)
    × (is_some (lookup i artifacts) ≡ true)

pub save_run-Keeps : (Q : CrawlRun → Dict ℕ GenerationArtifact → Type 0) → Keeps (OnRun Q) save_run
unfolding save_run
save_run-Keeps Q = Keeps-bind _ _ (Keeps-gets _) (λ run.
    storing-OnRun Q (update_run run) (λ s t h. unfold update_run create_run in ground arith))

module _ (env : Env) (outside : Outside) (i : ℕ) where
  run_scoring-Ensures : Ensures (OnRun (IsRun i)) (run_scoring env outside) (OnRun (IsScored i))
  unfolding run_scoring
  run_scoring-Ensures =
      Ensures-bind {Q = OnRun (IsRun i)} _ _ (Ensures-Keeps _ (Keeps-gets _)) (λ pages.
        Ensures-bind {Q = OnRun (IsScored i)} _ _ (Ensures-modify _ (λ w h. (h, refl)))
          (λ _. Ensures-Keeps _ (save_run-Keeps (IsScored i))))

  written-Keeps :
      (Q : CrawlRun → Dict ℕ GenerationArtifact → Type 0) (text : Option Text)
      → Keeps (OnRun Q) (written env outside text)
  unfolding written
  written-Keeps Q none = Keeps-raise _
  written-Keeps Q (some text) = Keeps-pure text

  -- What was read of the run is still the run.
  abbrev Seen : CrawlRun → CrawlRun → Dict ℕ GenerationArtifact → Type 0
  Seen run now_run artifacts = IsScored i now_run artifacts × (now_run ≡ run)

  artifact_saved :
      (w : World) (run : CrawlRun) (a : GenerationArtifact)
      → OnRun (Seen run) w
      → a.run_id ≡ run.id
      → is_some (lookup i (save_artifact a w.store).artifacts) ≡ true
  unfolding save_artifact
  artifact_saved w run a h e =
      ground (arith, lookup-insert a.run_id i a w.store.artifacts, ap (λ (r : CrawlRun). r.id) h.1)

  run_generation-Ensures :
      Ensures (OnRun (IsScored i)) (run_generation env outside) (OnRun (IsWritten i))
  unfolding run_generation
  run_generation-Ensures = Ensures-gets _ _ (λ run.
      Ensures-bind {Q = OnRun (Seen run)} _ _ (Ensures-Keeps _ (Keeps-gets _)) (λ pages.
        Ensures-bind {Q = OnRun (Seen run)} _ _ (Ensures-Keeps _ (Keeps-gets _)) (λ discovered.
          Ensures-bind {Q = OnRun (Seen run)} _ _
            (Ensures-Keeps _ (now-Keeps env _ (OnRun-IsEventFramed (Seen run) env)))
            (λ printed.
              Ensures-bind {Q = OnRun (Seen run)} _ _ (Ensures-Keeps _ (written-Keeps (Seen run) _))
                (λ llms_txt.
                  Ensures-bind {Q = OnRun (Seen run)} _ _
                    (Ensures-Keeps _ (now-Keeps env _ (OnRun-IsEventFramed (Seen run) env)))
                    (λ generated.
                      Ensures-bind {Q = OnRun (IsWritten i)} _ _
                        (Ensures-modify _
                          (λ w h. (h.0.0, h.0.1, refl, artifact_saved w run _ h refl)))
                        (λ _. Ensures-Keeps _ (save_run-Keeps (IsWritten i)))))))))

  -- A stage that brings about `R` from `Q`, with the work around it.
  module _ (execute : WorkStage → Exec (Unit {0}))
      (Q R : CrawlRun → Dict ℕ GenerationArtifact → Type 0) where
    stage_failed-Ensures :
        (run_id : ℕ) (stage : WorkStage) (e : Error)
        → Ensures (λ w. Unit {0}) (stage_failed env execute run_id stage e) (OnRun R)
    unfolding stage_failed
    stage_failed-Ensures run_id stage e = Ensures-bind {Q = λ w. Unit {0}} _ _ (Ensures-any _) (λ _.
        Ensures-bind {Q = λ w. Unit {0}} _ _ (Ensures-any _)
          (λ _. Ensures-bind {Q = λ w. Unit {0}} _ _ (Ensures-any _) (λ _. Ensures-raise _)))

    stage_body-Ensures :
        (stage : WorkStage)
        → Ensures (OnRun Q) (execute stage) (OnRun R)
        → Ensures (OnRun Q) (stage_body env execute stage) (OnRun R)
    unfolding stage_body
    stage_body-Ensures stage k = Ensures-bind {Q = OnRun R} _ _ k (λ _.
        Ensures-bind {Q = OnRun R} _ _
          (Ensures-Keeps _ (complete_item-Keeps env _ (OnRun-IsFramed R env)))
          (λ _.
            Ensures-bind {Q = OnRun R} _ _
              (Ensures-Keeps _ (measure-Keeps env _ (OnRun-IsFramed R env) _))
              (λ _. Ensures-Keeps _ (close_stage_event-Keeps env _ (OnRun-IsFramed R env) _))))

    stage_span-Ensures :
        (stage : WorkStage) (body : Exec (Unit {0}))
        → Ensures (OnRun Q) body (OnRun R)
        → Ensures (OnRun Q) (stage_span env stage body) (OnRun R)
    unfolding stage_span
    stage_span-Ensures stage body k =
        Ensures-bind {Q = OnRun Q} _ _
          (Ensures-Keeps _ (perf_counter-Keeps env _ (OnRun-IsEventFramed Q env)))
          (λ start. Ensures-bind {Q = OnRun R} _ _ k (λ _.
            Ensures-bind {Q = OnRun R} _ _
              (Ensures-Keeps _ (perf_counter-Keeps env _ (OnRun-IsEventFramed R env)))
              (λ end. Ensures-Keeps _ (measure-Keeps env _ (OnRun-IsFramed R env) _))))

    run_stage-Ensures :
        (stage : WorkStage)
        → Ensures (OnRun Q) (execute stage) (OnRun R)
        → Ensures (OnRun Q) (run_stage env execute stage) (OnRun R)
    unfolding run_stage
    run_stage-Ensures stage k =
        Ensures-bind {Q = OnRun Q} _ _ (Ensures-Keeps _ (Keeps-gets _)) (λ run.
          Ensures-bind {Q = OnRun Q} _ _
            (Ensures-Keeps _ (new_item-Keeps env _ (OnRun-IsFramed Q env) _ _ _))
            (λ _.
              Ensures-bind {Q = OnRun Q} _ _
                (Ensures-Keeps _ (new_event-Keeps env _ (OnRun-IsEventFramed Q env) _ _ _ _))
                (λ event.
                  Ensures-bind {Q = OnRun Q} _ _
                    (Ensures-Keeps _ (set_event-Keeps env _ (OnRun-IsFramed Q env) (λ w. event)))
                    (λ _. stage_span-Ensures stage _ (
                      Ensures-try_finally _ _
                        (Ensures-try_except _ _ (stage_body-Ensures stage k)
                          (stage_failed-Ensures _ stage))
                        (save_stage_event-Keeps env _ (OnRun-IsEventFramed R env) execute))))))

  pub run_stages-Ensures :
      Ensures
        (OnRun (IsRun i))
        (run_stages env (execute_stage env outside) plan)
        (OnRun (IsWritten i))
  unfolding run_stages execute_stage
  run_stages-Ensures =
      let executed = execute_stage env outside in
      let framed = OnRun-IsEventFramed (IsRun i) env in
      let fetching = OnRun-IsFetchFramed (IsRun i) env in
      Ensures-bind {Q = OnRun (IsRun i)} _ _
        (run_stage-Ensures executed (IsRun i) (IsRun i) WorkStage.discovery
          (Ensures-Keeps _ (run_discovery-Keeps env outside _ framed fetching)))
        (λ _.
          Ensures-bind {Q = OnRun (IsRun i)} _ _
            (run_stage-Ensures executed (IsRun i) (IsRun i) WorkStage.extraction
              (Ensures-Keeps _ (run_extraction-Keeps env outside _ framed fetching)))
            (λ _.
              Ensures-bind {Q = OnRun (IsRun i)} _ _
                (run_stage-Ensures executed (IsRun i) (IsRun i) WorkStage.canonicalization
                  (Ensures-Keeps _ (run_canonicalization-Keeps env outside _ framed fetching)))
                (λ _.
                  Ensures-bind {Q = OnRun (IsScored i)} _ _
                    (run_stage-Ensures executed (IsRun i) (IsScored i) WorkStage.scoring
                      run_scoring-Ensures)
                    (λ _.
                      Ensures-bind {Q = OnRun (IsWritten i)} _ _
                        (run_stage-Ensures executed (IsScored i) (IsWritten i) WorkStage.generation
                          run_generation-Ensures)
                        (λ _. Ensures-Keeps _ (Keeps-pure tt))))))
