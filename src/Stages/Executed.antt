-- ===== src/Stages/Executed.antt =====
-- Invariants that all five stages keep.
use geo_optimizer.Base.{Option, none, refl, some, ℕ}
use geo_optimizer.Text.{Text}
use geo_optimizer.Dict.{Dict}
use geo_optimizer.Models.{GenerationArtifact, WorkStage}
use geo_optimizer.World.{World, Env}
use geo_optimizer.World.Keeps.{Keeps, Keeps-gets, Keeps-raise, Keeps-pure, Keeps-modify, Keeps-bind}
use geo_optimizer.Storage.{save_artifact}
use geo_optimizer.Pipeline.Framed.{now-Keeps}
use geo_optimizer.Pipeline.Runs.{IsRunFramed}
use geo_optimizer.Stages.{Outside, run_scoring, run_generation, written, execute_stage}
use geo_optimizer.Stages.Kept.{
  IsFetchFramed, run_discovery-Keeps, run_extraction-Keeps, run_canonicalization-Keeps,
}

module _ (env : Env) (outside : Outside) (P : World → Type 0) (framed : IsRunFramed env P)
    (fetching : IsFetchFramed env P)
    (artifacts : (w : World) (d : Dict ℕ GenerationArtifact)
      → P w
      → P (record w { store = record (w.store) { artifacts = d } })) where
  open framed use {events, save_run-Keeps}

  run_scoring-Keeps : Keeps P (run_scoring env outside)
  unfolding run_scoring
  run_scoring-Keeps = Keeps-bind _ _ (Keeps-gets _) (λ pages.
      Keeps-bind _ _ (Keeps-modify _ (λ w h. framed.run w _ refl h)) (λ _. save_run-Keeps))

  written-Keeps : (text : Option Text) → Keeps P (written env outside text)
  unfolding written
  written-Keeps none = Keeps-raise _
  written-Keeps (some text) = Keeps-pure text

  run_generation-Keeps : Keeps P (run_generation env outside)
  unfolding run_generation save_artifact
  run_generation-Keeps = Keeps-bind _ _ (Keeps-gets _) (λ run.
      Keeps-bind _ _ (Keeps-gets _) (λ pages. Keeps-bind _ _ (Keeps-gets _) (λ discovered.
        Keeps-bind _ _ (now-Keeps env P events) (λ printed.
          Keeps-bind _ _ (written-Keeps _) (λ llms_txt.
            Keeps-bind _ _ (now-Keeps env P events) (λ generated.
              Keeps-bind _ _
                (Keeps-modify _ (λ w h. artifacts (record w { run = _ }) _ (framed.run w _ refl h)))
                (λ _. save_run-Keeps)))))))

  pub execute_stage-Keeps : (stage : WorkStage) → Keeps P (execute_stage env outside stage)
  unfolding execute_stage
  execute_stage-Keeps WorkStage.discovery = run_discovery-Keeps env outside P events fetching
  execute_stage-Keeps WorkStage.extraction = run_extraction-Keeps env outside P events fetching
  execute_stage-Keeps WorkStage.canonicalization =
      run_canonicalization-Keeps env outside P events fetching
  execute_stage-Keeps WorkStage.scoring = run_scoring-Keeps
  execute_stage-Keeps WorkStage.generation = run_generation-Keeps
