-- ===== src/Pipeline/Gauge/Run.antt =====
-- A run keeps the gauge of the work items right, whatever becomes of it.
use geo_optimizer.Base.{List, [], inl, inr, refl, true, ℕ, ◌∷◌}
use geo_optimizer.Value.{Metadata}
use geo_optimizer.Errors.{Error, Result, ok, err}
use geo_optimizer.Models.{WorkItemState, WorkStage}
use geo_optimizer.World.{World, Env, Exec, perf_counter, measure, stage_event, ◌>>=◌}
use geo_optimizer.World.Keeps.{Keeps, Keeps-bind, Keeps-pure, Keeps-raise}
use geo_optimizer.World.Does.{
  Does, Meets, Does-bind, Does-gets, Does-weaken, Does-Keeps, Does-try_except, Does-try_finally,
}
use geo_optimizer.Pipeline.{
  stage_failed, stage_body, stage_span, run_stage, run_stages, plan, process_run, save_stage_event,
  close_stage_event,
}
use geo_optimizer.Pipeline.Framed.{new_event-Keeps, save_stage_event-Keeps}
use geo_optimizer.Pipeline.Runs.{IsRunFramed, process_run-Keeps}
use geo_optimizer.Pipeline.Gauge.{IsBalanced}
use geo_optimizer.Pipeline.Gauge.Framed.{
  IsBalanced-IsOfGauge, IsAt-IsOfGauge, gauge-IsEventFramed, gauge-IsRunFramed, set_event-Keeps,
  close_stage_event-Keeps,
}
use geo_optimizer.Pipeline.Gauge.Moves.{IsAt, StillBalanced}
use geo_optimizer.Pipeline.Gauge.Items.{
  IsUnsettled, complete_item-Does, fail_item-Does, new_item-Does,
}

-- The item of the stage is being processed, and counted so.
abbrev pub IsWorking : World → Type 0
IsWorking = IsAt WorkItemState.processing WorkItemState.processing

abbrev IsFinished : World → Type 0
IsFinished = IsAt WorkItemState.completed WorkItemState.completed

-- From a right gauge to a right gauge.
keeping :
    {A : Type 0} (m : Exec A)
    → Keeps IsBalanced m
    → Does IsBalanced m (λ _. IsBalanced) StillBalanced
keeping m k = Does-Keeps m k

kept_at :
    {A : Type 0} (E : Error → World → Type 0) (P : World → Type 0) (m : Exec A)
    → Keeps P m
    → ((e : Error) (w : World) → P w → E e w)
    → Does P m (λ _. P) E
kept_at E P m k e = Does-weaken _ _ _ _ m (Does-Keeps m k) (λ w h. h) (λ a w h. h) e

right :
    {A : Type 0} (r : Result A × World)
    → Meets (λ (_ : A). IsBalanced) StillBalanced r
    → IsBalanced r.1
right (ok a, w) h = h
right (err e, w) h = h

pub Keeps-Does :
    {A : Type 0} (m : Exec A)
    → Does IsBalanced m (λ _. IsBalanced) StillBalanced
    → Keeps IsBalanced m
Keeps-Does m d = record { at = λ w h. right (m w) (d.at w h) }

module _ (env : Env) (execute : WorkStage → Exec (Unit {0})) where
  framed : IsRunFramed env IsBalanced
  framed = gauge-IsRunFramed IsBalanced IsBalanced-IsOfGauge env

  saved : Keeps IsBalanced (save_stage_event env execute)
  saved = save_stage_event-Keeps env IsBalanced framed.events execute

  stage_failed-Does :
      (run_id : ℕ) (stage : WorkStage) (exc : Error)
      → Does IsUnsettled (stage_failed env execute run_id stage exc) (λ _. IsBalanced) StillBalanced
  unfolding stage_failed
  stage_failed-Does run_id stage exc =
      Does-bind (λ _. IsBalanced) _ _ _ _ (fail_item-Does env _)
        (λ _. keeping _ (
          Keeps-bind _ _ (framed.measure-Keeps _ tt) (λ _.
            Keeps-bind _ _ (close_stage_event-Keeps IsBalanced IsBalanced-IsOfGauge env _)
              (λ _. Keeps-raise _))))

  stage_span-Does :
      (stage : WorkStage) (body : Exec (Unit {0}))
      → Does IsWorking body (λ _. IsBalanced) StillBalanced
      → Does IsWorking (stage_span env stage body) (λ _. IsBalanced) StillBalanced
  unfolding stage_span perf_counter
  stage_span-Does stage body d =
      Does-bind (λ _. IsWorking) _ _ _ _ (record { at = λ w h. h })
        (λ start.
          Does-bind (λ _. IsBalanced) _ _ _ _ d
            (λ _.
              Does-bind (λ _. IsBalanced) _ _ _ _ (record { at = λ w h. h })
                (λ end. keeping _ (framed.measure-Keeps _ tt))))

  after-IsFinished :
      (stage : WorkStage) (entries : Metadata)
      → Keeps IsFinished (measure (stage_event stage true) >>= λ _. close_stage_event env entries)
  after-IsFinished stage entries =
      let of_gauge = IsAt-IsOfGauge WorkItemState.completed WorkItemState.completed in
      Keeps-bind _ _ ((gauge-IsRunFramed IsFinished of_gauge env).measure-Keeps _ tt)
        (λ _. close_stage_event-Keeps IsFinished of_gauge env entries)

  module _ (execute-IsWorking : (stage : WorkStage) → Keeps IsWorking (execute stage)) where
    stage_body-Does :
        (stage : WorkStage)
        → Does IsWorking (stage_body env execute stage) (λ _. IsBalanced) (λ e. IsUnsettled)
    unfolding stage_body
    stage_body-Does stage =
        Does-bind (λ _. IsWorking) _ _ _ _
          (kept_at _ IsWorking _ (execute-IsWorking stage) (λ e w h. inl h))
          (λ _.
            Does-bind (λ _. IsFinished) _ _ _ _ (complete_item-Does env)
              (λ _.
                Does-weaken _ _ _ _ _ (Does-Keeps _ (after-IsFinished stage _)) (λ w h. h)
                  (λ a w h. h.0) (λ e w h. inr (h.0, h.2))))

    run_stage-Does : (stage : WorkStage) → Keeps IsBalanced (run_stage env execute stage)
    unfolding run_stage
    run_stage-Does stage =
        let of_gauge = IsAt-IsOfGauge WorkItemState.processing WorkItemState.processing in
        Keeps-Does _ (
          Does-gets _ _ _ _ (λ run.
            Does-weaken _ _ _ _ _
              (Does-bind (λ _. IsWorking) _ StillBalanced _ _ (new_item-Does env _ _ _)
                (λ _.
                  Does-bind (λ _. IsWorking) _ _ _ _
                    (kept_at _ IsWorking _
                      (new_event-Keeps env IsWorking (gauge-IsEventFramed IsWorking of_gauge env) _
                        _ _ _)
                      (λ e w h. h.0))
                    (λ event.
                      Does-bind (λ _. IsWorking) _ _ _ _
                        (kept_at _ IsWorking _ (set_event-Keeps IsWorking of_gauge event)
                          (λ e w h. h.0))
                        (λ _. stage_span-Does stage _ (
                          Does-try_finally (λ _. IsBalanced) StillBalanced _ _
                            (Does-try_except _ _ (λ e. IsUnsettled) _ _ (stage_body-Does stage)
                              (stage_failed-Does _ stage))
                            (λ _. keeping _ saved) (λ _. keeping _ saved))))))
              (λ w h. h.0) (λ a w h. h) (λ e w h. h)))

    stages-IsBalanced : (stages : List WorkStage) → Keeps IsBalanced (run_stages env execute stages)
    unfolding run_stages
    stages-IsBalanced [] = Keeps-pure tt
    stages-IsBalanced (stage ∷ stages) =
        Keeps-bind _ _ (run_stage-Does stage) (λ _. stages-IsBalanced stages)

    pub process_run-IsBalanced : (run_id : ℕ) → Keeps IsBalanced (process_run env execute run_id)
    process_run-IsBalanced run_id =
        process_run-Keeps env IsBalanced framed execute (stages-IsBalanced plan)
          (λ w run h.
            IsBalanced-IsOfGauge.same w (record w { run = run }) refl refl (λ s. refl) (λ s. refl)
              h)
          run_id
