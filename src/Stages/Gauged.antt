-- ===== src/Stages/Gauged.antt =====
-- The gauge of the work items, whatever runs are enqueued and processed.
use geo_optimizer.Base.{
  Bool-cases, List, [], arith, inl, inr, is_empty, refl, ℕ, ◌+◌, ◌<◌, ◌||◌, ◌∷◌, ◌≡◌, ◌≢◌,
}
use geo_optimizer.Text.{Text}
use geo_optimizer.Errors.{ok}
use geo_optimizer.Models.{CrawlRun, WorkItemState, WorkStage}
use geo_optimizer.Storage.{create_run, add_discovered_urls, upsert_extracted_pages}
use geo_optimizer.Url.{urlparse}
use geo_optimizer.World.{World, Env, Exec, storing, uuid4}
use geo_optimizer.World.Keeps.{Keeps, Keeps-bind, Keeps-pure, Keeps-modify, Keeps-raise}
use geo_optimizer.World.Does.{Does, Does-bind, Does-Keeps}
use geo_optimizer.Pipeline.{enqueue_run, process_run}
use geo_optimizer.Pipeline.Framed.{now-Keeps}
use geo_optimizer.Pipeline.Gauge.{IsBalanced, ups, downs, count_in-pos}
use geo_optimizer.Pipeline.Gauge.Framed.{
  IsOfGauge, IsBalanced-IsOfGauge, IsAt-IsOfGauge, gauge-IsEventFramed, gauge-IsRunFramed,
  storing-Keeps,
}
use geo_optimizer.Pipeline.Gauge.Moves.{StillBalanced}
use geo_optimizer.Pipeline.Gauge.Items.{
  IsNew, create_work_item-Does, new_work_item-Does, IsNew-counted,
}
use geo_optimizer.Pipeline.Gauge.Run.{IsWorking, Keeps-Does, process_run-IsBalanced}
use geo_optimizer.Stages.{Outside, execute_stage, set_validators}
use geo_optimizer.Stages.Executed.{execute_stage-Keeps}
use geo_optimizer.Stages.Kept.{IsFetchFramed}
use geo_optimizer.Stages.Enqueued.{
  work_items-set_validators, processed, made_item, lookup-processed,
}

still :
    {A : Type 0} (m : Exec A)
    → Keeps IsBalanced m
    → Does IsBalanced m (λ _. IsBalanced) StillBalanced
still m k = Does-Keeps m k

create_run-IsBalanced : (run : CrawlRun) → Keeps IsBalanced (storing (create_run run))
create_run-IsBalanced run =
    storing-Keeps IsBalanced IsBalanced-IsOfGauge (create_run run)
      (λ s t h. unfold create_run in ground arith)

enqueue_run-IsBalanced : (env : Env) (url : Text) → Keeps IsBalanced (enqueue_run env url)
unfolding enqueue_run uuid4
enqueue_run-IsBalanced env url =
    let events = gauge-IsEventFramed IsBalanced IsBalanced-IsOfGauge env in
    elim (Bool-cases (is_empty (urlparse url).scheme || is_empty (urlparse url).netloc)) [
      | inl y ↦ rw y (Keeps-raise _)
      | inr n ↦ rw n (
          Keeps-bind _ _ (record { at = λ w h. events.drawn w (w.drawn + 1) h })
            (λ id. Keeps-bind _ _ (now-Keeps env IsBalanced events) (λ created.
              Keeps-bind _ _ (create_run-IsBalanced _) (λ _. Keeps-Does _ (
                Does-bind _ _ _ _ _ (new_work_item-Does env _ _ _) (λ item.
                  Does-bind (λ _. IsNew item) _ _ _ _ (create_work_item-Does item)
                    (λ _.
                      Does-bind (λ _. IsBalanced) _ _ _ _ (IsNew-counted _)
                        (λ _.
                          still _
                            (Keeps-bind _ _ (Keeps-modify _ (λ w h. h)) (λ _. Keeps-pure _))))))))))
    ]

-- The stages work on an item that is in process.
module _ (env : Env) where
  IsWorking-IsOfGauge : IsOfGauge IsWorking
  IsWorking-IsOfGauge = IsAt-IsOfGauge WorkItemState.processing WorkItemState.processing

  IsWorking-IsFetchFramed : IsFetchFramed env IsWorking
  IsWorking-IsFetchFramed = record {
    add_discovered_urls-Keeps = λ run_id urls.
        storing-Keeps IsWorking IsWorking-IsOfGauge (add_discovered_urls env.row_id run_id urls)
          (λ s t h. unfold add_discovered_urls in ground arith);
    upsert_extracted_pages-Keeps = λ pages.
        storing-Keeps IsWorking IsWorking-IsOfGauge (upsert_extracted_pages env.row_id pages)
          (λ s t h. unfold upsert_extracted_pages in ground arith);
    set_validators-Keeps = λ new. Keeps-modify _ (λ w h.
        IsWorking-IsOfGauge.same w (record w { store = set_validators new w.store })
          (work_items-set_validators new w.store) refl (λ s. refl) (λ s. refl) h);
  }

  module _ (outside : Outside) where
    execute_stage-IsWorking :
        (stage : WorkStage) → Keeps IsWorking (execute_stage env outside stage)
    execute_stage-IsWorking =
        execute_stage-Keeps env outside _ (gauge-IsRunFramed IsWorking IsWorking-IsOfGauge env)
          IsWorking-IsFetchFramed (λ w d h. h)

    -- One piece of work: a crawl that is requested, or a run that is processed.
    pub data Step : World → World → Type 0 where
      crawl_requested : (url : Text) (w : World) → Step w (enqueue_run env url w).1
      run_processed :
          (run_id : ℕ) (w : World) → Step w (process_run env (execute_stage env outside) run_id w).1

    -- The states that some sequence of such work leads to.
    pub data Reaches (u : World) : World → Type 0 where
      here : Reaches u u
      more : {v w : World} → Reaches u v → Step v w → Reaches u w

    Step-IsBalanced : {v w : World} → Step v w → IsBalanced v → IsBalanced w
    Step-IsBalanced (crawl_requested url v) h = (enqueue_run-IsBalanced env url).at v h
    Step-IsBalanced (run_processed run_id v) h =
        (process_run-IsBalanced env (execute_stage env outside) execute_stage-IsWorking run_id).at v
          h

    -- If the gauge of every state of a work item shows the number of the stored items in it, then
    -- it does so after any sequence of calls of `enqueue_run` and of `process_run` with the five
    -- stages, whether they return or raise.
    pub Reaches-IsBalanced : (u w : World) → Reaches u w → IsBalanced u → IsBalanced w
    Reaches-IsBalanced u w here h = h
    Reaches-IsBalanced u w (more {v} r s) h = Step-IsBalanced s (Reaches-IsBalanced u v r h)

    pub processed-Reaches :
        (u : World) (run_ids : List ℕ) (v : World)
        → Reaches u v
        → Reaches u (processed env outside run_ids v)
    unfolding processed
    processed-Reaches u [] v r = r
    processed-Reaches u (run_id ∷ run_ids) v r =
        processed-Reaches u run_ids _ (more r (run_processed run_id v))

    -- If the gauge was right and `enqueue_run` returns, where the process is not at work on an item
    -- with the identifier of the new one, then the gauge of the queued items stays above zero
    -- however many runs are processed afterwards, the new run included.
    pub processed-queued :
        (url : Text) (w : World) (run : CrawlRun)
        → IsBalanced w
        → (enqueue_run env url w).0 ≡ ok run
        → w.item.id ≢ (made_item env url w).id
        → (run_ids : List ℕ)
        → downs WorkItemState.queued
            (processed env outside run_ids (enqueue_run env url w).1).measures
          < ups WorkItemState.queued
              (processed env outside run_ids (enqueue_run env url w).1).measures
    processed-queued url w run h e other run_ids =
        let after = processed env outside run_ids (enqueue_run env url w).1 in
        let reached = processed-Reaches w run_ids _ (more here (crawl_requested url w)) in
        omega (
          arith,
          Reaches-IsBalanced w after reached h WorkItemState.queued,
          count_in-pos (made_item env url w).id (made_item env url w) after.store.work_items
              ((lookup-processed env outside url w run e other).1 run_ids),
        )
