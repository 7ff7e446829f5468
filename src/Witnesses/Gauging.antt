-- ===== src/Witnesses/Gauging.antt =====
-- The gauge of the work items, and the end of the run, on the run of Staging.
use geo_optimizer.Base.{[], codes_eq, is_some, nat_eq, not, refl, some, ◌<◌, ◌==◌, ◌∷◌, ◌≡◌, ◌⊎◌}
use geo_optimizer.Models.{WorkItemState}
use geo_optimizer.Pipeline.{process_run, enqueue_run}
use geo_optimizer.Pipeline.Gauge.{IsBalanced, ups, downs, count_in}
use geo_optimizer.Stages.{execute_stage}
use geo_optimizer.Stages.Enqueued.{made_run, processed}
use geo_optimizer.Stages.Gauged.{
  Reaches-IsBalanced, processed-queued, here, more, crawl_requested, run_processed,
}
use geo_optimizer.Errors.{Error, err}
use geo_optimizer.Storage.{get_run}
use geo_optimizer.Dict.{lookup}
use geo_optimizer.Pipeline.Raised.{IsRefusal}
use geo_optimizer.Stages.Settled.{IsSettled, process_run-IsSettled}
use geo_optimizer.Api.{status_code, process_api}
use geo_optimizer.Api.Known.{status_code-process_api}
use geo_optimizer.Witnesses.Staging.{env, outside, world, run, url, enqueue_run_returns, other_item}

balanced : IsBalanced world
unfolding count_in ups downs
balanced s = refl

Reaches-IsBalanced_example :
    IsBalanced (process_run env (execute_stage env outside) 2 (enqueue_run env url world).1).1
Reaches-IsBalanced_example =
    Reaches-IsBalanced env outside world
      (process_run env (execute_stage env outside) 2 (enqueue_run env url world).1).1
      (more (more here (crawl_requested url world)) (run_processed 2 (enqueue_run env url world).1))
      balanced

processed-queued_example :
    downs WorkItemState.queued
      (processed env outside (2 ∷ []) (enqueue_run env url world).1).measures
    < ups WorkItemState.queued
        (processed env outside (2 ∷ []) (enqueue_run env url world).1).measures
processed-queued_example =
    processed-queued env outside url world (made_run env url world) balanced enqueue_run_returns
      other_item (2 ∷ [])

run_stored : get_run 2 world.store ≡ some run
unfolding get_run lookup
run_stored = refl

process_run-IsSettled_example :
    IsSettled 2 (process_run env (execute_stage env outside) 2 world).1
    ⊎ ((e : Error) × ((process_run env (execute_stage env outside) 2 world).0 ≡ err e)
        × IsRefusal e)
process_run-IsSettled_example = process_run-IsSettled env outside 2 world run run_stored refl

status_code-process_api_example :
    (status_code (process_api env (λ n. []) (execute_stage env outside) 3 world).0 == 404)
    ≡ not (is_some (get_run 3 world.store))
status_code-process_api_example =
    status_code-process_api env (λ n. []) (execute_stage env outside) 3 world
