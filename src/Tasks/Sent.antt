-- ===== src/Tasks/Sent.antt =====
-- The message that a queued run is sent with, and the worker that takes it.
use mathlib.Core.List.{map-append}
use geo_optimizer.Base.{[], ap, codes_beq, codes_eq, map, nat_eq, refl, some, ◌++◌, ◌∙◌, ◌∷◌, ◌≡◌}
use geo_optimizer.Text.{Text, lit}
use geo_optimizer.Dict.{lookup}
use geo_optimizer.Value.{str}
use geo_optimizer.Errors.{ok}
use geo_optimizer.Config.{Settings}
use geo_optimizer.Models.{CrawlRun}
use geo_optimizer.World.{World, Env}
use geo_optimizer.Pipeline.{enqueue_run}
use geo_optimizer.Stages.Enqueued.{made_run, made_item, made_payload, enqueue_run-stored}
use geo_optimizer.Tasks.{build_celery_app, Message, publish, process_run_name}

module _ (env : Env) (settings : Settings) (broker backend app_name url : Text) (w : World) where
  -- The message for the new run.
  abbrev pub discovery_message : Text → Message
  discovery_message queue = record {
    task_name = process_run_name;
    kwargs =
        (lit "run_id", str (env.show_id (made_run env url w).id))
        ∷ (lit "work_item_id", str (env.show_id (made_item env url w).id))
        ∷ [];
    queue = queue;
  }

  -- If `enqueue_run` returns, one message is sent: to the task under the name that the worker
  -- registers for processing runs, with the new run's id, in the queue to which the configuration
  -- routes that task.
  pub enqueue_run-sent :
      (run : CrawlRun)
      → (enqueue_run env url w).0 ≡ ok run
      → (queue : Text) × (lookup process_run_name
            (build_celery_app settings broker backend app_name).task_routes
          ≡ some queue)
        × (map (publish (lit "crawllmer")) (enqueue_run env url w).1.published
            ≡ map (publish (lit "crawllmer")) w.published ++ discovery_message queue ∷ [])
  unfolding build_celery_app lookup codes_beq lit
  enqueue_run-sent run h =
      let (same, runs, items, current, fresh, artifacts, published) =
        enqueue_run-stored env url w run h in
      (
        lit "discovery",
        refl,
        ap (map (publish (lit "crawllmer"))) published
            ∙ map-append (publish (lit "crawllmer")) w.published (made_payload env url w ∷ [])
            ∙ unfold publish in refl,
      )
