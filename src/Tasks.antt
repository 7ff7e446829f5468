-- ===== src/Tasks.antt =====
-- src/crawllmer/app/indexer/queueing.py and app.py: the configuration of Celery, the message that
-- is sent for a published payload, and the tasks of the worker. Celery itself is not modelled.
pub mod Sent
use geo_optimizer.Base.{Bool, Option, [], if◌then◌else◌, none, some, ℕ, ◌++◌, ◌∷◌}
use geo_optimizer.Text.{Text, lit, starts_with}
use geo_optimizer.Dict.{Dict, lookup}
use geo_optimizer.Value.{Value, Metadata, optional, str}
use geo_optimizer.Errors.{Error, Result, ok, err}
use geo_optimizer.Http.{Client}
use geo_optimizer.Config.{Settings}
use geo_optimizer.Models.{CrawlRun, RunStatus, WorkStage, ExtractedPage}
use geo_optimizer.Storage.{Store, upsert_extracted_pages}
use geo_optimizer.Extract.{Head, index_page}
use geo_optimizer.World.{World, Env, Exec, raise, pure, storing, ◌>>=◌, ◌>>◌}
use geo_optimizer.Pipeline.{process_run}
use geo_optimizer.Script.{status_value}

pub record CeleryApp : Type 0 where
  pub app_name : Text
  pub broker : Text
  pub backend : Text
  pub task_routes : Dict Text Text
  pub task_acks_late : Bool
  pub task_reject_on_worker_lost : Bool
  pub visibility_timeout : Option ℕ

unfoldable pub build_celery_app : Settings → Text → Text → Text → CeleryApp
build_celery_app settings broker_url result_backend app_name = record {
  app_name = app_name;
  broker = broker_url;
  backend = result_backend;
  task_routes = (lit "crawllmer.discovery", lit "discovery") ∷ [];
  task_acks_late = settings.celery_task_acks_late;
  task_reject_on_worker_lost = settings.celery_task_reject_on_worker_lost;
  visibility_timeout =
      if starts_with (lit "redis") broker_url
      then some settings.celery_broker_visibility_timeout
      else none;
}

-- A call of `send_task`.
pub record Message : Type 0 where
  pub task_name : Text
  pub kwargs : Metadata
  pub queue : Text

-- `CeleryQueuePublisher.publish`
unfoldable pub publish : Text → Text × Metadata → Message
publish task_name_prefix (queue_name, payload) = record {
  task_name = task_name_prefix ++ (lit "." ++ queue_name);
  kwargs = payload;
  queue = queue_name;
}

-- The names under which the worker registers its tasks.
abbrev pub process_run_name : Text
process_run_name = lit "crawllmer.discovery"

abbrev pub index_page_name : Text
index_page_name = lit "crawllmer.index_page"

-- What a task returns.
pub record Processed : Type 0 where
  pub run_id : Text
  pub status : Text

pub data Indexed : Type 0 where
  not_indexed : (url : Text) → Indexed
  indexed : (url : Text) (title : Option Text) → Indexed

module _ (env : Env) (execute : WorkStage → Exec (Unit {0})) where
  -- `process_run_task`, where `parse_uuid` is `UUID` with its `ValueError`.
  unfoldable pub process_run_task : (Text → Result ℕ) → Text → Exec Processed
  process_run_task parse_uuid run_id = elim (parse_uuid run_id) [
    | err e ↦ raise e
    | ok id ↦ do
      run ← process_run env execute id
      pure (record { run_id = env.show_id run.id; status = status_value run.status })
  ]

module _ (env : Env) (parse : Text → Head) (client : Client) where
  unfoldable pub store_indexed : Text → Option ExtractedPage → Exec Indexed
  store_indexed url none = pure (not_indexed url)
  store_indexed url (some page) = do
    storing (upsert_extracted_pages env.row_id (page ∷ []))
    pure (indexed url page.title)

  -- `index_page_task`
  unfoldable pub index_page_task : (Text → Result ℕ) → Text → Text → Text → Exec Indexed
  unfolding store_indexed
  index_page_task parse_uuid url run_id provenance = elim (parse_uuid run_id) [
    | err e ↦ raise e
    | ok id ↦ store_indexed url (index_page parse client url id provenance)
  ]
