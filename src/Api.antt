-- ===== src/Api.antt =====
-- src/crawllmer/app/api/routes.py: the routes, as functions of the state of the pipeline. Their
-- answers are records; the ids and times in them are printed. Logging is not modelled, and
-- a limit is not negative.
pub mod Processed
pub mod Known
pub mod Accepted
use geo_optimizer.Base.{List, Option, [], inl, inr, map, none, some, ℕ, ◌∷◌, ◌⊎◌}
use geo_optimizer.Text.{Text, lit}
use geo_optimizer.Dict.{Dict}
use geo_optimizer.Value.{Metadata}
use geo_optimizer.Errors.{
  Error, Result, ok, err, describe, library, invalid_transition, invalid_input, run_not_found,
  pipeline_processing,
}
use geo_optimizer.Models.{
  CrawlRun, RunStatus, WorkItem, CrawlEvent, GenerationArtifact, WorkStage, ℤ, duration,
  stage_value, state_value,
}
use geo_optimizer.Storage.{Store, get_run, get_artifact, list_work_items, list_events, list_runs}
use geo_optimizer.World.{World, Env, Exec}
use geo_optimizer.Pipeline.{enqueue_run, process_run}

-- What a route returns or raises. Any other exception than an `HTTPException` is the server's.
pub data Reply (A : Type 0) : Type 0 where
  success : A → Reply A
  http_exception : (status_code : ℕ) (detail : Text) → Reply A
  unhandled : Error → Reply A

-- The status code that the framework answers with.
unfoldable pub status_code : {A : Type 0} → Reply A → ℕ
status_code (success a) = 200
status_code (http_exception code detail) = code
status_code (unhandled e) = 500

pub record CrawlView : Type 0 where
  pub run_id : Text
  pub status : RunStatus

pub record ProcessedView : Type 0 where
  pub run_id : Text
  pub status : RunStatus
  pub score : Option ℕ
  pub score_breakdown : Dict Text ℕ

pub record StatusView : Type 0 where
  pub run_id : Text
  pub host : Text
  pub status : RunStatus
  pub score : Option ℕ
  pub score_breakdown : Dict Text ℕ
  pub created_at : Text

pub record ItemView : Type 0 where
  pub id : Text
  pub run_id : Text
  pub stage : Text
  pub state : Text
  pub url : Text
  pub attempt_count : ℕ
  pub last_error : Option Text
  pub created_at : Text
  pub updated_at : Text

pub record EventView : Type 0 where
  pub id : Text
  pub run_id : Text
  pub name : Text
  pub system : Text
  pub started_at : Text
  pub completed_at : Option Text
  pub duration : Option ℤ
  pub metadata : Metadata

pub record HistoryView : Type 0 where
  pub run_id : Text
  pub host : Text
  pub status : RunStatus
  pub score : Option ℕ

-- The route `health`.
abbrev health : Dict Text Text
health = (lit "status", lit "ok") ∷ []

-- The handlers of a result: the value that is returned, or the exception.
unfoldable pub replied : {A B : Type 0} → (A → B) → (Error → Reply B) → Result A → Reply B
replied view handle (ok a) = success (view a)
replied view handle (err e) = handle e

-- `if x is None: raise HTTPException(404, detail)`
unfoldable pub found_or_404 : {A B : Type 0} → Text → (A → B) → Option A → Reply B
found_or_404 detail view none = http_exception 404 detail
found_or_404 detail view (some a) = success (view a)

module _ (env : Env) (isoformat : ℕ → Text) where
  -- The `except` clause of `crawl_api`.
  unfoldable pub crawl_error : Error → Reply CrawlView
  crawl_error (invalid_input field reason) =
      http_exception 422 (describe env.show_id (invalid_input field reason))
  crawl_error e = unhandled e

  -- The body of the route, for a URL that `HttpUrl` takes, as it prints it.
  unfoldable pub enqueue_api : Text → World → Reply CrawlView × World
  unfolding crawl_error replied
  enqueue_api url w =
      let (r, w') = enqueue_run env url w in
      (
        replied (λ (run : CrawlRun). record { run_id = env.show_id run.id; status = run.status })
            crawl_error r,
        w',
      )

  -- A payload is the URL as `HttpUrl` prints it, or the detail of the framework's refusal.
  unfoldable pub with_payload : Text ⊎ Text → World → Reply CrawlView × World
  unfolding enqueue_api
  with_payload (inl valid) w = enqueue_api valid w
  with_payload (inr detail) w = (http_exception 422 detail, w)

  -- The route `crawl_api`; `http_url` is `HttpUrl`, which reads the `url` of a `CrawlRequest`.
  unfoldable pub crawl_api : (Text → Text ⊎ Text) → Text → World → Reply CrawlView × World
  unfolding with_payload
  crawl_api http_url url w = with_payload (http_url url) w

  -- The `except` clauses of `process_run`.
  unfoldable pub process_error : Error → Reply ProcessedView
  process_error (run_not_found run_id) =
      http_exception 404 (describe env.show_id (run_not_found run_id))
  process_error (pipeline_processing stage run_id cause) =
      http_exception 500 (lit "processing failed")
  process_error e = unhandled e

  unfoldable pub processed_view : CrawlRun → ProcessedView
  processed_view run = record {
    run_id = env.show_id run.id;
    status = run.status;
    score = run.score;
    score_breakdown = run.score_breakdown;
  }

  -- The route `process_run`.
  unfoldable pub process_api :
      (WorkStage → Exec (Unit {0})) → ℕ → World → Reply ProcessedView × World
  unfolding process_error replied processed_view
  process_api execute run_id w =
      let (r, w') = process_run env execute run_id w in (replied processed_view process_error r, w')

  unfoldable pub status_view : CrawlRun → StatusView
  status_view run = record {
    run_id = env.show_id run.id;
    host = run.hostname;
    status = run.status;
    score = run.score;
    score_breakdown = run.score_breakdown;
    created_at = isoformat run.created_at;
  }

  unfoldable pub crawl_status : ℕ → Store → Reply StatusView
  unfolding found_or_404 status_view
  crawl_status run_id store = found_or_404 (lit "run not found") status_view (get_run run_id store)

  unfoldable pub crawl_llms_txt : ℕ → Store → Reply Text
  unfolding found_or_404
  crawl_llms_txt run_id store =
      found_or_404 (lit "llms.txt not found") (λ (artifact : GenerationArtifact). artifact.llms_txt)
        (get_artifact run_id store)

  unfoldable pub item_view : WorkItem → ItemView
  item_view item = record {
    id = env.show_id item.id;
    run_id = env.show_id item.run_id;
    stage = stage_value item.stage;
    state = state_value item.state;
    url = item.url;
    attempt_count = item.attempt_count;
    last_error = item.last_error;
    created_at = isoformat item.created_at;
    updated_at = isoformat item.updated_at;
  }

  unfoldable pub crawl_work_items : ℕ → Store → Reply (List ItemView)
  unfolding found_or_404 item_view
  crawl_work_items run_id store =
      found_or_404 (lit "run not found")
        (λ (run : CrawlRun). map item_view (list_work_items run_id store)) (get_run run_id store)

  unfoldable pub event_view : CrawlEvent → EventView
  event_view event = record {
    id = env.show_id event.id;
    run_id = env.show_id event.run_id;
    name = event.name;
    system = event.system;
    started_at = isoformat event.started_at;
    completed_at = elim event.completed_at [ none ↦ none | some t ↦ some (isoformat t) ];
    duration = duration event;
    metadata = event.metadata;
  }

  unfoldable pub crawl_events : ℕ → Store → Reply (List EventView)
  unfolding found_or_404 event_view
  crawl_events run_id store =
      found_or_404 (lit "run not found")
        (λ (run : CrawlRun). map event_view (list_events run_id store)) (get_run run_id store)

  unfoldable pub history_view : CrawlRun → HistoryView
  history_view run = record {
    run_id = env.show_id run.id;
    host = run.hostname;
    status = run.status;
    score = run.score;
  }

  unfoldable pub history : Option Text → ℕ → Store → List HistoryView
  unfolding history_view
  history host limit store = map history_view (list_runs host limit store)
