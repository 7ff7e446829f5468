-- ===== src/Witnesses/Running.antt =====
-- A pipeline whose stages do nothing, over a store with a queued run and its work item.
use geo_optimizer.Base.{[], none, ◌+◌, ◌∷◌}
use geo_optimizer.Text.{lit}
use geo_optimizer.Models.{CrawlRun, RunStatus, WorkItem, WorkItemState, WorkStage}
use geo_optimizer.World.{World, Env, Exec, pure}
use geo_optimizer.Pipeline.{process_run}
use geo_optimizer.Pipeline.Endings.{Ending, process_run-Ending}

abbrev env : Env
env = record {
  time = λ n. n;
  counter = λ n. n;
  uuid = λ n. n + 10;
  row_id = λ run_id url. 0;
  show_id = λ id. [];
}

abbrev run : CrawlRun
run = record {
  id = 2;
  target_url = lit "http://h";
  hostname = lit "h";
  status = RunStatus.queued;
  score = none;
  score_breakdown = [];
  artifact_path = none;
  notes = [];
  created_at = 5;
  completed_at = none;
}

-- The work item that was stored with the run.
abbrev enqueued : WorkItem
enqueued = record {
  id = 1;
  run_id = 2;
  stage = WorkStage.discovery;
  state = WorkItemState.queued;
  url = lit "http://h";
  attempt_count = 0;
  last_error = none;
  priority = 100;
  metadata = [];
  created_at = 5;
  updated_at = 5;
}

abbrev world : World
world = record {
  store = record {
    runs = (2, run) ∷ [];
    work_items = (1, enqueued) ∷ [];
    work_item_events = [];
    discovered_urls = [];
    extracted_pages = [];
    url_validators = [];
    artifacts = [];
    crawl_events = [];
  };
  run = run;
  item = record enqueued { id = 0 };
  event = record {
    id = 0;
    run_id = 0;
    name = [];
    system = [];
    started_at = 0;
    completed_at = none;
    metadata = [];
  };
  measures = [];
  published = [];
  limiter = record { per_host_delay = 1; adaptive_penalty = 5; last_seen = [] };
  readings = 0;
  drawn = 0;
}

abbrev idle : WorkStage → Exec (Unit {0})
idle stage = pure tt

process_run-Ending_example :
    Ending (process_run env idle 2 world).0 (process_run env idle 2 world).1
process_run-Ending_example = process_run-Ending env idle 2 world
