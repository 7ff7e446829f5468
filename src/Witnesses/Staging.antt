-- ===== src/Witnesses/Staging.antt =====
-- A run whose stages are those of the program, on a site of one page that has no llms.txt, no
-- robots.txt and no sitemap, and is found by the scan.
use geo_optimizer.Base.{
  List, [], arith, codes_beq, codes_eq, if◌then◌else◌, length, nat_eq, none, refl, some, true, ℕ,
  ◌*◌, ◌+◌, ◌==◌, ◌∷◌, ◌≡◌, ◌≢◌,
}
use geo_optimizer.Text.{Text, lit}
use geo_optimizer.Dict.{lookup}
use geo_optimizer.Config.{Settings, StorageBackend}
use geo_optimizer.Errors.{ok}
use geo_optimizer.Http.{Response}
use geo_optimizer.Models.{CrawlRun, RunStatus, WorkItemState, WorkStage}
use geo_optimizer.World.{World, Env}
use geo_optimizer.Pipeline.{process_run, enqueue_run}
use geo_optimizer.Stages.{Outside, execute_stage}
use geo_optimizer.Stages.Completed.{IsCompleted, process_run-IsCompleted}
use geo_optimizer.Stages.Enqueued.{made_item, made_run, processed, lookup-processed}
use geo_optimizer.Stages.{
  retried, set_validators, of_found, on_spider_event, on_spider_events, scan_site, with_spider,
  discover, run_discovery, on_page_event, on_page_events, answered, extract_one, extract_all,
  extract, run_extraction, run_canonicalization, run_scoring, written, run_generation,
  execute_stage,
}
use geo_optimizer.Pipeline.{
  track_state_transition, transition_to, new_work_item, new_item, complete_item, new_event,
  stage_span, run_stage, run_stages, run_body, process_found, process_run,
}
use geo_optimizer.World.{
  pure, raise, gets, try_except, try_finally, modify, store_result, storing, continue, ◌>>=◌, now,
  perf_counter, uuid4, measure,
}
use geo_optimizer.Storage.{
  create_run, update_run, get_run, create_work_item, updated_item, same_state, state_event,
  write_item, update_work_item, get_discovered_urls, add_rows, add_discovered_urls, same_page,
  upsert_page, upsert_pages, upsert_extracted_pages, pages_of, get_extracted_pages, set_validator,
  save_artifact, create_event,
}
use geo_optimizer.Discover.{
  returning, requested, valid, unavailable, sitemap_source, collect_discovered, dedup, validated,
  output_of, sitemap_urls, sitemap_children, sitemap_root, parse_sitemap, llms_lines,
  direct_llms_strategy, robots_lines, robots_hints_strategy, sitemap_strategy, spider_strategy,
  or_tier, first_tiers,
}
use geo_optimizer.Spider.{
  record_links, scan_page, visit, scan_loop, initial, site, scanned, spider_scan,
}
use geo_optimizer.Extract.{
  meta_content, jsonld_value, stripped_title, extract_title, extract_description, page_of,
  nothing_extracted, keep_page, extract_page,
}
use geo_optimizer.Canonical.{normalize_url, total_confidence, add_page, canonicalize_and_dedup}
use geo_optimizer.Score.{score_of, score_pages}
use geo_optimizer.Generate.{group_pages, generate_llms_txt}
use geo_optimizer.Text.{lit, occurs}
use geo_optimizer.Dict.{lookup, lookup_or, has_key, set_default}
use geo_optimizer.Url.{urlparse}
use geo_optimizer.Sort.{sort_by}
use geo_optimizer.LinkFilter.{extract_same_domain_links}
use geo_optimizer.Models.{transition}
use geo_optimizer.Retry
use geo_optimizer.Discover

abbrev pub settings : Settings
settings = record {
  storage_backend = StorageBackend.sqlite;
  db_url = none;
  pg_host = none;
  pg_port = none;
  pg_user = none;
  pg_password = none;
  pg_database = none;
  celery_broker_url = lit "redis://";
  celery_result_backend = lit "redis://";
  celery_task_acks_late = true;
  celery_task_reject_on_worker_lost = true;
  celery_broker_visibility_timeout = 3600;
  spider_max_depth = 3;
  spider_max_scan_pages = 5;
  spider_max_index_pages = 5;
  spider_include_extensions = lit ".html,";
}

abbrev page : Response
page = record {
  status_code = 200;
  content_type = some (lit "text/html");
  etag = none;
  last_modified = none;
  text = [];
}

abbrev pub site_answer : Text → Response
site_answer url = if url == lit "http://h" then page else record page { status_code = 404 }

abbrev pub outside : Outside
outside = record {
  web = λ w url. some (site_answer url);
  get = λ w url headers. some (site_answer url);
  urljoin = λ base href. href;
  hrefs = λ text. [];
  parse = λ text. record { title_string = none; find_meta = λ attribute value. none; scripts = [] };
  from_string = λ text. none;
  http_url = λ url. some url;
  url_host = λ url. some url;
  splitlines = λ text. text ∷ [];
  link_target = λ line. none;
  set_order = λ urls. urls;
  depth = 10;
  printed_time = λ n. lit "now";
  message = λ e. lit "error";
  settings = settings;
  policy = record { retries = 3; base_delay = 1; backoff_multiplier = 2 };
}

abbrev pub env : Env
env = record {
  time = λ n. n;
  counter = λ n. n;
  uuid = λ n. (n + 10) * 1048576;
  row_id = λ run_id url. length url;
  show_id = λ id. [];
}

abbrev pub run : CrawlRun
run = record {
  id = 2;
  target_url = lit "http://h";
  hostname = lit "h";
  status = RunStatus.queued;
  score = none;
  score_breakdown = [];
  artifact_path = none;
  notes = [];
  created_at = 5;
  completed_at = none;
}

abbrev pub world : World
world = record {
  store = record {
    runs = (2, run) ∷ [];
    work_items = [];
    work_item_events = [];
    discovered_urls = [];
    extracted_pages = [];
    url_validators = [];
    artifacts = [];
    crawl_events = [];
  };
  run = run;
  item = record {
    id = 0;
    run_id = 2;
    stage = WorkStage.discovery;
    state = WorkItemState.queued;
    url = lit "http://h";
    attempt_count = 0;
    last_error = none;
    priority = 100;
    metadata = [];
    created_at = 5;
    updated_at = 5;
  };
  event = record {
    id = 0;
    run_id = 0;
    name = [];
    system = [];
    started_at = 0;
    completed_at = none;
    metadata = [];
  };
  measures = [];
  published = [];
  limiter = record { per_host_delay = 1; adaptive_penalty = 5; last_seen = [] };
  readings = 0;
  drawn = 0;
}

-- What `process_run` returns.
abbrev pub ended : CrawlRun
ended = record run {
  status = RunStatus.completed;
  score = some 2000;
  score_breakdown =
      (lit "coverage", 0)
      ∷ (lit "confidence", 0)
      ∷ (lit "redundancy", 10000)
      ∷ (lit "total", 2000)
      ∷ [];
  artifact_path = some (lit "artifact:");
  completed_at = some 54;
}

pub process_run_returns : (process_run env (execute_stage env outside) 2 world).0 ≡ ok ended
unfolding retried set_validators of_found on_spider_event on_spider_events scan_site with_spider
    discover run_discovery on_page_event on_page_events answered extract_one extract_all extract
    run_extraction run_canonicalization run_scoring written run_generation execute_stage
    track_state_transition transition_to new_item complete_item new_event stage_span run_stage
    run_stages run_body process_found process_run pure gets try_except try_finally storing ◌>>=◌ now
    perf_counter uuid4 measure update_run get_run create_work_item updated_item same_state
    state_event write_item update_work_item get_discovered_urls add_rows add_discovered_urls
    same_page upsert_page upsert_pages upsert_extracted_pages pages_of get_extracted_pages
    set_validator save_artifact create_event returning requested valid unavailable
    collect_discovered dedup output_of direct_llms_strategy robots_hints_strategy sitemap_strategy
    spider_strategy or_tier first_tiers record_links scan_page visit scan_loop initial site scanned
    spider_scan meta_content jsonld_value stripped_title extract_title extract_description page_of
    nothing_extracted keep_page extract_page normalize_url total_confidence add_page
    canonicalize_and_dedup score_of score_pages group_pages generate_llms_txt occurs lookup_or
    set_default urlparse sort_by extract_same_domain_links transition geo_optimizer.Retry.run
    geo_optimizer.Discover.◌>>=◌ codes_beq
process_run_returns = refl

pub id_of_stored : (stored : CrawlRun) → get_run 2 world.store ≡ some stored → stored.id ≡ 2
unfolding get_run lookup
id_of_stored stored e = ground arith

process_run-IsCompleted_example :
    IsCompleted 2 (process_run env (execute_stage env outside) 2 world).1
process_run-IsCompleted_example =
    process_run-IsCompleted env outside 2 world ended id_of_stored process_run_returns

abbrev pub url : Text
url = lit "http://h/"

pub enqueue_run_returns : (enqueue_run env url world).0 ≡ ok (made_run env url world)
unfolding enqueue_run new_work_item uuid4 now storing store_result create_run create_work_item
    track_state_transition measure modify raise pure continue ◌>>=◌ urlparse has_key lookup
enqueue_run_returns = refl

pub other_item : world.item.id ≢ (made_item env url world).id
other_item e = absurd (omega (arith, e))

lookup-processed_example :
    (lookup (made_run env url world).id (enqueue_run env url world).1.store.runs
      ≡ some (made_run env url world))
    × ((run_ids : List ℕ)
        → lookup
            (made_item env url world).id
            (processed env outside run_ids (enqueue_run env url world).1).store.work_items
          ≡ some (made_item env url world))
lookup-processed_example =
    lookup-processed env outside url world (made_run env url world) enqueue_run_returns other_item
