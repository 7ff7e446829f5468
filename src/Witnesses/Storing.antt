-- ===== src/Witnesses/Storing.antt =====
-- A store with a run, a work item and a page, and updates of these.
use geo_optimizer.Base.{
  [], any, codes_beq, codes_eq, if◌then◌else◌, nat_eq, none, refl, some, true, ℕ, ◌++◌, ◌==◌, ◌∷◌,
  ◌≡◌,
}
use geo_optimizer.Text.{lit}
use geo_optimizer.Dict.{lookup, insert}
use geo_optimizer.Errors.{ok}
use geo_optimizer.Models.{CrawlRun, RunStatus, WorkItem, WorkItemState, WorkStage, ExtractedPage}
use geo_optimizer.Storage.{
  Store, get_run, update_run, update_work_item, write_item, updated_item, state_event, same_state,
  upsert_extracted_pages, upsert_pages, upsert_page, same_page, pages_of,
}
use geo_optimizer.Storage.Runs.{saved, get_run-update_run}
use geo_optimizer.Storage.Items.{saved_item, changes, update_work_item_lem}
use geo_optimizer.Storage.Pages.{upsert_keeps_urls}

abbrev run : CrawlRun
run = record {
  id = 2;
  target_url = lit "http://h";
  hostname = lit "h";
  status = RunStatus.queued;
  score = none;
  score_breakdown = [];
  artifact_path = none;
  notes = [];
  created_at = 5;
  completed_at = none;
}

abbrev item : WorkItem
item = record {
  id = 1;
  run_id = 2;
  stage = WorkStage.scoring;
  state = WorkItemState.queued;
  url = [];
  attempt_count = 0;
  last_error = none;
  priority = 100;
  metadata = [];
  created_at = 5;
  updated_at = 5;
}

abbrev page : ExtractedPage
page = record {
  run_id = 2;
  url = 97 ∷ 47 ∷ [];
  title = none;
  description = none;
  provenance = [];
  confidence = [];
}

abbrev store : Store
store = record {
  runs = (2, run) ∷ [];
  work_items = (1, item) ∷ [];
  work_item_events = [];
  discovered_urls = [];
  extracted_pages = (9, page) ∷ [];
  url_validators = [];
  artifacts = [];
  crawl_events = [];
}

abbrev completed : CrawlRun
completed = record run { status = RunStatus.completed; completed_at = some 8 }

get_run-update_run_example :
    (store' : Store) × (update_run completed store ≡ ok store')
    × ((id : ℕ)
        → get_run id store' ≡ (
            if completed.id == id
            then some (saved (get_run 2 store) completed)
            else get_run id store))
get_run-update_run_example = get_run-update_run completed store

abbrev started : WorkItem
started = record item { state = WorkItemState.processing; updated_at = 6; attempt_count = 1 }

abbrev with_started : Store
with_started = record store {
  work_items = (1, started) ∷ [];
  work_item_events = state_event item started ∷ [];
}

started_stored : update_work_item started store ≡ ok with_started
unfolding update_work_item write_item updated_item same_state lookup insert
started_stored = refl

update_work_item_example :
    (lookup 1 with_started.work_items ≡ (
      if started.id == 1
      then some (saved_item (lookup 1 store.work_items) started)
      else lookup 1 store.work_items))
    × (with_started.work_item_events ≡ elim (lookup 1 store.work_items) [
      | none ↦ store.work_item_events
      | some row ↦ store.work_item_events ++ changes row started
    ])
update_work_item_example = update_work_item_lem started store with_started 1 started_stored

abbrev canonical : ExtractedPage
canonical = record page { url = 97 ∷ [] }

abbrev with_canonical : Store
with_canonical = record store { extracted_pages = (9, page) ∷ (10, canonical) ∷ [] }

canonical_stored :
    upsert_extracted_pages (λ run_id url. 10) (canonical ∷ []) store ≡ ok with_canonical
unfolding upsert_extracted_pages upsert_pages upsert_page same_page codes_beq
canonical_stored = refl

page_there :
    any (λ (p : ExtractedPage). p.url == page.url) (pages_of 2 store.extracted_pages) ≡ true
unfolding pages_of codes_beq
page_there = refl

upsert_keeps_urls_example :
    any (λ (p : ExtractedPage). p.url == page.url) (pages_of 2 with_canonical.extracted_pages)
    ≡ true
upsert_keeps_urls_example =
    upsert_keeps_urls (λ run_id url. 10) (canonical ∷ []) store with_canonical 2 page.url
      canonical_stored page_there
