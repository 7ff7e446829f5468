-- ===== src/Storage.antt =====
-- src/crawllmer/adapters/storage.py: the repository over SQL tables. A table with a primary key is
-- a dictionary, or a list of rows that carry their key; a commit is atomic, and one that would
-- repeat a primary key fails with the tables unchanged. JSON columns hold the values themselves.
pub mod Runs
pub mod Engines
pub mod Items
pub mod Pages
use geo_optimizer.Base.{
  Bool, List, Option, [], any, codes_eq, contains, false, filter, if◌then◌else◌, is_empty, leb, map,
  nat_eq, none, some, take, true, ℕ, ◌%◌, ◌&&◌, ◌++◌, ◌==◌, ◌∷◌,
}
use geo_optimizer.Text.{Text}
use geo_optimizer.Dict.{Dict, lookup, insert, has_key, values}
use geo_optimizer.Errors.{Result, ok, err, integrity_error}
use geo_optimizer.Sort.{sort_by}
use geo_optimizer.Http.{truthy}
use geo_optimizer.Models.{
  CrawlRun, WorkItem, WorkItemState, ExtractedPage, CrawlEvent, GenerationArtifact,
}
use Prim.Native.Nat.{bit_xor}

pub record WorkItemEvent : Type 0 where
  pub id : ℕ
  pub work_item_id : ℕ
  pub from_state : WorkItemState
  pub to_state : WorkItemState

pub record DiscoveredUrl : Type 0 where
  pub id : ℕ
  pub run_id : ℕ
  pub url : Text
  pub provenance : Text

-- A row of the extracted pages: its key, and the page.
abbrev pub PageRow : Type 0
PageRow = ℕ × ExtractedPage

pub record Store : Type 0 where
  pub runs : Dict ℕ CrawlRun
  pub work_items : Dict ℕ WorkItem
  pub work_item_events : List WorkItemEvent
  pub discovered_urls : List DiscoveredUrl
  pub extracted_pages : List PageRow
  pub url_validators : Dict Text (Option Text × Option Text)
  pub artifacts : Dict ℕ GenerationArtifact
  pub crawl_events : Dict ℕ CrawlEvent

unfoldable pub create_run : CrawlRun → Store → Result Store
create_run run store =
    if has_key run.id store.runs
    then err integrity_error
    else ok (record store { runs = insert run.id run store.runs })

-- The columns that `update_run` writes.
unfoldable pub updated_run : CrawlRun → CrawlRun → CrawlRun
updated_run row run = record row {
  status = run.status;
  score = run.score;
  score_breakdown = run.score_breakdown;
  artifact_path = run.artifact_path;
  notes = run.notes;
  completed_at = run.completed_at;
}

unfoldable pub update_run : CrawlRun → Store → Result Store
update_run run store = elim (lookup run.id store.runs) [
  | none ↦ create_run run store
  | some row ↦ ok (record store { runs = insert run.id (updated_run row run) store.runs })
]

unfoldable pub get_run : ℕ → Store → Option CrawlRun
get_run run_id store = lookup run_id store.runs

unfoldable pub list_runs : Option Text → ℕ → Store → List CrawlRun
list_runs hostname limit store =
    let newest_first =
      sort_by (λ (a b : CrawlRun). leb b.created_at a.created_at) (values store.runs) in
    take limit (elim hostname [
      | none ↦ newest_first
      | some host ↦
          if is_empty host
          then newest_first
          else filter (λ (run : CrawlRun). run.hostname == host) newest_first
    ])

unfoldable pub create_work_item : WorkItem → Store → Result Store
create_work_item item store =
    if has_key item.id store.work_items
    then err integrity_error
    else ok (record store { work_items = insert item.id item store.work_items })

unfoldable pub updated_item : WorkItem → WorkItem → WorkItem
updated_item row item = record row {
  state = item.state;
  attempt_count = item.attempt_count;
  last_error = item.last_error;
  updated_at = item.updated_at;
  metadata = item.metadata;
}

unfoldable pub same_state : WorkItemState → WorkItemState → Bool
same_state WorkItemState.queued WorkItemState.queued = true
same_state WorkItemState.processing WorkItemState.processing = true
same_state WorkItemState.completed WorkItemState.completed = true
same_state WorkItemState.failed WorkItemState.failed = true
same_state _ _ = false

-- The row that records a change of state; its key mixes in the microsecond of the change.
unfoldable pub state_event : WorkItem → WorkItem → WorkItemEvent
state_event row item = record {
  id = bit_xor item.id (item.updated_at % 1000000);
  work_item_id = item.id;
  from_state = row.state;
  to_state = item.state;
}

unfoldable pub write_item : WorkItem → WorkItem → Store → Result Store
write_item row item store =
    let written = insert item.id (updated_item row item) store.work_items in
    let event = state_event row item in
    if same_state row.state item.state
    then ok (record store { work_items = written })
    else if any (λ (e : WorkItemEvent). e.id == event.id) store.work_item_events
    then err integrity_error
    else ok (record store {
      work_items = written;
      work_item_events = store.work_item_events ++ event ∷ [];
    })

unfoldable pub update_work_item : WorkItem → Store → Result Store
update_work_item item store = elim (lookup item.id store.work_items) [
  | none ↦ create_work_item item store
  | some row ↦ write_item row item store
]

unfoldable pub list_work_items : ℕ → Store → List WorkItem
list_work_items run_id store =
    sort_by (λ (a b : WorkItem). leb a.created_at b.created_at)
      (filter (λ (item : WorkItem). item.run_id == run_id) (values store.work_items))

unfoldable pub get_discovered_urls : ℕ → Store → List (Text × Text)
get_discovered_urls run_id store =
    map (λ (row : DiscoveredUrl). (row.url, row.provenance))
      (filter (λ (row : DiscoveredUrl). row.run_id == run_id) store.discovered_urls)

-- `row_id` is the key that the program makes from the hash of a run and a URL.
module _ (row_id : ℕ → Text → ℕ) where
  -- The loop of `add_discovered_urls`; a row whose key is taken makes the commit fail.
  unfoldable pub add_rows :
      ℕ → List Text → List (Text × Text) → List DiscoveredUrl → Option (List DiscoveredUrl)
  add_rows run_id existing [] rows = some rows
  add_rows run_id existing ((url, provenance) ∷ urls) rows =
      let row : DiscoveredUrl = record {
        id = row_id run_id url;
        run_id = run_id;
        url = url;
        provenance = provenance;
      } in
      let skipped = add_rows run_id existing urls rows in
      let added = add_rows run_id existing urls (rows ++ row ∷ []) in
      if contains url existing
      then skipped
      else if any (λ (r : DiscoveredUrl). r.id == row.id) rows
      then none
      else added

  unfoldable pub add_discovered_urls : ℕ → List (Text × Text) → Store → Result Store
  add_discovered_urls run_id urls store =
      let existing = map (λ (p : Text × Text). p.0) (get_discovered_urls run_id store) in
      elim (add_rows run_id existing urls store.discovered_urls) [
        | none ↦ err integrity_error
        | some rows ↦ ok (record store { discovered_urls = rows })
      ]

unfoldable pub same_page : ExtractedPage → PageRow → Bool
same_page page (_, row) = row.run_id == page.run_id && row.url == page.url

-- Writes the first row of the run and the URL, if there is one.
unfoldable pub write_page : ExtractedPage → List PageRow → List PageRow
write_page page [] = []
write_page page (row ∷ rows) =
    if same_page page row then (row.0, page) ∷ rows else row ∷ write_page page rows

module _ (row_id : ℕ → Text → ℕ) where
  unfoldable pub upsert_page : ExtractedPage → List PageRow → Option (List PageRow)
  upsert_page page rows =
      if any (same_page page) rows
      then some (write_page page rows)
      else if any (λ (r : PageRow). r.0 == row_id page.run_id page.url) rows
      then none
      else some (rows ++ (row_id page.run_id page.url, page) ∷ [])

  unfoldable pub upsert_pages : List ExtractedPage → List PageRow → Option (List PageRow)
  upsert_pages [] rows = some rows
  upsert_pages (page ∷ pages) rows = elim (upsert_page page rows) [
    | none ↦ none
    | some rows' ↦ upsert_pages pages rows'
  ]

  unfoldable pub upsert_extracted_pages : List ExtractedPage → Store → Result Store
  upsert_extracted_pages pages store = elim (upsert_pages pages store.extracted_pages) [
    | none ↦ err integrity_error
    | some rows ↦ ok (record store { extracted_pages = rows })
  ]

unfoldable pub pages_of : ℕ → List PageRow → List ExtractedPage
pages_of run_id rows =
    filter (λ (page : ExtractedPage). page.run_id == run_id) (map (λ (r : PageRow). r.1) rows)

unfoldable pub get_extracted_pages : ℕ → Store → List ExtractedPage
get_extracted_pages run_id store = pages_of run_id store.extracted_pages

unfoldable pub set_validator : Text → Option Text → Option Text → Store → Store
set_validator url etag last_modified store = record store {
  url_validators = insert url (etag, last_modified) store.url_validators;
}

unfoldable pub get_validator : Text → Store → Option Text × Option Text
get_validator url store = elim (lookup url store.url_validators) [
  | none ↦ (none, none)
  | some row ↦ row
]

-- `session.merge` writes the row whether it was there or not.
unfoldable pub save_artifact : GenerationArtifact → Store → Store
save_artifact artifact store = record store {
  artifacts = insert artifact.run_id artifact store.artifacts;
}

unfoldable pub get_artifact : ℕ → Store → Option GenerationArtifact
get_artifact run_id store = lookup run_id store.artifacts

unfoldable pub create_event : CrawlEvent → Store → Result Store
create_event event store =
    if has_key event.id store.crawl_events
    then err integrity_error
    else ok (record store { crawl_events = insert event.id event store.crawl_events })

unfoldable pub list_events : ℕ → Store → List CrawlEvent
list_events run_id store =
    sort_by (λ (a b : CrawlEvent). leb a.started_at b.started_at)
      (filter (λ (event : CrawlEvent). event.run_id == run_id) (values store.crawl_events))
