-- ===== src/Stages.antt =====
-- src/crawllmer/core/orchestrator.py: the functions of `_build_stage_plan`, on the state of the
-- pipeline, over the outside world as a record of parameters. Logging and spans are not modelled.
pub mod Kept
pub mod Executed
pub mod Enqueued
pub mod OnRun
pub mod Planned
pub mod Completed
pub mod Gauged
pub mod Settled
use geo_optimizer.Base.{
  Bool, List, Option, [], codes_eq, filter, find, if◌then◌else◌, inl, inr, is_empty, length, nat_eq,
  none, not, some, ℕ, ◌&&◌, ◌++◌, ◌-◌, ◌==◌, ◌∷◌, ◌⊎◌,
}
use geo_optimizer.Text.{Text, lit, rstrip_char}
use geo_optimizer.Dict.{Dict, lookup}
use geo_optimizer.Value.{Value, Metadata, Emission, int, null, float, str}
use geo_optimizer.Errors.{Error, Result, ok, err, library}
use geo_optimizer.Http.{Client, Response}
use geo_optimizer.Config.{Settings}
use geo_optimizer.Models.{CrawlRun, WorkStage, ExtractedPage, GenerationArtifact}
use geo_optimizer.Retry
use geo_optimizer.Retry.{RetryPolicy, Outcome, Ran, returned, raised, exhausted}
use geo_optimizer.Discover.{
  Found, found, failed, DiscoveryError, invalid_url, SitemapXml, StrategyOutput, valid, first_tiers,
  spider_strategy, collect_discovered, dedup,
}
use geo_optimizer.Spider.{Scan, scanned, scan_completed, spider_scan}
use geo_optimizer.Extract.{Head, Extraction, extract_page, request_headers, nothing_extracted}
use geo_optimizer.Canonical.{canonicalize_and_dedup}
use geo_optimizer.Score.{Score, score_pages, as_dict}
use geo_optimizer.Generate.{generate_llms_txt}
use geo_optimizer.Storage.{
  Store, add_discovered_urls, get_discovered_urls, upsert_extracted_pages, get_extracted_pages,
  set_validator, save_artifact, create_event,
}
use geo_optimizer.World.{
  World, Env, Exec, pure, raise, gets, modify, storing, now, uuid4, ◌>>=◌, ◌>>◌,
}
use geo_optimizer.Pipeline.{new_event, save_run}

-- What the stages are given. The web answers as it is at the moment; the libraries for HTML, XML
-- and URLs are functions, and `depth` is the nesting of calls that the stack takes.
pub record Outside : Type 0 where
  pub web : World → Client
  pub get : World → Text → List (Text × Text) → Option Response
  pub urljoin : Text → Text → Text
  pub hrefs : Text → List Text
  pub parse : Text → Head
  pub from_string : Text → Option SitemapXml
  pub http_url : Text → Option Text
  pub url_host : Text → Option Text
  pub splitlines : Text → List Text
  pub link_target : Text → Option Text
  pub set_order : List Text → List Text
  pub depth : ℕ
  pub printed_time : ℕ → Text
  pub message : DiscoveryError → Text
  pub settings : Settings
  pub policy : RetryPolicy

-- A call that is retried, as a function that changes the state and may raise.
unfoldable pub attempt : {A : Type 0} → Result A × World → (A ⊎ Error) × World
attempt (ok a, w) = (inl a, w)
attempt (err e, w) = (inr e, w)

unfoldable pub outcome_result : {A : Type 0} → Outcome Error A → Result A
outcome_result (returned a) = ok a
outcome_result (raised e) = err e
outcome_result exhausted = err (library (lit "retry policy exhausted without executing function"))

-- `self.retry.run(lambda: m)`
unfoldable pub retried : {A : Type 0} → RetryPolicy → Exec A → Exec A
unfolding attempt outcome_result
retried policy m w =
    let ran = Retry.run (λ v. attempt (m v)) policy w in (outcome_result ran.outcome, ran.state)

-- `data.get(key)` of a time among the fields of an event.
unfoldable pub time_field : Text → Metadata → Option ℕ
time_field key fields = elim (lookup key fields) [ some (int t) ↦ some t | _ ↦ none ]

unfoldable pub without_times : Metadata → Metadata
without_times fields =
    filter (λ (p : Text × Value). not (p.0 == lit "started_at") && not (p.0 == lit "completed_at"))
      fields

-- `set_validator` for each of the new validators.
unfoldable pub set_validators : Dict Text (Option Text × Option Text) → Store → Store
set_validators [] store = store
set_validators ((url, (etag, last_modified)) ∷ rest) store =
    set_validators rest (set_validator url etag last_modified store)

-- `p.url.rstrip("/") == root.rstrip("/")`
unfoldable pub is_home : Text → ExtractedPage → Bool
unfolding rstrip_char
is_home hostname page = rstrip_char b'/' page.url == rstrip_char b'/' (lit "https://" ++ hostname)

module _ (env : Env) (outside : Outside) where
  unfoldable pub of_found : {A : Type 0} → Found A → Exec A
  of_found (found a) = pure a
  of_found (failed e) = raise (library (outside.message e))

  -- `on_spider_event`
  unfoldable pub on_spider_event : Emission → Exec (Unit {0})
  on_spider_event emission = do
    run ← gets (λ w. w.run)
    event ← new_event env run.id emission.name (lit "spider") emission.fields
    storing (create_event event)

  unfoldable pub on_spider_events : List Emission → Exec (Unit {0})
  on_spider_events [] = pure tt
  on_spider_events (emission ∷ emissions) = do on_spider_event emission; on_spider_events emissions

  -- `spider_scan` with its callback, on the web as it is when the scan starts.
  unfoldable pub scan_site : Text → Exec (List (Text × ℕ × ℕ))
  scan_site seed_url = do
    client ← gets outside.web
    started ← now env
    let s = scanned outside.urljoin outside.hrefs client outside.settings seed_url
    on_spider_events s.events
    ended ← now env
    on_spider_event (
        scan_completed outside.urljoin outside.hrefs client outside.settings seed_url
          (ended - started) s)
    pure
        (spider_scan outside.urljoin outside.hrefs client outside.settings seed_url
          outside.set_order (ended - started)).0

  -- The last tier of `discover_urls`.
  unfoldable pub with_spider : Text → List StrategyOutput → Exec (List StrategyOutput)
  with_spider target_url outputs =
      if is_empty (collect_discovered outputs)
      then (do
        client ← gets outside.web
        ranked ← scan_site target_url
        output ← of_found (
            spider_strategy client outside.from_string outside.http_url outside.depth
              outside.urljoin outside.splitlines outside.link_target outside.settings ranked)
        pure (outputs ++ output ∷ []))
      else pure outputs

  -- `discover_urls`, with the callback of the stage.
  unfoldable pub discover : Text → Exec (Dict Text Text)
  discover target_url = do
    of_found (valid (outside.http_url target_url))
    run_id ← uuid4 env
    client ← gets outside.web
    outputs ← of_found (
        first_tiers client outside.from_string outside.http_url outside.depth outside.urljoin
          outside.splitlines outside.link_target target_url)
    outputs' ← with_spider target_url outputs
    pure (dedup (collect_discovered outputs') [])

  unfoldable pub run_discovery : Exec (Unit {0})
  run_discovery = do
    run ← gets (λ w. w.run)
    discovered ← retried outside.policy (discover run.target_url)
    storing (add_discovered_urls env.row_id run.id discovered)

  -- `on_page_event`
  unfoldable pub on_page_event : Emission → Exec (Unit {0})
  on_page_event emission = do
    run ← gets (λ w. w.run)
    default ← now env
    id ← uuid4 env
    storing (
        create_event (record {
          id = id;
          run_id = run.id;
          name = emission.name;
          system = lit "extraction";
          started_at = elim (time_field (lit "started_at") emission.fields) [
            | none ↦ default
            | some t ↦ t
          ];
          completed_at = time_field (lit "completed_at") emission.fields;
          metadata = without_times emission.fields;
        }))

  unfoldable pub on_page_events : List Emission → Exec (Unit {0})
  on_page_events [] = pure tt
  on_page_events (emission ∷ emissions) = do on_page_event emission; on_page_events emissions

  -- The answer to a request, or its `httpx.HTTPError`.
  unfoldable pub answered : Option Response → Exec Response
  answered none = raise (library (outside.message DiscoveryError.http_error))
  answered (some response) = pure response

  -- A round of `extract_metadata` with its callback; no validators are known to it. The readings
  -- of the clock are those of the round.
  unfoldable pub extract_one : Text → Text → Extraction → Exec Extraction
  extract_one url provenance s = do
    run ← gets (λ w. w.run)
    at ← gets (λ w. w.readings)
    answer ← gets (λ w. outside.get w url (request_headers none))
    response ← answered answer
    let t =
        extract_page env.time outside.parse run.id url provenance response
          (record s { events = []; readings = at })
    modify (λ w. record w { readings = t.readings })
    on_page_events t.events
    pure (record t { events = s.events ++ t.events })

  unfoldable pub extract_all : List (Text × Text) → Extraction → Exec Extraction
  extract_all [] s = pure s
  extract_all ((url, provenance) ∷ urls) s = do t ← extract_one url provenance s; extract_all urls t

  -- The call that `run_extraction` retries.
  unfoldable pub extract : Exec Extraction
  extract = do
    urls ← gets (λ w. get_discovered_urls w.run.id w.store)
    at ← gets (λ w. w.readings)
    extract_all urls (nothing_extracted at)

  unfoldable pub run_extraction : Exec (Unit {0})
  run_extraction = do
    extraction ← retried outside.policy extract
    storing (upsert_extracted_pages env.row_id extraction.pages)
    modify (λ w. record w { store = set_validators extraction.new_validators w.store })

  unfoldable pub run_canonicalization : Exec (Unit {0})
  run_canonicalization = do
    pages ← gets (λ w. get_extracted_pages w.run.id w.store)
    storing (upsert_extracted_pages env.row_id (canonicalize_and_dedup pages))

  unfoldable pub run_scoring : Exec (Unit {0})
  run_scoring = do
    pages ← gets (λ w. get_extracted_pages w.run.id w.store)
    let score = score_pages pages
    modify (λ w. record w {
      run = record (w.run) { score = some score.total; score_breakdown = as_dict score };
    })
    save_run

  -- The text of the run's `llms.txt`, or the error of an invalid URL.
  unfoldable pub written : Option Text → Exec Text
  written none = raise (library (outside.message invalid_url))
  written (some text) = pure text

  unfoldable pub run_generation : Exec (Unit {0})
  run_generation = do
    run ← gets (λ w. w.run)
    pages ← gets (λ w. get_extracted_pages w.run.id w.store)
    discovered ← gets (λ w. get_discovered_urls w.run.id w.store)
    let home = find (is_home run.hostname) pages
    printed ← now env
    llms_txt ← written (
        generate_llms_txt outside.http_url outside.url_host (outside.printed_time printed)
          run.hostname pages (elim home [ none ↦ none | some page ↦ page.title ])
          (elim home [ none ↦ none | some page ↦ page.description ]) (length discovered))
    generated ← now env
    modify (λ w. record w {
      store =
          save_artifact (record { run_id = run.id; llms_txt = llms_txt; generated_at = generated })
            w.store;
      run = record (w.run) { artifact_path = some (lit "artifact:" ++ env.show_id run.id) };
    })
    save_run

  -- `_build_stage_plan`
  unfoldable pub execute_stage : WorkStage → Exec (Unit {0})
  execute_stage WorkStage.discovery = run_discovery
  execute_stage WorkStage.extraction = run_extraction
  execute_stage WorkStage.canonicalization = run_canonicalization
  execute_stage WorkStage.scoring = run_scoring
  execute_stage WorkStage.generation = run_generation
