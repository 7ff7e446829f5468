-- ===== src/Lib.antt =====
-- A model of crawllmer, the program of this repository that crawls a web site and writes an
-- `llms.txt` for it, and theorems about it. Paths are from the root of the repository.
--
-- A run is queued by the API (`enqueue_run`), taken up by a worker (`process_run`), and goes through
-- five stages: discovery of URLs, extraction of metadata, canonicalisation, scoring and generation.
-- Every stage reads and writes the repository, and has a work item whose state says how far it is.
--
-- Parts and files:
--   Config, Config/*: src/crawllmer/core/config.py, the settings and their validator.
--   LinkFilter, LinkFilter/*: src/crawllmer/app/indexer/link_filter.py, the links of a page.
--   Spider, Spider/*: src/crawllmer/app/indexer/spider.py, the breadth-first scan of a site.
--   Discover, Discover/*: src/crawllmer/app/indexer/workers.py, `discover_urls` and its strategies.
--   Extract, Extract/*: the same file, titles, descriptions and `extract_metadata`; and
--     src/crawllmer/app/indexer/page_indexer.py, `index_page`.
--   Generate, Generate/*: the same file, `generate_llms_txt`, and `LlmsTxtDocument.to_text` of
--     src/crawllmer/domain/models.py.
--   Canonical, Score: src/crawllmer/app/indexer/workers.py, deduplication and scoring of pages.
--   Models, Models/*: src/crawllmer/domain/models.py, the records and the life of a work item.
--   Storage, Storage/*: src/crawllmer/adapters/storage.py, the repository over tables and the choice
--     of its engine.
--   Retry, Scheduler: src/crawllmer/core/retry.py and scheduler.py, retries and pacing.
--   Errors: src/crawllmer/core/errors.py, the exceptions with their texts.
--   World, World/*, Pipeline, Pipeline/*: src/crawllmer/core/orchestrator.py, `CrawlPipeline`; an
--     action takes the state (storage, run, current work item, current event, measures, clock) to a
--     result and a state; the measures are those of
--     src/crawllmer/core/observability/pipeline_telemetry.py.
--   Stages, Stages/*: the same file, the functions of `_build_stage_plan`, with
--     src/crawllmer/app/indexer/workers.py and spider.py as the stages call them.
--   Api, Api/*: src/crawllmer/app/api/routes.py, the routes with their status codes.
--   Ports, Ports/*: src/crawllmer/domain/ports.py, whose protocols are signatures only: what callers
--     are taken to rely on, written out.
--   Events: src/crawllmer/core/observability/events.py, events with attributes, and metrics.
--   Tasks, Tasks/*: src/crawllmer/app/indexer/queueing.py and app.py, messages and worker tasks.
--   Web, Web/*: src/crawllmer/app/web/streamlit_app.py, the texts and elements that the page shows,
--     and src/crawllmer/app/web/api_client.py.
--   Script, Script/*: scripts/check-crawl-status.py and scripts/submit-inttest.py, their output, the
--     crawls that are asked for and the exit codes.
--   Base, Text, Dict, Url, Sort, Value, Http: helpers; Url is `urllib.parse.urlparse`, and Sort is
--     a stable sort.
--   Witnesses: small inputs at which the theorems apply.
--
-- Conventions: a text is a list of character codes, a UUID a number, a time a number of
-- microseconds, a confidence or a score a number of ten-thousandths (floats are exact fractions
-- here, rounded as `round` does). The integers of the settings are natural numbers, and so are the
-- number, the delays and the multiplier of the retries. A set that is only asked for membership is
-- a list. Lower-casing and white space are those of ASCII.
--
-- Parameters: the HTTP client is a function from URLs to responses, so a site does not change
-- during a scan; `urljoin`, the HTML parser, `uuid4`, the clock and the hash behind the keys of
-- rows are functions too, and so is `HttpUrl`: the URL as it prints it, or its refusal of the
-- text. The reading of the clock after a sleep is an argument of the limiter; where a theorem
-- needs it, it is no earlier than the sleep asks for. The order in which Python goes through a set
-- is a parameter that permutes. Endings, Raised, Framed, Runs, Queued and Gauge of Pipeline take
-- the code of the stages as a parameter, which Stages fills: there the libraries are the fields of
-- `Outside`, and the web may answer differently at every request of a run, but not within one scan
-- or within the tiers before it.
--
-- Bounds: the nesting of sitemaps recurses on the depth of the interpreter's stack, and its end is
-- the error that Python raises there; the loop of the scan recurses on the number of pages that it
-- may still visit and on the queue, and needs no fuel; the loop of the retries recurses on the
-- attempts left.
--
-- Not modelled: logging, the attributes of spans, exporters, Celery and Streamlit themselves with
-- the widgets, the transport of HTTP, the table of all events of the page, and the engines of the
-- database.
pub mod Api
pub mod Base
pub mod Canonical
pub mod Config
pub mod Dict
pub mod Discover
pub mod Errors
pub mod Events
pub mod Extract
pub mod Generate
pub mod Http
pub mod LinkFilter
pub mod Models
pub mod Pipeline
pub mod Ports
pub mod Retry
pub mod Scheduler
pub mod Score
pub mod Script
pub mod Sort
pub mod Spider
pub mod Stages
pub mod Storage
pub mod Tasks
pub mod Text
pub mod Url
pub mod Value
pub mod Web
pub mod Witnesses
pub mod World
