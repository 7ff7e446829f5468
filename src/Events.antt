-- ===== src/Events.antt =====
-- src/crawllmer/core/observability/events.py: the events that the stages and the run log, with
-- their attributes; and how src/crawllmer/core/orchestrator.py makes those of the stages. Their
-- time stamps are not modelled.
use geo_optimizer.Base.{List, [], ℕ, ◌++◌, ◌+◌, ◌∷◌}
use geo_optimizer.Text.{Text, lit, join}
use geo_optimizer.Value.{Metadata, str, int, float}

pub record DiscoveryCompleted : Type 0 where
  pub run_id : ℕ
  pub pages_discovered : ℕ
  pub strategies_used : List Text

pub record ExtractionCompleted : Type 0 where
  pub run_id : ℕ
  pub pages_extracted : ℕ
  pub pages_skipped : ℕ

pub record GenerationCompleted : Type 0 where
  pub run_id : ℕ
  pub llmstxt_size_bytes : ℕ
  pub entry_count : ℕ

pub record RunCompleted : Type 0 where
  pub run_id : ℕ
  pub total_pages_indexed : ℕ
  pub duration_seconds : ℕ
  pub llmstxt_size_bytes : ℕ

pub data LoggedEvent : Type 0 where
  logged_discovery : DiscoveryCompleted → LoggedEvent
  logged_extraction : ExtractionCompleted → LoggedEvent
  logged_generation : GenerationCompleted → LoggedEvent
  logged_run : RunCompleted → LoggedEvent

unfoldable pub event_name : LoggedEvent → Text
event_name (logged_discovery e) = lit "discovery.completed"
event_name (logged_extraction e) = lit "extraction.completed"
event_name (logged_generation e) = lit "generation.completed"
event_name (logged_run e) = lit "run.completed"

-- `to_attributes`
unfoldable pub to_attributes : (ℕ → Text) → LoggedEvent → Metadata
to_attributes show_id (logged_discovery e) =
    (lit "run.id", str (show_id e.run_id))
    ∷ (lit "discovery.pages_discovered", int e.pages_discovered)
    ∷ (lit "discovery.strategies_used", str (join (lit ",") e.strategies_used))
    ∷ []
to_attributes show_id (logged_extraction e) =
    (lit "run.id", str (show_id e.run_id))
    ∷ (lit "extraction.pages_extracted", int e.pages_extracted)
    ∷ (lit "extraction.pages_skipped", int e.pages_skipped)
    ∷ []
to_attributes show_id (logged_generation e) =
    (lit "run.id", str (show_id e.run_id))
    ∷ (lit "generation.llmstxt_size_bytes", int e.llmstxt_size_bytes)
    ∷ (lit "generation.entry_count", int e.entry_count)
    ∷ []
to_attributes show_id (logged_run e) =
    (lit "run.id", str (show_id e.run_id))
    ∷ (lit "run.total_pages_indexed", int e.total_pages_indexed)
    ∷ (lit "run.duration_seconds", float e.duration_seconds)
    ∷ (lit "run.llmstxt_size_bytes", int e.llmstxt_size_bytes)
    ∷ []

-- What the instruments of `BusinessMetrics` have been given.
pub record BusinessMetrics : Type 0 where
  pub pages_indexed : ℕ
  pub run_duration : List ℕ
  pub llmstxt_size : List ℕ

unfoldable pub record_run_completed : RunCompleted → BusinessMetrics → BusinessMetrics
record_run_completed event metrics = record {
  pages_indexed = metrics.pages_indexed + event.total_pages_indexed;
  run_duration = metrics.run_duration ++ event.duration_seconds ∷ [];
  llmstxt_size = metrics.llmstxt_size ++ event.llmstxt_size_bytes ∷ [];
}
