-- ===== src/Models.antt =====
-- src/crawllmer/domain/models.py: the statuses, and the records that the pipeline passes around.
-- A UUID is a number, a time is in microseconds, a confidence or a score in ten-thousandths.
pub mod Transitions
use geo_optimizer.Base.{Bool, Option, false, if◌then◌else◌, ltb, none, some, true, ℕ, ◌-◌}
use geo_optimizer.Text.{Text, lit}
use geo_optimizer.Dict.{Dict}
use geo_optimizer.Value.{Metadata}

pub data RunStatus : Type 0 where
  queued running completed failed : RunStatus

pub data WorkStage : Type 0 where
  discovery extraction canonicalization scoring generation : WorkStage

pub data WorkItemState : Type 0 where
  queued processing completed failed : WorkItemState

pub data DiscoverySource : Type 0 where
  llms robots sitemap crawl : DiscoverySource

-- `stage.value`, `source.value`
unfoldable pub stage_value : WorkStage → Text
stage_value discovery = lit "discovery"
stage_value extraction = lit "extraction"
stage_value canonicalization = lit "canonicalization"
stage_value scoring = lit "scoring"
stage_value generation = lit "generation"

unfoldable pub source_value : DiscoverySource → Text
source_value llms = lit "llms"
source_value robots = lit "robots"
source_value sitemap = lit "sitemap"
source_value crawl = lit "crawl"

pub record CrawlRun : Type 0 where
  pub id : ℕ
  pub target_url : Text
  pub hostname : Text
  pub status : RunStatus
  pub score : Option ℕ
  pub score_breakdown : Dict Text ℕ
  pub artifact_path : Option Text
  pub notes : Metadata
  pub created_at : ℕ
  pub completed_at : Option ℕ

pub record WorkItem : Type 0 where
  pub id : ℕ
  pub run_id : ℕ
  pub stage : WorkStage
  pub state : WorkItemState
  pub url : Text
  pub attempt_count : ℕ
  pub last_error : Option Text
  pub priority : ℕ
  pub metadata : Metadata
  pub created_at : ℕ
  pub updated_at : ℕ

pub record ExtractedPage : Type 0 where
  pub run_id : ℕ
  pub url : Text
  pub title : Option Text
  pub description : Option Text
  pub provenance : Dict Text Text
  pub confidence : Dict Text ℕ

pub record CrawlEvent : Type 0 where
  pub id : ℕ
  pub run_id : ℕ
  pub name : Text
  pub system : Text
  pub started_at : ℕ
  pub completed_at : Option ℕ
  pub metadata : Metadata

pub record GenerationArtifact : Type 0 where
  pub run_id : ℕ
  pub llms_txt : Text
  pub generated_at : ℕ

-- A difference of times, in microseconds.
pub data ℤ : Type 0 where
  pos negsuc : ℕ → ℤ

unfoldable pub since : ℕ → ℕ → ℤ
since start end = if ltb end start then negsuc (start - end - 1) else pos (end - start)

-- `CrawlEvent.duration`
unfoldable pub duration : CrawlEvent → Option ℤ
unfolding since
duration event = elim event.completed_at [
  | none ↦ none
  | some end ↦ some (since event.started_at end)
]

-- `state.value`
unfoldable pub state_value : WorkItemState → Text
state_value WorkItemState.queued = lit "queued"
state_value WorkItemState.processing = lit "processing"
state_value WorkItemState.completed = lit "completed"
state_value WorkItemState.failed = lit "failed"

-- `next_state in allowed[self.state]`
unfoldable pub allowed : WorkItemState → WorkItemState → Bool
allowed WorkItemState.queued WorkItemState.processing = true
allowed WorkItemState.queued WorkItemState.failed = true
allowed WorkItemState.processing WorkItemState.completed = true
allowed WorkItemState.processing WorkItemState.failed = true
allowed _ _ = false

-- `WorkItem.transition`, with the time at which it runs; `none` is the `ValueError`.
unfoldable pub transition : WorkItem → WorkItemState → ℕ → Option WorkItem
unfolding allowed
transition item next_state now =
    if allowed item.state next_state
    then some (record item { state = next_state; updated_at = now })
    else none
