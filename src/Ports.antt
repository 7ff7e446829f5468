-- ===== src/Ports.antt =====
-- src/crawllmer/domain/ports.py: `CrawlRepository`, as what its callers may rely on: a repository
-- that answers by key, and the calls that change it. The pages, the discovered URLs and the
-- changes of state of work items have theorems of their own in Storage.
pub mod Refined
use geo_optimizer.Base.{
  Eq, List, Option, [], codes_eq, if◌then◌else◌, nat_eq, none, some, ℕ, ◌==◌, ◌∷◌,
}
use geo_optimizer.Text.{Text}
use geo_optimizer.Errors.{Result, ok, err, integrity_error}
use geo_optimizer.Models.{CrawlRun, WorkItem, GenerationArtifact, CrawlEvent}
use geo_optimizer.Storage.Runs.{saved}

-- The answers of a repository: `get_run`, the stored work items and events by their ids,
-- `get_artifact` and `get_validator`.
pub record Repository : Type 0 where
  pub run : ℕ → Option CrawlRun
  pub work_item : ℕ → Option WorkItem
  pub event : ℕ → Option CrawlEvent
  pub artifact : ℕ → Option GenerationArtifact
  pub validator : Text → Option Text × Option Text

-- A call that writes.
pub data Call : Type 0 where
  call_create_run call_update_run : CrawlRun → Call
  call_create_work_item : WorkItem → Call
  call_create_event : CrawlEvent → Call
  call_save_artifact : GenerationArtifact → Call
  call_set_validator : (url : Text) (etag last_modified : Option Text) → Call

-- The answers, with another one at a key.
unfoldable pub put : {K V : Type 0} ⦃e : Eq K⦄ → K → V → (K → V) → K → V
put k v answers j = if k == j then v else answers j

unfoldable pub unless_present : {A : Type 0} → Option A → Repository → Result Repository
unless_present none repository = ok repository
unless_present (some a) repository = err integrity_error

-- What a call promises: a record is created once, a run is updated or created, and artifacts and
-- validators are replaced.
unfoldable pub promised : Call → Repository → Result Repository
unfolding put unless_present
promised (call_create_run run) r =
    unless_present (r.run run.id) (record r { run = put run.id (some run) r.run })
promised (call_update_run run) r =
    ok (record r { run = put run.id (some (saved (r.run run.id) run)) r.run })
promised (call_create_work_item item) r =
    unless_present (r.work_item item.id)
      (record r { work_item = put item.id (some item) r.work_item })
promised (call_create_event event) r =
    unless_present (r.event event.id) (record r { event = put event.id (some event) r.event })
promised (call_save_artifact artifact) r =
    ok (record r { artifact = put artifact.run_id (some artifact) r.artifact })
promised (call_set_validator url etag last_modified) r =
    ok (record r { validator = put url (etag, last_modified) r.validator })

unfoldable pub and_then : {A B : Type 0} → Result A → (A → Result B) → Result B
and_then (ok a) f = f a
and_then (err e) f = err e

-- Calls one after another, up to the first that raises.
unfoldable pub all_calls : {S : Type 0} → (Call → S → Result S) → List Call → S → Result S
unfolding and_then
all_calls perform [] s = ok s
all_calls perform (call ∷ calls) s = and_then (perform call s) (all_calls perform calls)
