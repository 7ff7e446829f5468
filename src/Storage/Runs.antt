-- ===== src/Storage/Runs.antt =====
-- Reading a run back after it was written.
use geo_optimizer.Base.{
  Option, Option-cases, arith, codes_eq, if◌then◌else◌, inl, inr, nat_eq, none, some, ℕ, ◌==◌, ◌≡◌,
}
use geo_optimizer.Dict.{lookup, insert, has_key, lookup-insert}
use geo_optimizer.Errors.{ok}
use geo_optimizer.Models.{CrawlRun}
use geo_optimizer.Storage.{Store, create_run, update_run, updated_run, get_run}

-- What the store holds for a run once it has been updated: the identity, the address and the start
-- of the row that was there, and everything else of the run.
abbrev pub saved : Option CrawlRun → CrawlRun → CrawlRun
saved none run = run
saved (some row) run = record {
  id = row.id;
  target_url = row.target_url;
  hostname = row.hostname;
  status = run.status;
  score = run.score;
  score_breakdown = run.score_breakdown;
  artifact_path = run.artifact_path;
  notes = run.notes;
  created_at = row.created_at;
  completed_at = run.completed_at;
}

-- An update never fails. A run that was not stored then reads back as it is; one that was stored
-- reads back with its status, score, breakdown, artifact path, notes and end, and with the address
-- and the start that were stored; and other runs read back as before.
pub get_run-update_run :
    (run : CrawlRun) (store : Store)
    → (store' : Store) × (update_run run store ≡ ok store')
      × ((id : ℕ)
          → get_run id store'
            ≡ (if run.id == id then some (saved (get_run run.id store) run) else get_run id store))
unfolding updated_run
get_run-update_run run store = elim (Option-cases (lookup run.id store.runs)) [
  | inl e ↦ (
    record store { runs = insert run.id run store.runs },
    unfold update_run create_run has_key in ground arith,
    λ id. unfold get_run in ground (arith, lookup-insert run.id id run store.runs),
  )
  | inr (row, e) ↦ (
    record store { runs = insert run.id (updated_run row run) store.runs },
    unfold update_run in ground arith,
    λ id.
        unfold get_run in ground (arith, lookup-insert run.id id (updated_run row run) store.runs),
  )
]
