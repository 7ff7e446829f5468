-- ===== src/Stages/Enqueued.antt =====
-- The work item that `enqueue_run` stores is never worked on.
use geo_optimizer.Base.{
  Bool-cases, List, Option, [], arith, codes_eq, false, inl, inr, is_empty, nat_eq, none, refl,
  some, ℕ, ◌++◌, ◌+◌, ◌||◌, ◌∷◌, ◌≡◌, ◌≢◌,
}
use geo_optimizer.Text.{Text, lit}
use geo_optimizer.Dict.{Dict, lookup, insert, has_key, lookup-insert}
use geo_optimizer.Errors.{Result, ok}
use geo_optimizer.Value.{Metadata, str}
use geo_optimizer.Url.{urlparse}
use geo_optimizer.Models.{RunStatus, CrawlRun, WorkItem, WorkItemState, WorkStage}
use geo_optimizer.Storage.{
  Store, add_discovered_urls, upsert_extracted_pages, set_validator, create_run, create_work_item,
}
use geo_optimizer.World.{
  World, Env, modify, storing, store_result, raise, pure, now, uuid4, measure, continue, ◌>>=◌,
}
use geo_optimizer.World.Keeps.{Keeps, Keeps-storing, Keeps-modify}
use geo_optimizer.Pipeline.{enqueue_run, new_work_item, track_state_transition, process_run}
use geo_optimizer.Pipeline.Queued.{Stays, Stays-IsRunFramed, process_run-Stays}
use geo_optimizer.Stages.{Outside, execute_stage, set_validators}
use geo_optimizer.Stages.Executed.{execute_stage-Keeps}
use geo_optimizer.Stages.Kept.{IsFetchFramed}

pub work_items-set_validators :
    (new : Dict Text (Option Text × Option Text)) (s : Store)
    → (set_validators new s).work_items ≡ s.work_items
unfolding set_validators set_validator
work_items-set_validators [] s = refl
work_items-set_validators ((url, (etag, last_modified)) ∷ new) s =
    work_items-set_validators new (set_validator url etag last_modified s)

module _ (i : ℕ) (item : WorkItem) where
  storing-Stays :
      (f : Store → Result Store)
      → ((s t : Store) → f s ≡ ok t → t.work_items ≡ s.work_items)
      → Keeps (Stays i item) (storing f)
  storing-Stays f k = Keeps-storing f (λ w s h e. (rw (k w.store s e) h.0, h.1))

  Stays-IsFetchFramed : (env : Env) → IsFetchFramed env (Stays i item)
  Stays-IsFetchFramed env = record {
    add_discovered_urls-Keeps = λ run_id urls.
        storing-Stays (add_discovered_urls env.row_id run_id urls)
          (λ s t h. unfold add_discovered_urls in ground arith);
    upsert_extracted_pages-Keeps = λ pages.
        storing-Stays (upsert_extracted_pages env.row_id pages)
          (λ s t h. unfold upsert_extracted_pages in ground arith);
    set_validators-Keeps =
        λ new. Keeps-modify _ (λ w h. (rw (work_items-set_validators new w.store) h.0, h.1));
  }

  module _ (env : Env) (outside : Outside) where
    execute_stage-Stays :
        (stage : WorkStage) → Keeps (Stays i item) (execute_stage env outside stage)
    execute_stage-Stays =
        execute_stage-Keeps env outside _ (Stays-IsRunFramed i item env) (Stays-IsFetchFramed env)
          (λ w d h. h)

module _ (env : Env) (url : Text) (w : World) where
  -- The run and the work item that `enqueue_run` makes.
  abbrev pub made_run : CrawlRun
  made_run = record {
    id = env.uuid w.drawn;
    target_url = url;
    hostname = (urlparse url).netloc;
    status = RunStatus.queued;
    score = none;
    score_breakdown = [];
    artifact_path = none;
    notes = [];
    created_at = env.time w.readings;
    completed_at = none;
  }

  abbrev pub made_item : WorkItem
  made_item = record {
    id = env.uuid (w.drawn + 1);
    run_id = env.uuid w.drawn;
    stage = WorkStage.discovery;
    state = WorkItemState.queued;
    url = url;
    attempt_count = 0;
    last_error = none;
    priority = 100;
    metadata = [];
    created_at = env.time (w.readings + 1);
    updated_at = env.time (w.readings + 1 + 1);
  }

  -- What it hands to the queue.
  abbrev pub made_payload : Text × Metadata
  made_payload = (
    lit "discovery",
    (lit "run_id", str (env.show_id made_run.id))
        ∷ (lit "work_item_id", str (env.show_id made_item.id))
        ∷ [],
  )

  -- A returned run is the one that was made; the storage then has it, and the item.
  pub enqueue_run-stored :
      (run : CrawlRun)
      → (enqueue_run env url w).0 ≡ ok run
      → (run ≡ made_run)
        × ((enqueue_run env url w).1.store.runs ≡ insert made_run.id made_run w.store.runs)
        × ((enqueue_run env url w).1.store.work_items
            ≡ insert made_item.id made_item w.store.work_items)
        × ((enqueue_run env url w).1.item ≡ w.item)
        × (has_key made_item.id w.store.work_items ≡ false)
        × ((enqueue_run env url w).1.store.artifacts ≡ w.store.artifacts)
        × ((enqueue_run env url w).1.published ≡ w.published ++ made_payload ∷ [])
  unfolding enqueue_run new_work_item uuid4 now storing store_result create_run create_work_item
      track_state_transition measure modify raise pure continue ◌>>=◌
  enqueue_run-stored run h =
      elim (Bool-cases (is_empty (urlparse url).scheme || is_empty (urlparse url).netloc)) [
        | inl y ↦ absurd (ground arith)
        | inr n ↦ elim (Bool-cases (has_key made_run.id w.store.runs)) [
          | inl y ↦ absurd (ground arith)
          | inr m ↦ elim (Bool-cases (has_key made_item.id w.store.work_items)) [
            | inl y ↦ absurd (ground arith)
            | inr k ↦ (
              ground arith,
              ground arith,
              ground arith,
              ground arith,
              k,
              ground arith,
              ground arith,
            )
          ]
        ]
      ]

-- The state after runs were processed one after another, whatever became of each.
unfoldable pub processed : Env → Outside → List ℕ → World → World
processed env outside [] w = w
processed env outside (run_id ∷ run_ids) w =
    processed env outside run_ids (process_run env (execute_stage env outside) run_id w).1

processed-Stays :
    (env : Env) (outside : Outside) (i : ℕ) (item : WorkItem) (run_ids : List ℕ) (w : World)
    → Stays i item w
    → Stays i item (processed env outside run_ids w)
unfolding processed
processed-Stays env outside i item [] w h = h
processed-Stays env outside i item (run_id ∷ run_ids) w h =
    processed-Stays env outside i item run_ids _ (
      (process_run-Stays i item env (execute_stage env outside)
          (execute_stage-Stays i item env outside) run_id).at
        w h)

-- If `enqueue_run` returns, and the process is not at work on an item with the identifier of the
-- new one, then the storage has the new run, and however many runs are processed afterwards, the
-- new run included, the work item that was stored with it is in the storage as it was: queued.
pub lookup-processed :
    (env : Env) (outside : Outside) (url : Text) (w : World) (run : CrawlRun)
    → (enqueue_run env url w).0 ≡ ok run
    → w.item.id ≢ (made_item env url w).id
    → (lookup run.id (enqueue_run env url w).1.store.runs ≡ some run)
      × ((run_ids : List ℕ)
          → lookup
              (made_item env url w).id
              (processed env outside run_ids (enqueue_run env url w).1).store.work_items
            ≡ some (made_item env url w))
lookup-processed env outside url w run h n =
    let (same, runs, items, current, fresh, artifacts, published) =
      enqueue_run-stored env url w run h in
    let item = made_item env url w in
    (
      rw (same, runs)
          (ground (
            arith,
            lookup-insert (made_run env url w).id (made_run env url w).id (made_run env url w)
                w.store.runs,
          )),
      λ run_ids.
          (processed-Stays env outside item.id item run_ids (enqueue_run env url w).1 (
            rw items (ground (arith, lookup-insert item.id item.id item w.store.work_items)),
            rw current n,
          )).0,
    )
