-- ===== src/Stages/OnRun.antt =====
-- Properties of the run and of the artifacts are invariants of all the work on items, events,
-- URLs and pages.
use geo_optimizer.Base.{Option, [], arith, none, refl, some, ℕ, ◌∷◌, ◌≡◌}
use geo_optimizer.Text.{Text}
use geo_optimizer.Dict.{Dict}
use geo_optimizer.Errors.{Result, ok}
use geo_optimizer.Models.{CrawlRun, WorkItem, WorkItemState, GenerationArtifact}
use geo_optimizer.Storage.{
  Store, create_work_item, update_work_item, write_item, create_event, add_discovered_urls,
  upsert_extracted_pages, set_validator,
}
use geo_optimizer.World.{World, Env, storing, now}
use geo_optimizer.World.Keeps.{
  Keeps, Keeps-gets, Keeps-bind, Keeps-storing, Keeps-modify, Keeps-raise,
}
use geo_optimizer.Pipeline.{store_new, save_item, moved, transition_to}
use geo_optimizer.Pipeline.Framed.{IsEventFramed, IsFramed}
use geo_optimizer.Stages.{set_validators}
use geo_optimizer.Stages.Kept.{IsFetchFramed}

-- A property of the current run and of the stored artifacts alone.
abbrev pub OnRun : (CrawlRun → Dict ℕ GenerationArtifact → Type 0) → World → Type 0
OnRun Q w = Q w.run w.store.artifacts

artifacts-update_work_item :
    (item : WorkItem) (s t : Store) → update_work_item item s ≡ ok t → t.artifacts ≡ s.artifacts
unfolding update_work_item write_item create_work_item
artifacts-update_work_item item s t h = ground arith

artifacts-set_validators :
    (new : Dict Text (Option Text × Option Text)) (s : Store)
    → (set_validators new s).artifacts ≡ s.artifacts
unfolding set_validators set_validator
artifacts-set_validators [] s = refl
artifacts-set_validators ((url, (etag, last_modified)) ∷ new) s =
    artifacts-set_validators new (set_validator url etag last_modified s)

module _ (Q : CrawlRun → Dict ℕ GenerationArtifact → Type 0) where
  same_artifacts :
      (run : CrawlRun) (old new : Dict ℕ GenerationArtifact) → new ≡ old → Q run old → Q run new
  same_artifacts run old new e h = rw e h

  moved-OnRun :
      (old new : WorkItemState) (next : Option WorkItem) → Keeps (OnRun Q) (moved old new next)
  unfolding moved
  moved-OnRun old new none = Keeps-raise _
  moved-OnRun old new (some item) = Keeps-modify _ (λ w h. h)

  pub storing-OnRun :
      (f : Store → Result Store)
      → ((s t : Store) → f s ≡ ok t → t.artifacts ≡ s.artifacts)
      → Keeps (OnRun Q) (storing f)
  storing-OnRun f k =
      Keeps-storing f
        (λ w s h e. same_artifacts w.run w.store.artifacts s.artifacts (k w.store s e) h)

  pub OnRun-IsEventFramed : (env : Env) → IsEventFramed env (OnRun Q)
  OnRun-IsEventFramed env = record {
    readings = λ w n h. h;
    drawn = λ w n h. h;
    create_event-Keeps =
        λ e. storing-OnRun (create_event e) (λ s t h. unfold create_event in ground arith);
  }

  pub OnRun-IsFramed : (env : Env) → IsFramed env (OnRun Q)
  OnRun-IsFramed env = record {
    events = OnRun-IsEventFramed env;
    measures = λ w ms h. h;
    event = λ w e h. h;
    attempted = λ w n h. h;
    failing = λ w e h. h;
    transition_to-Keeps = λ state.
        unfold transition_to in
        Keeps-bind _ _ (record { at = λ w h. unfold now in h })
          (λ at. Keeps-bind _ _ (Keeps-gets _) (λ item. moved-OnRun _ _ _));
    store_new-Keeps = λ item.
        unfold store_new in
        Keeps-bind _ _
          (storing-OnRun (create_work_item item) (λ s t e. unfold create_work_item in ground arith))
          (λ _. Keeps-modify _ (λ w h. h));
    save_item-Keeps =
        unfold save_item in
        Keeps-bind _ _ (Keeps-gets _)
          (λ item. storing-OnRun (update_work_item item) (artifacts-update_work_item item));
  }

  pub OnRun-IsFetchFramed : (env : Env) → IsFetchFramed env (OnRun Q)
  OnRun-IsFetchFramed env = record {
    add_discovered_urls-Keeps = λ run_id urls.
        storing-OnRun (add_discovered_urls env.row_id run_id urls)
          (λ s t h. unfold add_discovered_urls in ground arith);
    upsert_extracted_pages-Keeps = λ pages.
        storing-OnRun (upsert_extracted_pages env.row_id pages)
          (λ s t h. unfold upsert_extracted_pages in ground arith);
    set_validators-Keeps = λ new.
        Keeps-modify _ (λ w h.
          same_artifacts w.run w.store.artifacts _ (artifacts-set_validators new w.store) h);
  }
