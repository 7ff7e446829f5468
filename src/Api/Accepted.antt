-- ===== src/Api/Accepted.antt =====
-- What the API answers to a request for a crawl, and of the run it has accepted.
use geo_optimizer.Base.{
  Bool, Bool-cases, [], ap, arith, codes_eq, false, filter, inl, inr, is_empty, nat_eq, none, refl,
  some, true, ℕ, ◌==◌, ◌||◌, ◌∷◌, ◌≡◌, ◌⊎◌,
}
use geo_optimizer.Text.{Text, lit}
use geo_optimizer.Dict.{filter-values-insert, insert, has_key, values, lookup-insert}
use geo_optimizer.Sort.{sort_by_empty, sort_by, insert_sorted}
use geo_optimizer.Url.{urlparse}
use geo_optimizer.Errors.{
  Result, ok, err, invalid_input, library, invalid_transition, run_not_found, pipeline_processing,
}
use geo_optimizer.Models.{CrawlRun, WorkItem}
use geo_optimizer.Storage.{
  Store, get_run, get_artifact, list_work_items, create_run, create_work_item,
}
use geo_optimizer.World.{
  World, Env, modify, storing, store_result, raise, pure, now, uuid4, measure, continue, ◌>>=◌,
}
use geo_optimizer.Pipeline.{enqueue_run, new_work_item, track_state_transition}
use geo_optimizer.Stages.Enqueued.{made_run, made_item, enqueue_run-stored}
use geo_optimizer.Api.{
  success, http_exception, CrawlView, replied, crawl_error, enqueue_api, with_payload, crawl_api,
  crawl_status, crawl_llms_txt, crawl_work_items, status_view, item_view, found_or_404, status_code,
}

-- A list of work items that was empty has the first item that is stored for the run.
list_work_items-first :
    (run_id : ℕ) (item : WorkItem) (s t : Store)
    → list_work_items run_id s ≡ []
    → has_key item.id s.work_items ≡ false
    → (item.run_id == run_id) ≡ true
    → t.work_items ≡ insert item.id item s.work_items
    → list_work_items run_id t ≡ item ∷ []
unfolding list_work_items sort_by insert_sorted
list_work_items-first run_id item s t h fresh own e =
    let of_run = λ (i : WorkItem). i.run_id == run_id in
    rw
      (
        e,
        filter-values-insert of_run item.id item s.work_items fresh own,
        sort_by_empty _ (filter of_run (values s.work_items)) h,
      )
      refl

module _ (env : Env) (isoformat : ℕ → Text) (url : Text) (w : World) where
  status_code-enqueue_api :
      (status_code (enqueue_api env isoformat url w).0 == 422)
      ≡ (is_empty (urlparse url).scheme || is_empty (urlparse url).netloc)
  unfolding enqueue_api replied crawl_error status_code enqueue_run new_work_item uuid4 now storing
      store_result create_run create_work_item track_state_transition measure modify raise pure
      continue ◌>>=◌
  status_code-enqueue_api =
      elim (Bool-cases (is_empty (urlparse url).scheme || is_empty (urlparse url).netloc)) [
        | inl y ↦ ground arith
        | inr n ↦ elim (Bool-cases (has_key (made_run env url w).id w.store.runs)) [
          | inl y ↦ ground arith
          | inr m ↦ elim (Bool-cases (has_key (made_item env url w).id w.store.work_items)) [
            | inl y ↦ ground arith
            | inr k ↦ ground arith
          ]
        ]
      ]

  success-enqueued :
      (r : Result CrawlRun) (view : CrawlView)
      → replied
          (λ (run : CrawlRun). record { run_id = env.show_id run.id; status = run.status })
          (crawl_error env isoformat)
          r
        ≡ success view
      → (run : CrawlRun) × (r ≡ ok run)
  unfolding replied crawl_error
  success-enqueued (ok run) view h = (run, refl)
  success-enqueued (err (library message)) view h = absurd (ground arith)
  success-enqueued (err (invalid_transition old next)) view h = absurd (ground arith)
  success-enqueued (err (invalid_input field reason)) view h = absurd (ground arith)
  success-enqueued (err (run_not_found id)) view h = absurd (ground arith)
  success-enqueued (err (pipeline_processing stage id cause)) view h = absurd (ground arith)

  enqueue_api-accepted :
      (view : CrawlView)
      → (enqueue_api env isoformat url w).0 ≡ success view
      → list_work_items (made_run env url w).id w.store ≡ []
      → get_artifact (made_run env url w).id w.store ≡ none
      → (crawl_status env isoformat
            (made_run env url w).id
            (enqueue_api env isoformat url w).1.store
          ≡ success (status_view env isoformat (made_run env url w)))
        × (crawl_work_items env isoformat
              (made_run env url w).id
              (enqueue_api env isoformat url w).1.store
            ≡ success (item_view env isoformat (made_item env url w) ∷ []))
        × (crawl_llms_txt env isoformat
              (made_run env url w).id
              (enqueue_api env isoformat url w).1.store
            ≡ http_exception 404 (lit "llms.txt not found"))
  unfolding enqueue_api
  enqueue_api-accepted view h no_items no_artifact =
      let (run, e) = success-enqueued (enqueue_run env url w).0 view h in
      let (same, runs, items, current, fresh, artifacts, published) =
        enqueue_run-stored env url w run e in
      let run = made_run env url w in
      let item = made_item env url w in
      let t = (enqueue_run env url w).1.store in
      let stored : get_run run.id t ≡ some run =
        unfold get_run in
        rw (runs) (ground (arith, lookup-insert run.id run.id run w.store.runs)) in
      let own : (item.run_id == run.id) ≡ true = ground arith in
      (
        unfold crawl_status found_or_404 in rw (stored) refl,
        unfold crawl_work_items found_or_404 in
            rw (stored, list_work_items-first run.id item w.store t no_items fresh own items) refl,
        unfold crawl_llms_txt found_or_404 get_artifact in
            rw (artifacts) (ground (arith, no_artifact)),
      )

-- Whether the URL of a request is refused: `HttpUrl` does not take it, or what it prints has no
-- scheme or no host.
abbrev pub refused_url : Text ⊎ Text → Bool
refused_url (inl valid) = is_empty (urlparse valid).scheme || is_empty (urlparse valid).netloc
refused_url (inr detail) = true

module _ (env : Env) (isoformat : ℕ → Text) (http_url : Text → Text ⊎ Text) (url : Text)
    (w : World) where
  crawl_api-valid :
      (valid : Text)
      → http_url url ≡ inl valid
      → crawl_api env isoformat http_url url w ≡ enqueue_api env isoformat valid w
  unfolding crawl_api with_payload
  crawl_api-valid valid e = ap (λ r. with_payload env isoformat r w) e

  crawl_api-refused :
      (r : Text ⊎ Text)
      → http_url url ≡ r
      → (status_code (crawl_api env isoformat http_url url w).0 == 422) ≡ refused_url r
  unfolding crawl_api with_payload status_code
  crawl_api-refused (inl valid) e =
      rw (crawl_api-valid valid e) (status_code-enqueue_api env isoformat valid w)
  crawl_api-refused (inr detail) e =
      ap (λ r. status_code (with_payload env isoformat r w).0 == 422) e

  -- A request for a crawl is answered with 422 exactly when `HttpUrl` does not take its URL, or the
  -- URL as `HttpUrl` prints it has no scheme or no host.
  pub status_code-crawl_api :
      (status_code (crawl_api env isoformat http_url url w).0 == 422) ≡ refused_url (http_url url)
  status_code-crawl_api = crawl_api-refused (http_url url) refl

  -- If a crawl is accepted, and the storage had no work item and no artifact of its run, then its
  -- status is answered as queued and without a score, its work items are the one that was made,
  -- and its `llms.txt` is answered with 404; the run is for the URL as `HttpUrl` prints it.
  pub crawl_api-accepted :
      (valid : Text) (view : CrawlView)
      → http_url url ≡ inl valid
      → (crawl_api env isoformat http_url url w).0 ≡ success view
      → list_work_items (made_run env valid w).id w.store ≡ []
      → get_artifact (made_run env valid w).id w.store ≡ none
      → (crawl_status env isoformat
            (made_run env valid w).id
            (crawl_api env isoformat http_url url w).1.store
          ≡ success (status_view env isoformat (made_run env valid w)))
        × (crawl_work_items env isoformat
              (made_run env valid w).id
              (crawl_api env isoformat http_url url w).1.store
            ≡ success (item_view env isoformat (made_item env valid w) ∷ []))
        × (crawl_llms_txt env isoformat
              (made_run env valid w).id
              (crawl_api env isoformat http_url url w).1.store
            ≡ http_exception 404 (lit "llms.txt not found"))
  crawl_api-accepted valid view e h no_items no_artifact =
      let routed = crawl_api-valid valid e in
      rw routed
        (enqueue_api-accepted env isoformat valid w view (rw routed at h) no_items no_artifact)
