-- ===== src/Witnesses/Serving.antt =====
-- The routes, the queue, the client of the page and the port of the repository, on the run and the
-- site of Staging.
use geo_optimizer.Base.{
  List, [], codes_eq, if◌then◌else◌, inl, inr, map, nat_eq, none, refl, some, ℕ, ◌++◌, ◌==◌, ◌∷◌,
  ◌≡◌, ◌⊎◌,
}
use geo_optimizer.Text.{Text, lit, starts_with}
use geo_optimizer.Dict.{lookup}
use geo_optimizer.Models.{RunStatus}
use geo_optimizer.Pipeline.{enqueue_run}
use geo_optimizer.Stages.{execute_stage}
use geo_optimizer.Stages.Enqueued.{made_item, made_run}
use geo_optimizer.Storage.{get_run, list_work_items, get_artifact}
use geo_optimizer.Sort.{sort_by}
use geo_optimizer.Ports.{Call, call_create_run, call_set_validator, promised, all_calls}
use geo_optimizer.Ports.Refined.{answers, perform, with_answers, with_answers-all_calls}
use geo_optimizer.Web.Client.{
  returned, client_get_run, client_get_llms_txt, client_get_work_items, client_get_events,
  when_stored, client_returns,
}
use geo_optimizer.Models.{GenerationArtifact}
use geo_optimizer.Api.{crawl_events, event_view}
use geo_optimizer.Storage.{list_events}
use geo_optimizer.Api.{
  success, http_exception, process_api, processed_view, replied, status_code, crawl_api,
  enqueue_api, with_payload, CrawlView, crawl_status, crawl_work_items, crawl_llms_txt, status_view,
  item_view,
}
use geo_optimizer.Api.Processed.{IsReadable, process_api-IsReadable}
use geo_optimizer.Api.Accepted.{refused_url, status_code-crawl_api, crawl_api-accepted}
use geo_optimizer.Tasks.{publish, build_celery_app, process_run_name}
use geo_optimizer.Tasks.Sent.{discovery_message, enqueue_run-sent}
use geo_optimizer.Witnesses.Staging.{
  settings, outside, env, run, world, ended, url, process_run_returns, enqueue_run_returns,
  id_of_stored,
}

abbrev isoformat : ℕ → Text
isoformat t = lit "t"

process_api_succeeds :
    (process_api env isoformat (execute_stage env outside) 2 world).0
    ≡ success (processed_view env isoformat ended)
unfolding process_api replied
process_api_succeeds = rw (process_run_returns) refl

process_api-IsReadable_example :
    IsReadable env isoformat 2
      (process_api env isoformat (execute_stage env outside) 2 world).1.store
process_api-IsReadable_example =
    process_api-IsReadable env isoformat outside 2 world (processed_view env isoformat ended)
      id_of_stored process_api_succeeds

-- One that takes all that starts with `http` as it is.
any_http_url : Text → Text ⊎ Text
unfolding starts_with lit
any_http_url u = if starts_with (lit "http") u then inl u else inr []

taken : any_http_url url ≡ inl url
unfolding any_http_url starts_with lit
taken = refl

status_code-crawl_api_example :
    (status_code (crawl_api env isoformat any_http_url url world).0 == 422)
    ≡ refused_url (any_http_url url)
status_code-crawl_api_example = status_code-crawl_api env isoformat any_http_url url world

abbrev accepted : CrawlView
accepted = record { run_id = env.show_id (made_run env url world).id; status = RunStatus.queued }

crawl_api_succeeds : (crawl_api env isoformat any_http_url url world).0 ≡ success accepted
unfolding crawl_api with_payload enqueue_api replied any_http_url starts_with lit
crawl_api_succeeds = rw (enqueue_run_returns) refl

no_items : list_work_items (made_run env url world).id world.store ≡ []
unfolding list_work_items sort_by
no_items = refl

no_artifact : get_artifact (made_run env url world).id world.store ≡ none
unfolding get_artifact lookup
no_artifact = refl

crawl_api-accepted_example :
    (crawl_status env isoformat
        (made_run env url world).id
        (crawl_api env isoformat any_http_url url world).1.store
      ≡ success (status_view env isoformat (made_run env url world)))
    × (crawl_work_items env isoformat
          (made_run env url world).id
          (crawl_api env isoformat any_http_url url world).1.store
        ≡ success (item_view env isoformat (made_item env url world) ∷ []))
    × (crawl_llms_txt env isoformat
          (made_run env url world).id
          (crawl_api env isoformat any_http_url url world).1.store
        ≡ http_exception 404 (lit "llms.txt not found"))
crawl_api-accepted_example =
    crawl_api-accepted env isoformat any_http_url url world url accepted taken crawl_api_succeeds
      no_items no_artifact

enqueue_run-sent_example :
    (queue : Text) × (lookup process_run_name (build_celery_app settings [] [] []).task_routes
      ≡ some queue)
    × (map (publish (lit "crawllmer")) (enqueue_run env url world).1.published
        ≡ map (publish (lit "crawllmer")) world.published
          ++ discovery_message env settings [] [] [] url world queue ∷ [])
enqueue_run-sent_example =
    enqueue_run-sent env settings [] [] [] url world (made_run env url world) enqueue_run_returns

abbrev calls : List Call
calls = call_create_run run ∷ call_set_validator url none none ∷ call_create_run run ∷ []

with_answers-all_calls_example :
    with_answers (all_calls perform calls (record (world.store) { runs = [] }))
    ≡ all_calls promised calls (answers (record (world.store) { runs = [] }))
with_answers-all_calls_example = with_answers-all_calls calls (record (world.store) { runs = [] })

client_returns_example :
    (client_get_run (crawl_status env isoformat 2 world.store)
      ≡ returned
          (when_stored none (λ r. some (status_view env isoformat r)) (get_run 2 world.store)))
    × (client_get_llms_txt (crawl_llms_txt env isoformat 2 world.store)
        ≡ returned (
            when_stored none
              (λ (a : GenerationArtifact). some a.llms_txt)
              (get_artifact 2 world.store)))
    × (client_get_work_items (crawl_work_items env isoformat 2 world.store)
        ≡ returned (
            when_stored []
              (λ r. map (item_view env isoformat) (list_work_items 2 world.store))
              (get_run 2 world.store)))
    × (client_get_events (crawl_events env isoformat 2 world.store)
        ≡ returned (
            when_stored []
              (λ r. map (event_view env isoformat) (list_events 2 world.store))
              (get_run 2 world.store)))
client_returns_example = client_returns env isoformat 2 world.store
