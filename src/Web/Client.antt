-- ===== src/Web/Client.antt =====
-- src/crawllmer/app/web/api_client.py: `CrawllmerApiClient`, over the replies of the routes. The
-- transport is not modelled: every request is answered.
use geo_optimizer.Base.{
  List, Option, Option-cases, [], codes_eq, if◌then◌else◌, inl, inr, map, nat_eq, none, refl, some,
  ℕ, ◌++◌, ◌==◌, ◌≡◌,
}
use geo_optimizer.Text.{Text, rstrip_char}
use geo_optimizer.Models.{GenerationArtifact}
use geo_optimizer.Storage.{Store, get_run, get_artifact, list_work_items, list_events}
use geo_optimizer.World.{Env}
use geo_optimizer.Api.{
  Reply, success, http_exception, unhandled, StatusView, ItemView, EventView, crawl_status,
  crawl_llms_txt, crawl_work_items, crawl_events, status_view, item_view, event_view, found_or_404,
}

-- What a call of the client returns, or the status of its `HTTPStatusError`.
pub data Fetched (A : Type 0) : Type 0 where
  returned : A → Fetched A
  status_error : (code : ℕ) → Fetched A

-- The URL of a request.
unfoldable pub request_url : Text → Text → Text
unfolding rstrip_char
request_url base_url path = rstrip_char b'/' base_url ++ path

-- `_get` and `_post`: `raise_for_status`, and the JSON of the answer.
unfoldable pub body_of : {A : Type 0} → Reply A → Fetched A
body_of (success a) = returned a
body_of (http_exception code detail) = status_error code
body_of (unhandled e) = status_error 500

-- `None` for 404.
unfoldable pub none_if_404 : {A : Type 0} → Fetched A → Fetched (Option A)
none_if_404 (returned a) = returned (some a)
none_if_404 (status_error code) = if code == 404 then returned none else status_error code

-- `[]` for any error.
unfoldable pub empty_if_error : {A : Type 0} → Fetched (List A) → Fetched (List A)
empty_if_error (returned xs) = returned xs
empty_if_error (status_error code) = returned []

unfoldable pub client_get_run : Reply StatusView → Fetched (Option StatusView)
unfolding none_if_404 body_of
client_get_run reply = none_if_404 (body_of reply)

unfoldable pub client_get_llms_txt : Reply Text → Fetched (Option Text)
unfolding none_if_404 body_of
client_get_llms_txt reply = none_if_404 (body_of reply)

unfoldable pub client_get_events : Reply (List EventView) → Fetched (List EventView)
unfolding empty_if_error body_of
client_get_events reply = empty_if_error (body_of reply)

unfoldable pub client_get_work_items : Reply (List ItemView) → Fetched (List ItemView)
unfolding empty_if_error body_of
client_get_work_items reply = empty_if_error (body_of reply)

-- The value of an option, for the page.
abbrev pub when_stored : {A B : Type 0} → B → (A → B) → Option A → B
when_stored default f none = default
when_stored default f (some a) = f a

module _ (env : Env) (isoformat : ℕ → Text) (run_id : ℕ) (store : Store) where
  -- Over the routes, no reading of the client raises: a run and its text are `None` exactly if
  -- they are not stored, and the items and events of a run that is not stored are empty.
  pub client_returns :
      (client_get_run (crawl_status env isoformat run_id store)
        ≡ returned
            (when_stored none (λ run. some (status_view env isoformat run)) (get_run run_id store)))
      × (client_get_llms_txt (crawl_llms_txt env isoformat run_id store)
          ≡ returned (
              when_stored none
                (λ (a : GenerationArtifact). some a.llms_txt)
                (get_artifact run_id store)))
      × (client_get_work_items (crawl_work_items env isoformat run_id store)
          ≡ returned (
              when_stored []
                (λ run. map (item_view env isoformat) (list_work_items run_id store))
                (get_run run_id store)))
      × (client_get_events (crawl_events env isoformat run_id store)
          ≡ returned (
              when_stored []
                (λ run. map (event_view env isoformat) (list_events run_id store))
                (get_run run_id store)))
  unfolding crawl_status crawl_llms_txt crawl_work_items crawl_events found_or_404 client_get_run
      client_get_llms_txt client_get_work_items client_get_events none_if_404 empty_if_error body_of
  client_returns =
      let run = Option-cases (get_run run_id store) in
      (
        elim run [ inl n ↦ rw (n) refl | inr (r, e) ↦ rw (e) refl ],
        elim (Option-cases (get_artifact run_id store)) [
          | inl n ↦ rw (n) refl
          | inr (a, e) ↦ rw (e) refl
        ],
        elim run [ inl n ↦ rw (n) refl | inr (r, e) ↦ rw (e) refl ],
        elim run [ inl n ↦ rw (n) refl | inr (r, e) ↦ rw (e) refl ],
      )
