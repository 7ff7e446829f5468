-- ===== src/Web/Listing.antt =====
-- src/crawllmer/app/web/streamlit_app.py: the form, the list of runs and the session, as the page
-- draws them. A press of a button is an argument; Streamlit then runs the script again.
pub mod Keys
use geo_optimizer.Base.{
  Bool, List, Option, [], codes_eq, false, if◌then◌else◌, is_empty, map, nat_eq, none, some, ℕ,
  ◌++◌, ◌==◌, ◌∷◌,
}
use geo_optimizer.Text.{Text, lit}
use geo_optimizer.Models.{RunStatus}
use geo_optimizer.Api.{
  Reply, success, http_exception, unhandled, HistoryView, ItemView, CrawlView, StatusView,
}
use geo_optimizer.Web.{current_stage_label, fetch_runs}
use geo_optimizer.Web.Client.{Fetched, returned, status_error, body_of}
use geo_optimizer.Web.Detail.{Element, markdown}

-- `st.session_state`
pub record Session : Type 0 where
  pub selected_run : Option Text

pub record Button : Type 0 where
  pub key : Text
  pub label : Text
  pub primary : Bool
  pub run_id : Text

-- An element of the list of runs.
pub data Entry : Type 0 where
  indicator error caption : Text → Entry
  refresh_button : Entry
  run_entry : Button → Entry

unfoldable pub run_icon : RunStatus → Text
run_icon RunStatus.completed = 10003 ∷ []
run_icon RunStatus.failed = 10007 ∷ []
run_icon RunStatus.running = 9654 ∷ []
run_icon RunStatus.queued = 9675 ∷ []

unfoldable pub is_selected : Session → Text → Bool
is_selected session run_id = elim session.selected_run [ none ↦ false | some id ↦ id == run_id ]

-- `percent` prints a score with no digits behind the point.
module _ (percent : ℕ → Text) (session : Session) where
  -- `_run_button`
  unfoldable pub run_button : Text → List ItemView → HistoryView → Button
  unfolding run_icon is_selected
  run_button key_prefix items run =
      let score_str : Text = elim run.score [
        | none ↦ []
        | some score ↦ lit "  " ++ percent score
      ] in
      let stage_str : Text = if is_empty items then [] else lit "  " ++ current_stage_label items in
      record {
        key = key_prefix ++ (b'-' ∷ run.run_id);
        label = run_icon run.status ++ (lit "  " ++ (run.host ++ (score_str ++ stage_str)));
        primary = is_selected session run.run_id;
        run_id = run.run_id;
      }

  -- The buttons under a heading, which is left out with them if there are none.
  unfoldable pub section : Text → List Button → List Entry
  section title [] = []
  section title (button ∷ buttons) = caption title ∷ map run_entry (button ∷ buttons)

  module _ (get_work_items : Text → List ItemView) where
    unfoldable pub active_buttons : List HistoryView → List Button
    unfolding run_button
    active_buttons runs =
        map (λ (run : HistoryView). run_button (lit "active") (get_work_items run.run_id) run) runs

    unfoldable pub history_buttons : List HistoryView → List Button
    unfolding run_button
    history_buttons runs = map (run_button (lit "hist") []) runs

    -- `_run_list_fragment`, for the answer of `client.list_runs` and the time of day.
    unfoldable pub run_list : Option (List HistoryView) → Text → List Entry
    unfolding section active_buttons history_buttons
    run_list fetched updated_at =
        let (active, recent, history, has_active) = fetch_runs fetched in
        let dot_cls =
          if has_active then lit "refresh-dot" else lit "refresh-dot refresh-dot-idle" in
        let label = if has_active then lit "Auto-refreshing" else lit "Up to date" in
        let unreachable : List Entry = elim fetched [
          | none ↦ error (lit "Could not reach API. Is the server running?") ∷ []
          | some runs ↦ []
        ] in
        unreachable
        ++ (indicator (
              lit "<div class=\"refresh-bar\"><span class=\""
              ++ (dot_cls
                  ++ (lit "\"></span> "
                      ++ (label
                          ++ (lit " " ++ (183 ∷ (lit " " ++ (updated_at ++ lit "</div>"))))))))
            ∷ refresh_button
            ∷ (section (lit "ACTIVE") (active_buttons active)
                ++ section (lit "HISTORY") (history_buttons history)))

-- A press of the button of a run.
unfoldable pub pressed : Button → Session → Session
pressed button session = record session { selected_run = some button.run_id }

-- What the form leaves: the session, and the error that it shows, if it shows one.
pub record Submission : Type 0 where
  pub session : Session
  pub shown : Option Text

-- The form, with its button pressed. `enqueue_crawl` is the reply to the request, and `text` the
-- body of a refusal.
unfoldable pub submit_form :
    (Reply CrawlView → Text) → Text → Reply CrawlView → Session → Submission
unfolding body_of
submit_form text url enqueue_crawl session =
    if is_empty url
    then record { session = session; shown = some (lit "Please provide a URL.") }
    else elim (body_of enqueue_crawl) [
      | returned result ↦ record {
        session = record session { selected_run = some result.run_id };
        shown = none;
      }
      | status_error code ↦ record {
        session = session;
        shown = some (lit "Error: " ++ text enqueue_crawl);
      }
    ]

-- `_detail_fragment`, for the panel of a run.
unfoldable pub detail_fragment : (Text → List Element) → Session → List Element
detail_fragment panel session =
    let placeholder : List Element =
      markdown (
        lit "<div style='text-align:center; padding: 80px 20px; color: #9ca3af;'>"
        ++ lit "<p style='font-size: 1.2rem;'>Select a crawl to view details</p></div>")
      ∷ [] in
    elim session.selected_run [
      | none ↦ placeholder
      | some run_id ↦ if is_empty run_id then placeholder else panel run_id
    ]
