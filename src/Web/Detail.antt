-- ===== src/Web/Detail.antt =====
-- src/crawllmer/app/web/streamlit_app.py: `_render_detail_panel`, `_render_events` and
-- `_render_llms_txt` as the elements that they put on the page, in order. The help texts of the
-- metrics and the table of all events are not modelled.
use geo_optimizer.Base.{
  Bool, List, Option, [], codes_eq, if◌then◌else◌, is_empty, length, map, none, not, some, ℕ, ◌&&◌,
  ◌++◌, ◌==◌, ◌∷◌,
}
use geo_optimizer.Text.{Text, lit, decimal}
use geo_optimizer.Dict.{lookup_or}
use geo_optimizer.Value.{Value}
use geo_optimizer.Models.{RunStatus}
use geo_optimizer.Script.{status_value}
use geo_optimizer.Api.{StatusView, EventView}
use geo_optimizer.Web.{Item, elapsed, stage_bar, timeline, recent_events, preview, is_active}

-- An element of the page.
pub data Element : Type 0 where
  warning caption markdown code failure info : Text → Element
  metric : (label value : Text) → Element
  expander : (title : Text) → Element
  download : (label content file_name : Text) → Element

abbrev divider : Element
divider = markdown (lit "---")

unfoldable pub event_elements : (List EventView → Text) → List EventView → Bool → List Element
event_elements rows [] active = if active then caption (lit "Waiting for events...") ∷ [] else []
event_elements rows (ev ∷ evs) active =
    let header = if active then lit "Live events" else lit "Events" in
    let dot = if active then lit "<span class=\"ev-live-dot\"></span>" else [] in
    markdown (
      lit "<p style='font-size:.85rem; color:#9ca3af;'>"
      ++ (dot ++ (header ++ (lit " (" ++ (decimal (length (ev ∷ evs)) ++ lit ")</p>")))))
    ∷ markdown (rows (ev ∷ evs))
    ∷ []

unfoldable pub is_status : RunStatus → Text → Bool
is_status status value = status_value status == value

-- What the panel is made with: the clock, the libraries' printing, and the text of a run.
pub record Panel : Type 0 where
  pub now : ℕ
  pub fromisoformat : Text → ℕ
  pub percent : ℕ → Text
  pub tenths : ℕ → Text
  pub shown : Value → Text
  pub splitlines : Text → List Text
  pub split_words : Text → List Text
  pub grouped : ℕ → Text

module _ (panel : Panel) where
  unfoldable pub score_elements : StatusView → List Element
  score_elements run =
      let part = λ (name : Text). panel.percent (lookup_or name 0 run.score_breakdown) in
      divider
      ∷ metric (lit "Overall") (panel.percent (elim run.score [ none ↦ 0 | some x ↦ x ]))
      ∷ metric (lit "Coverage") (part (lit "coverage"))
      ∷ metric (lit "Confidence") (part (lit "confidence"))
      ∷ metric (lit "Redundancy") (part (lit "redundancy"))
      ∷ []

  -- `_render_llms_txt`
  unfoldable pub llms_txt_elements : Text → List Element
  llms_txt_elements artifact_text =
      let lines = decimal (length (panel.splitlines artifact_text)) in
      let words = panel.grouped (length (panel.split_words artifact_text)) in
      let (shown, truncated) = preview panel.splitlines artifact_text in
      let viewed : List Element =
        if truncated
        then expander (lit "View llms.txt (truncated)")
          ∷ code shown
          ∷ info (
              lit "Showing first 1000 of "
              ++ (lines ++ lit " lines. Download the file to see the full output."))
          ∷ []
        else expander (lit "View llms.txt") ∷ code shown ∷ [] in
      caption (lines ++ (lit " lines " ++ (183 ∷ (lit " " ++ (words ++ lit " words")))))
      ∷ (viewed ++ download (lit "Download llms.txt") artifact_text (lit "llms.txt") ∷ [])

  -- The text of a run that is completed; an empty one is not shown.
  unfoldable pub text_elements : Option Text → List Element
  unfolding llms_txt_elements
  text_elements none = []
  text_elements (some llms_txt) =
      if is_empty llms_txt then [] else divider ∷ llms_txt_elements llms_txt

  unfoldable pub run_header : StatusView → List Item → List Element
  run_header run items =
      markdown (lit "<div class=\"detail-header\">" ++ (run.host ++ lit "</div>"))
      ∷ markdown (
          lit "<span class=\"badge badge-"
          ++ (status_value run.status ++ (lit "\">" ++ (status_value run.status ++ lit "</span>"))))
      ∷ caption
          (lit "Started " ++ (elapsed (panel.fromisoformat run.created_at) panel.now ++ lit " ago"))
      ∷ markdown (stage_bar (map (λ (i : Item). i.view) items))
      ∷ []

  -- `_render_detail_panel`, for what the client returns.
  unfoldable pub detail_panel :
      Option StatusView → List Item → Option Text → List EventView → List Element
  unfolding run_header score_elements text_elements event_elements is_status
  detail_panel none items llms_txt events = warning (lit "Run not found.") ∷ []
  detail_panel (some run) items llms_txt events =
      let completed = is_status run.status (lit "completed") in
      let active = is_active run.status in
      run_header run items
      ++ ((if completed then score_elements run else [])
          ++ ((if is_status run.status (lit "failed")
                then failure (lit "Crawl failed") ∷ []
                else [])
              ++ ((if completed then text_elements llms_txt else [])
                  ++ ((divider ∷ caption (lit "Pipeline timeline") ∷ [])
                      ++ (map markdown (timeline panel.tenths items)
                          ++ (if is_empty events && not active
                              then []
                              else divider
                                ∷ event_elements (recent_events panel.tenths panel.shown) events
                                    active))))))
