-- ===== src/Web.antt =====
-- src/crawllmer/app/web/streamlit_app.py: what the pages show, as texts, of the items, events and
-- runs that the API answers. Times are in microseconds; `tenths ms` prints `ms / 1000` with one
-- digit, `shown` is `str` of a value of the metadata, and the widgets are not modelled.
pub mod States
pub mod Timeline
pub mod Classified
pub mod Client
pub mod Detail
pub mod Listing
use geo_optimizer.Base.{
  leb, Bool, List, Option, [], codes_eq, contains, false, filter, if◌then◌else◌, is_empty, length,
  ltb, map, nat_eq, none, some, suc, take, true, zero, ℕ, ◌%◌, ◌++◌, ◌+◌, ◌-◌, ◌/◌, ◌==◌, ◌∷◌,
}
use geo_optimizer.Text.{Text, lit, join, decimal}
use geo_optimizer.Dict.{Dict, lookup, insert}
use geo_optimizer.Value.{Value, Metadata}
use geo_optimizer.Models.{RunStatus, ℤ, pos, negsuc, since}
use geo_optimizer.Api.{ItemView, EventView, HistoryView}

-- What the user interface reads of a work item, with the time that it took.
pub record Item : Type 0 where
  pub view : ItemView
  pub created_at : ℕ
  pub updated_at : ℕ

abbrev pub stages : List Text
stages =
    lit "discovery"
    ∷ lit "extraction"
    ∷ lit "canonicalization"
    ∷ lit "scoring"
    ∷ lit "generation"
    ∷ []

unfoldable pub stage_label : Text → Text
stage_label stage =
    if stage == lit "discovery"
    then lit "Discovery"
    else if stage == lit "extraction"
    then lit "Extraction"
    else if stage == lit "canonicalization"
    then lit "Canonicalize"
    else if stage == lit "scoring"
    then lit "Scoring"
    else lit "Generation"

-- `int(x)` of a quotient rounds towards 0.
unfoldable pub quotient_text : ℤ → ℕ → Text
quotient_text (pos n) d = decimal (n / d)
quotient_text (negsuc n) d = if ltb (n + 1) d then lit "0" else lit "-" ++ decimal ((n + 1) / d)

-- `_elapsed`, for a start and the present.
unfoldable pub elapsed : ℕ → ℕ → Text
unfolding since quotient_text
elapsed start now = elim (since start now) [
  | negsuc n ↦ quotient_text (negsuc n) 1000000 ++ lit "s"
  | pos n ↦
      let secs = n / 1000000 in
      if ltb secs 60
      then decimal secs ++ lit "s"
      else if ltb secs 3600
      then decimal (secs / 60) ++ (lit "m " ++ (decimal (secs % 60) ++ lit "s"))
      else decimal (secs / 3600) ++ (lit "h " ++ (decimal (secs % 3600 / 60) ++ lit "m"))
]

pub data StageState : Type 0 where
  pending active done failed : StageState

-- `_stage_state`
unfoldable pub stage_state : Text → List ItemView → StageState
stage_state stage items =
    let stage_items = filter (λ (i : ItemView). i.stage == stage) items in
    let states = map (λ (i : ItemView). i.state) stage_items in
    if is_empty stage_items
    then pending
    else if contains (lit "failed") states
    then failed
    else if contains (lit "processing") states
    then active
    else if contains (lit "completed") states
    then done
    else pending

unfoldable pub label_icon : StageState → Option Text
label_icon active = some (9654 ∷ [])
label_icon done = some (10003 ∷ [])
label_icon failed = some (10007 ∷ [])
label_icon pending = none

-- `_current_stage_label`, for the stages from the last one on.
unfoldable pub label_of : List Text → List ItemView → Text
unfolding label_icon
label_of [] items = lit "queued"
label_of (stage ∷ stages) items =
    let earlier = label_of stages items in
    elim (label_icon (stage_state stage items)) [
      | none ↦ earlier
      | some icon ↦ icon ++ (lit " " ++ stage_label stage)
    ]

unfoldable pub reversed {ℓ} : {A : Type ℓ} → List A → List A
reversed [] = []
reversed (x ∷ xs) = reversed xs ++ x ∷ []

unfoldable pub current_stage_label : List ItemView → Text
unfolding label_of reversed
current_stage_label items = label_of (reversed stages) items

unfoldable pub pill_class : StageState → Text
pill_class done = lit "stage-done"
pill_class active = lit "stage-active"
pill_class pending = lit "stage-pend"
pill_class failed = lit "stage-fail"

unfoldable pub pill_icon : StageState → Text
pill_icon done = lit "&#10003;"
pill_icon active = lit "&#9654;"
pill_icon pending = lit "&#8226;"
pill_icon failed = lit "&#10007;"

unfoldable pub pill : List ItemView → Text → Text
unfolding pill_class pill_icon stage_label
pill items stage =
    let state = stage_state stage items in
    lit "<span class=\"stage-pill "
    ++ (pill_class state
        ++ (lit "\">" ++ (pill_icon state ++ (lit " " ++ (stage_label stage ++ lit "</span>")))))

-- `_render_stage_bar`
unfoldable pub stage_bar : List ItemView → Text
unfolding pill
stage_bar items = join (lit " ") (map (pill items) stages)

-- A round of the loop that fills `seen`.
unfoldable pub see : Dict Text Item → Item → Dict Text Item
see seen item = elim (lookup item.view.stage seen) [
  | none ↦ insert item.view.stage item seen
  | some existing ↦
      if item.view.state == lit "queued" then seen else insert item.view.stage item seen
]

unfoldable pub seen_items : List Item → Dict Text Item → Dict Text Item
unfolding see
seen_items [] seen = seen
seen_items (item ∷ items) seen = seen_items items (see seen item)

unfoldable pub timeline_icon : Text → Text
timeline_icon state =
    if state == lit "completed"
    then lit "&#10003;"
    else if state == lit "failed"
    then lit "&#10007;"
    else if state == lit "processing"
    then lit "&#9654;"
    else lit "&#9675;"

-- `s[:n]`, and `s[n:]`
unfoldable pub slice_from {ℓ} : {A : Type ℓ} → ℕ → List A → List A
slice_from zero xs = xs
slice_from (suc n) [] = []
slice_from (suc n) (x ∷ xs) = slice_from n xs

-- `s[-n:]`
unfoldable pub last_items {ℓ} : {A : Type ℓ} → ℕ → List A → List A
unfolding slice_from
last_items n xs = slice_from (length xs - n) xs

-- `val[:57] + "..."` if it is long.
unfoldable pub shorten : Text → Text
shorten val = if ltb 60 (length val) then take 57 val ++ lit "..." else val

module _ (tenths : ℕ → Text) where
  -- A duration in milliseconds; a negative one is less than 1000.
  unfoldable pub milliseconds : ℤ → Text
  unfolding quotient_text
  milliseconds (negsuc n) = quotient_text (negsuc n) 1000 ++ lit "ms"
  milliseconds (pos n) =
      let ms = n / 1000 in if ltb ms 1000 then decimal ms ++ lit "ms" else tenths ms ++ lit "s"

  -- `_item_duration`
  unfoldable pub item_duration : Item → Text
  unfolding milliseconds
  item_duration item = milliseconds (since item.created_at item.updated_at)

  unfoldable pub error_span : Option Text → Text
  error_span none = []
  error_span (some error) =
      if is_empty error then [] else lit "<span class=\"tl-err\">" ++ (error ++ lit "</span>")

  -- A row of `_render_timeline`.
  unfoldable pub timeline_row : Dict Text Item → Text → Text
  unfolding timeline_icon item_duration error_span stage_label
  timeline_row seen stage = elim (lookup stage seen) [
    | none ↦
        lit "<div class=\"tl-row\"><span class=\"tl-icon\">&#9675;</span><span class=\"tl-stage\">"
        ++ (stage_label stage ++ lit "</span><span class=\"tl-dur\">--</span></div>")
    | some item ↦
        lit "<div class=\"tl-row\"><span class=\"tl-icon\">"
        ++ (timeline_icon item.view.state
            ++ (lit "</span><span class=\"tl-stage\">"
                ++ (stage_label stage
                    ++ (lit "</span><span class=\"tl-dur\">"
                        ++ (item_duration item
                            ++ (lit "</span>"
                                ++ (error_span item.view.last_error ++ lit "</div>")))))))
  ]

  -- `_render_timeline`
  unfoldable pub timeline : List Item → List Text
  unfolding timeline_row seen_items
  timeline items = map (timeline_row (seen_items items [])) stages

  module _ (shown : Value → Text) where
    unfoldable pub meta_part : Text × Value → Text
    unfolding shorten
    meta_part (k, v) = k ++ (lit "=" ++ shorten (shown v))

    -- `started[11:19] if len(started) >= 19 else "--"`
    unfoldable pub time_text : Text → Text
    unfolding slice_from
    time_text started = if leb 19 (length started) then take 8 (slice_from 11 started) else lit "--"

    -- `_event_row_html`
    unfoldable pub event_row_html : EventView → Text
    unfolding meta_part time_text milliseconds
    event_row_html ev =
        let dur : Text = elim ev.duration [ none ↦ [] | some d ↦ milliseconds d ] in
        lit "<div class=\"ev-row\"><span class=\"ev-time\">"
        ++ (time_text ev.started_at
            ++ (lit "</span><span class=\"ev-name\">"
                ++ (ev.name
                    ++ (lit "</span><span class=\"ev-sys\">"
                        ++ (ev.system
                            ++ (lit "</span><span class=\"ev-dur\">"
                                ++ (dur
                                    ++ (lit "</span><span class=\"ev-meta\">"
                                        ++ (join (lit " ") (map meta_part ev.metadata)
                                            ++ lit "</span></div>")))))))))

    -- The rows that `_render_events` shows, the newest first.
    unfoldable pub recent_events : List EventView → Text
    unfolding event_row_html last_items reversed
    recent_events events = join (lit "\n") (map event_row_html (reversed (last_items 8 events)))

-- The text that `_render_llms_txt` shows, and whether it is cut.
unfoldable pub preview : (Text → List Text) → Text → Text × Bool
preview splitlines artifact_text =
    let lines = splitlines artifact_text in
    if ltb 1000 (length lines)
    then (join (lit "\n") (take 1000 lines), true)
    else (artifact_text, false)

unfoldable pub is_active : RunStatus → Bool
is_active RunStatus.queued = true
is_active RunStatus.running = true
is_active RunStatus.completed = false
is_active RunStatus.failed = false

-- The loop of `_fetch_runs`.
unfoldable pub classify :
    List HistoryView → List HistoryView → List HistoryView → List HistoryView × List HistoryView
unfolding is_active
classify [] ongoing history = (ongoing, history)
classify (run ∷ runs) ongoing history =
    if is_active run.status
    then classify runs (ongoing ++ run ∷ []) history
    else classify runs ongoing (history ++ run ∷ [])

-- `_fetch_runs`, for the answer of `client.list_runs` or its `HTTPError`.
unfoldable pub fetch_runs :
    Option (List HistoryView) → List HistoryView × List HistoryView × List HistoryView × Bool
unfolding classify
fetch_runs none = ([], [], [], false)
fetch_runs (some all_runs) =
    let (ongoing, history) = classify all_runs [] [] in
    (ongoing, [], history, ltb 0 (length ongoing))
