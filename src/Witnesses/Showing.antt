-- ===== src/Witnesses/Showing.antt =====
-- What the page and the script show of two work items and two runs.
use geo_optimizer.Base.{
  IsDistinct, List, Option, [], codes_beq, codes_eq, contains, filter, inl, map, nat_eq, none, not,
  refl, some, ℕ, ◌++◌, ◌∷◌, ◌≡◌, ◌⊎◌,
}
use geo_optimizer.Text.{Text, lit, starts_with}
use geo_optimizer.Dict.{Dict, lookup, has_key}
use geo_optimizer.Models.{RunStatus, WorkStage, WorkItem, WorkItemState, stage_value}
use geo_optimizer.World.{Env}
use geo_optimizer.Api.{HistoryView, item_view}
use geo_optimizer.Web.{stage_state}
use geo_optimizer.Web.States.{state_of, stage_state-item_view}
use geo_optimizer.Web.Classified.{ongoing}
use geo_optimizer.Web.Listing.{Button, Session, run_list}
use geo_optimizer.Web.Listing.Keys.{buttons, ids, run_list-buttons}
use geo_optimizer.Script.Submit.{Category, submit_main}
use geo_optimizer.Script.Submit.Posted.{submit_main_lem}
use geo_optimizer.Script.{Answers, main}
use geo_optimizer.Script.Exits.{run_argument, code_for, code-main}

abbrev env : Env
env = record {
  time = λ n. n;
  counter = λ n. n;
  uuid = λ n. n;
  row_id = λ run_id url. 0;
  show_id = λ id. [];
}

abbrev item : WorkItem
item = record {
  id = 1;
  run_id = 2;
  stage = WorkStage.discovery;
  state = WorkItemState.queued;
  url = lit "http://h";
  attempt_count = 0;
  last_error = none;
  priority = 100;
  metadata = [];
  created_at = 5;
  updated_at = 5;
}

abbrev items : List WorkItem
items = item ∷ record item { id = 2; state = WorkItemState.completed } ∷ []

abbrev isoformat : ℕ → Text
isoformat t = lit "t"

stage_state-item_view_example :
    stage_state (stage_value WorkStage.discovery) (map (item_view env isoformat) items)
    ≡ state_of WorkStage.discovery items
stage_state-item_view_example = stage_state-item_view env isoformat WorkStage.discovery items

abbrev runs : List HistoryView
runs =
    record { run_id = lit "1"; host = lit "h"; status = RunStatus.failed; score = none }
    ∷ record { run_id = lit "2"; host = lit "h"; status = RunStatus.running; score = none }
    ∷ []

abbrev nothing_selected : Session
nothing_selected = record { selected_run = none }

IsDistinct-runs : IsDistinct (ids runs)
unfolding contains lit codes_beq
IsDistinct-runs = (refl, (refl, tt))

run_list-buttons_example :
    (map
        (λ (b : Button). b.run_id)
        (buttons (run_list (λ n. []) nothing_selected (λ id. []) (some runs) (lit "12:00:00")))
      ≡ ids (filter ongoing runs) ++ ids (filter (λ r. not (ongoing r)) runs))
    × IsDistinct (
        map
          (λ (b : Button). b.key)
          (buttons (run_list (λ n. []) nothing_selected (λ id. []) (some runs) (lit "12:00:00"))))
run_list-buttons_example =
    run_list-buttons (λ n. []) nothing_selected (λ id. []) runs (lit "12:00:00") IsDistinct-runs

abbrev answers : Answers
answers = record { run = λ id. none; events = λ id. none; history = some runs }

code-main_example :
    (main (λ n. []) (λ v. []) answers (lit "-v" ∷ [])).code
    ≡ code_for answers (run_argument (lit "-v" ∷ []))
code-main_example = code-main (λ n. []) (λ v. []) answers (lit "-v" ∷ [])

abbrev sites : Dict Text Category
sites =
    (
      lit "sitemap-sites",
      record {
        name = lit "Sites with sitemap";
        sites =
            record { id = lit "B1"; url = lit "https://docs.python.org"; notes = [] }
            ∷ record { id = lit "B4"; url = lit "https://jquery.com"; notes = lit "WordPress" }
            ∷ [];
      },
    )
    ∷ (
      lit "noinfo-sites",
      record {
        name = lit "No llms.txt";
        sites = record { id = lit "C1"; url = lit "https://httpbin.org"; notes = [] } ∷ [];
      },
    )
    ∷ []

abbrev accepted : Text → Option Text ⊎ Text
accepted url = inl (some (lit "queued"))

submit_main_example :
    ((submit_main accepted sites (lit "noinfo-sites" ∷ lit "a" ∷ [])).code ≡ 1)
    × ((submit_main accepted sites (lit "noinfo-sites" ∷ lit "a" ∷ [])).posted
        ≡ lit "https://httpbin.org" ∷ [])
unfolding starts_with lookup has_key contains lit codes_beq
submit_main_example = submit_main_lem accepted sites (lit "noinfo-sites" ∷ lit "a" ∷ [])
