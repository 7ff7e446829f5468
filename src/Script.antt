-- ===== src/Script.antt =====
-- scripts/check-crawl-status.py: what the script prints of the answers of the API, and its exit
-- code. `percent` prints a score, `shown` a value of the metadata.
pub mod Exits
pub mod Submit
use geo_optimizer.Base.{
  ◌&&◌, Bool, List, Option, [], codes_eq, contains, filter, if◌then◌else◌, is_empty, length, map,
  nat_eq, none, not, some, suc, zero, ℕ, ◌++◌, ◌+◌, ◌-◌, ◌==◌, ◌||◌, ◌∷◌,
}
use geo_optimizer.Text.{Text, lit, decimal, starts_with}
use geo_optimizer.Dict.{lookup}
use geo_optimizer.Value.{Value}
use geo_optimizer.Models.{RunStatus, ℤ, pos, negsuc}
use geo_optimizer.Api.{StatusView, HistoryView, EventView}
use geo_optimizer.Web.{last_items, quotient_text}

-- The lines that are printed, and the exit code.
pub record Exited : Type 0 where
  pub printed : List Text
  pub code : ℕ

-- What the API answers: a run, the events of a run and the history, or `none` for an error.
pub record Answers : Type 0 where
  pub run : Text → Option StatusView
  pub events : Text → Option (List EventView)
  pub history : Option (List HistoryView)

unfoldable pub status_value : RunStatus → Text
status_value RunStatus.queued = lit "queued"
status_value RunStatus.running = lit "running"
status_value RunStatus.completed = lit "completed"
status_value RunStatus.failed = lit "failed"

unfoldable pub status_icon : RunStatus → Text
status_icon RunStatus.queued = 9675 ∷ []
status_icon RunStatus.running = 9654 ∷ []
status_icon RunStatus.completed = 10003 ∷ []
status_icon RunStatus.failed = 10007 ∷ []

unfoldable pub spaces : ℕ → Text
spaces zero = []
spaces (suc n) = b' ' ∷ spaces n

-- `f"{s:<n}"`
unfoldable pub padded : ℕ → Text → Text
unfolding spaces
padded n s = s ++ spaces (n - length s)

unfoldable pub event_duration : Option ℤ → Text
unfolding quotient_text
event_duration none = lit "--"
event_duration (some (negsuc n)) = quotient_text (negsuc n) 1000 ++ lit "ms"
event_duration (some (pos n)) = if n == 0 then lit "--" else quotient_text (pos n) 1000 ++ lit "ms"

unfoldable pub count_status : (RunStatus → Bool) → List HistoryView → ℕ
count_status test [] = 0
count_status test (run ∷ runs) =
    let rest = count_status test runs in if test run.status then 1 + rest else rest

unfoldable pub is_completed : RunStatus → Bool
is_completed status = status_value status == lit "completed"

unfoldable pub is_failed : RunStatus → Bool
is_failed status = status_value status == lit "failed"

unfoldable pub is_running : RunStatus → Bool
is_running status = contains (status_value status) (lit "running" ∷ lit "queued" ∷ [])

module _ (percent : ℕ → Text) (shown : Value → Text) (answers : Answers) where
  unfoldable pub event_line : EventView → Text
  unfolding padded event_duration
  event_line ev =
      let outcome : Text = elim (lookup (lit "outcome") ev.metadata) [
        | none ↦ lit "?"
        | some v ↦ shown v
      ] in
      lit "       "
      ++ (padded 30 ev.name
          ++ (lit " " ++ (padded 10 (event_duration ev.duration) ++ (lit " " ++ outcome))))

  unfoldable pub event_lines : Option (List EventView) → List Text
  unfolding event_line last_items
  event_lines none = []
  event_lines (some events) =
      if is_empty events
      then []
      else (lit "     Events: " ++ decimal (length events))
        ∷ map event_line
            (last_items 5 (filter (λ (e : EventView). starts_with (lit "stage.") e.name) events))

  -- `print_run`
  unfoldable pub print_run : HistoryView → Bool → List Text
  unfolding event_lines padded status_icon
  print_run run verbose =
      let score_str : Text = elim run.score [ none ↦ lit "--" | some score ↦ percent score ] in
      let line =
        lit "  "
        ++ (status_icon run.status
            ++ (lit "  "
                ++ (padded 35 run.host
                    ++ (lit " "
                        ++ (padded 12 (status_value run.status) ++ (lit " " ++ score_str)))))) in
      let error =
        if verbose && status_value run.status == lit "failed"
        then lit "     Error: check events for details" ∷ []
        else [] in
      let details = if verbose then event_lines (answers.events run.run_id) else [] in
      line ∷ (error ++ details)

  unfoldable pub print_runs : List HistoryView → Bool → List Text
  unfolding print_run
  print_runs [] verbose = []
  print_runs (run ∷ runs) verbose = print_run run verbose ++ print_runs runs verbose

  abbrev heading : List Text
  heading =
      (padded 39 (lit "Host") ++ (lit " " ++ (padded 12 (lit "Status") ++ lit " Score")))
      ∷ lit "------------------------------------------------------------"
      ∷ []

  -- The branch of `main` with a run.
  unfoldable pub check_run : Text → Bool → Exited
  unfolding print_run padded
  check_run run_id verbose = elim (answers.run run_id) [
    | none ↦ record { printed = (lit "Run " ++ (run_id ++ lit " not found.")) ∷ []; code = 1 }
    | some run ↦ record {
      printed =
          heading
          ++ print_run
              (record {
                run_id = run.run_id;
                host = run.run_id;
                status = run.status;
                score = run.score;
              })
              verbose;
      code = 0;
    }
  ]

  -- The code after the summary.
  unfoldable pub summary_code : List HistoryView → ℕ
  unfolding count_status is_failed is_running
  summary_code runs =
      if not (count_status is_failed runs == 0)
      then 1
      else if not (count_status is_running runs == 0)
      then 2
      else 0

  unfoldable pub summary : List HistoryView → List Text
  unfolding count_status is_completed is_failed is_running
  summary runs =
      []
      ∷ (decimal (count_status is_completed runs)
          ++ (lit "/"
              ++ (decimal (length runs)
                  ++ (lit " completed, "
                      ++ (decimal (count_status is_failed runs)
                          ++ (lit " failed, "
                              ++ (decimal (count_status is_running runs)
                                  ++ lit " in progress")))))))
      ∷ []

  -- The branch of `main` without a run.
  unfoldable pub check_all : Bool → Exited
  unfolding print_runs summary summary_code padded
  check_all verbose = elim answers.history [
    | none ↦ record {
      printed = lit "Could not reach API. Is `make run-dev` running?" ∷ [];
      code = 1;
    }
    | some runs ↦
        if is_empty runs
        then record { printed = lit "No crawl runs found." ∷ []; code = 0 }
        else record {
          printed = heading ++ (print_runs runs verbose ++ summary runs);
          code = summary_code runs;
        }
  ]

  -- `main`, for the arguments that are no options.
  unfoldable pub dispatch : List Text → Bool → Exited
  unfolding check_run check_all
  dispatch [] verbose = check_all verbose
  dispatch (run_id ∷ args) verbose = check_run run_id verbose

  -- `main`, for the arguments after the name of the script.
  unfoldable pub main : List Text → Exited
  unfolding dispatch
  main argv =
      dispatch (filter (λ (a : Text). not (starts_with (lit "-") a)) argv)
        (contains (lit "-v") argv || contains (lit "--verbose") argv)
