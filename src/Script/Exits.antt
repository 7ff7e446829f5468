-- ===== src/Script/Exits.antt =====
-- The exit code of the script.
use geo_optimizer.Base.{
  Bool, Bool-cases, List, Option, Option-cases, [], any, ap, arith, codes_beq, codes_eq, contains,
  false, filter, find, if◌then◌else◌, inl, inr, is_some, nat_eq, none, not, refl, some, true, ℕ,
  ◌==◌, ◌∙◌, ◌∷◌, ◌≡◌,
}
use geo_optimizer.Text.{Text, lit, starts_with}
use geo_optimizer.Value.{Value}
use geo_optimizer.Models.{RunStatus}
use geo_optimizer.Api.{HistoryView}
use geo_optimizer.Script.{
  Answers, status_value, count_status, is_failed, is_running, summary_code, check_run, check_all,
  main, dispatch,
}

-- The first argument that is no option.
abbrev pub run_argument : List Text → Option Text
run_argument argv = find (λ a. not (starts_with (lit "-") a)) argv

abbrev pub has_failed : RunStatus → Bool
has_failed RunStatus.failed = true
has_failed RunStatus.queued = false
has_failed RunStatus.running = false
has_failed RunStatus.completed = false

abbrev pub in_progress : RunStatus → Bool
in_progress RunStatus.queued = true
in_progress RunStatus.running = true
in_progress RunStatus.completed = false
in_progress RunStatus.failed = false

is_failed_lem : (status : RunStatus) → is_failed status ≡ has_failed status
unfolding is_failed status_value codes_beq lit
is_failed_lem RunStatus.queued = refl
is_failed_lem RunStatus.running = refl
is_failed_lem RunStatus.completed = refl
is_failed_lem RunStatus.failed = refl

is_running_lem : (status : RunStatus) → is_running status ≡ in_progress status
unfolding is_running status_value contains codes_beq lit
is_running_lem RunStatus.queued = refl
is_running_lem RunStatus.running = refl
is_running_lem RunStatus.completed = refl
is_running_lem RunStatus.failed = refl

any-same :
    (p q : RunStatus → Bool) (runs : List HistoryView)
    → ((status : RunStatus) → p status ≡ q status)
    → any (λ r. p r.status) runs ≡ any (λ r. q r.status) runs
any-same p q [] h = refl
any-same p q (run ∷ runs) h = ground (arith, h run.status, any-same p q runs h)

-- The code for the runs of the history.
abbrev pub code_of : List HistoryView → ℕ
code_of runs =
    if any (λ r. has_failed r.status) runs
    then 1
    else if any (λ r. in_progress r.status) runs
    then 2
    else 0

count_status-any :
    (test : RunStatus → Bool) (runs : List HistoryView)
    → not (count_status test runs == 0) ≡ any (λ r. test r.status) runs
unfolding count_status
count_status-any test [] = refl
count_status-any test (run ∷ runs) = ground (arith, count_status-any test runs)

abbrev first : List Text → Option Text
first [] = none
first (x ∷ xs) = some x

first-filter : (p : Text → Bool) (xs : List Text) → first (filter p xs) ≡ find p xs
first-filter p [] = refl
first-filter p (x ∷ xs) = elim (Bool-cases (p x)) [
  | inl y ↦ rw (y) refl
  | inr n ↦ rw (n) (first-filter p xs)
]

-- The code for a run, if one is given.
abbrev pub code_for : Answers → Option Text → ℕ
code_for answers (some run_id) = if is_some (answers.run run_id) then 0 else 1
code_for answers none = elim answers.history [ none ↦ 1 | some runs ↦ code_of runs ]

module _ (percent : ℕ → Text) (shown : Value → Text) (answers : Answers) where
  code-check_run :
      (run_id : Text) (verbose : Bool)
      → (check_run percent shown answers run_id verbose).code
        ≡ (if is_some (answers.run run_id) then 0 else 1)
  unfolding check_run
  code-check_run run_id verbose = elim (Option-cases (answers.run run_id)) [
    | inl n ↦ ground arith
    | inr (run, e) ↦ ground arith
  ]

  summary_code-code_of :
      (runs : List HistoryView) → summary_code percent shown answers runs ≡ code_of runs
  unfolding summary_code
  summary_code-code_of runs =
      rw
        (
          count_status-any is_failed runs,
          count_status-any is_running runs,
          any-same is_failed has_failed runs is_failed_lem,
          any-same is_running in_progress runs is_running_lem,
        )
        refl

  code-check_all :
      (verbose : Bool)
      → (check_all percent shown answers verbose).code
        ≡ elim answers.history [ none ↦ 1 | some runs ↦ code_of runs ]
  unfolding check_all
  code-check_all verbose = elim (Option-cases answers.history) [
    | inl n ↦ rw (n) refl
    | inr ([], e) ↦ rw (e) refl
    | inr (run ∷ runs, e) ↦ rw (e) (summary_code-code_of (run ∷ runs))
  ]

  code-dispatch :
      (args : List Text) (verbose : Bool)
      → (dispatch percent shown answers args verbose).code ≡ code_for answers (first args)
  unfolding dispatch
  code-dispatch [] verbose = code-check_all verbose
  code-dispatch (run_id ∷ args) verbose = code-check_run run_id verbose

  -- The exit code of the script: with a run, 0 if the API has it, whatever its status, and 1 if not;
  -- without one, 1 if the API cannot be reached, and otherwise 1 if a run has failed, else 2 if one
  -- is queued or running, else 0.
  pub code-main :
      (argv : List Text)
      → (main percent shown answers argv).code ≡ code_for answers (run_argument argv)
  unfolding main
  code-main argv =
      code-dispatch (filter (λ (a : Text). not (starts_with (lit "-") a)) argv) _
      ∙ ap (code_for answers) (first-filter (λ (a : Text). not (starts_with (lit "-") a)) argv)
