-- ===== src/Witnesses/Pacing.antt =====
-- A call that fails once under a policy of two retries, two requests to one host with a request to
-- another in between, and a work item that is done.
use geo_optimizer.Base.{
  [], arith, codes_beq, codes_eq, inl, inr, nat_eq, none, refl, some, suc, zero, ℕ, ◌+◌, ◌∷◌, ◌≡◌,
  ◌≢◌, ◌≤◌, ◌⊎◌,
}
use geo_optimizer.Text.{Text, lit}
use geo_optimizer.Dict.{lookup, insert}
use geo_optimizer.Retry.{RetryPolicy, run, returned, raised}
use geo_optimizer.Retry.Attempts.{Fails, backoff, run-returned, run-raised}
use geo_optimizer.Scheduler.{HostRateLimiter, wait, wait_for, penalize}
use geo_optimizer.Scheduler.Pacing.{Others, wait_spacing, penalize_spacing}
use geo_optimizer.Models.{WorkItem, WorkItemState, WorkStage, transition, allowed}
use geo_optimizer.Models.Transitions.{budget, Step, Chain, Chain_lem}

abbrev policy : RetryPolicy
policy = record { retries = 1; base_delay = 100; backoff_multiplier = 2 }

-- The function fails until it was called once.
abbrev flaky : ℕ → (ℕ ⊎ ℕ) × ℕ
flaky zero = (inr 7, 1)
flaky (suc n) = (inl 42, suc (suc n))

abbrev broken : ℕ → (ℕ ⊎ ℕ) × ℕ
broken n = (inr n, n + 1)

run-returned_example :
    run flaky policy 0 ≡ record { outcome = returned 42; state = 2; slept = backoff 2 100 1 }
run-returned_example =
    run-returned flaky policy 1 0 1 2 42 (Fails.again 7 refl Fails.none_yet) refl (omega arith)

run-raised_example :
    run broken policy 0 ≡ record { outcome = raised 1; state = 2; slept = backoff 2 100 1 }
run-raised_example = run-raised broken policy 0 1 2 1 (Fails.again 0 refl Fails.none_yet) refl

abbrev limiter : HostRateLimiter
limiter = record { per_host_delay = 10; adaptive_penalty = 50; last_seen = [] }

abbrev host : Text
host = 104 ∷ []

abbrev other : Text
other = 111 ∷ []

abbrev after_wait : HostRateLimiter
after_wait = wait (wait limiter host 100) other 103

differs : other ≢ host
differs e = absurd (ground arith)

wait_over : 104 + wait_for after_wait host 104 ≤ 112
unfolding wait_for wait penalize lookup insert codes_beq
wait_over = omega arith

wait_spacing_example : 100 + 10 ≤ 112
wait_spacing_example =
    wait_spacing limiter after_wait host 100 104 112
      (Others.wait_other other 103 Others.none_left differs refl) wait_over

abbrev after_penalty : HostRateLimiter
after_penalty = wait (penalize limiter host 100) other 103

penalty_over : 104 + wait_for after_penalty host 104 ≤ 161
unfolding wait_for wait penalize lookup insert codes_beq
penalty_over = omega arith

penalize_spacing_example : 100 + 50 + 10 ≤ 161
penalize_spacing_example =
    penalize_spacing limiter after_penalty host 100 104 161
      (Others.wait_other other 103 Others.none_left differs refl) penalty_over

abbrev item : WorkItem
item = record {
  id = 1;
  run_id = 2;
  stage = WorkStage.scoring;
  state = WorkItemState.queued;
  url = lit "http://h";
  attempt_count = 0;
  last_error = none;
  priority = 100;
  metadata = [];
  created_at = 5;
  updated_at = 5;
}

abbrev started : WorkItem
started = record item { state = WorkItemState.processing; updated_at = 6 }

item_started : transition item WorkItemState.processing 6 ≡ some started
unfolding transition allowed
item_started = refl

Chain_example :
    (1 ≤ budget item.state)
    × (started.id ≡ item.id)
    × (started.stage ≡ item.stage)
    × (started.attempt_count ≡ item.attempt_count)
Chain_example =
    Chain_lem (Chain.next Chain.here (Step.step WorkItemState.processing 6 item_started))
