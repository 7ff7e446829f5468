-- ===== src/Scheduler.antt =====
-- src/crawllmer/core/scheduler.py: pacing by host. Times are readings of the monotonic clock, in a
-- unit of their own; `at` is the reading at entry and `later` the one after the sleep.
pub mod Pacing
use geo_optimizer.Base.{codes_eq, nat_eq, none, some, ℕ, ◌+◌, ◌-◌}
use geo_optimizer.Text.{Text}
use geo_optimizer.Dict.{Dict, lookup, insert}

pub record HostRateLimiter : Type 0 where
  pub per_host_delay : ℕ
  pub adaptive_penalty : ℕ
  pub last_seen : Dict Text ℕ

-- How long `wait` sleeps: `per_host_delay - (now - last)`, if that is positive. The difference is
-- written so that a `last` in the future adds to the delay.
unfoldable pub wait_for : HostRateLimiter → Text → ℕ → ℕ
wait_for limiter host now = elim (lookup host limiter.last_seen) [
  | none ↦ 0
  | some last ↦ limiter.per_host_delay + last - now
]

unfoldable pub wait : HostRateLimiter → Text → (later : ℕ) → HostRateLimiter
wait limiter host later = record limiter { last_seen = insert host later limiter.last_seen }

unfoldable pub penalize : HostRateLimiter → Text → (now : ℕ) → HostRateLimiter
penalize limiter host now = record limiter {
  last_seen = insert host (now + limiter.adaptive_penalty) limiter.last_seen;
}
