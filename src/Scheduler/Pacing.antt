-- ===== src/Scheduler/Pacing.antt =====
-- The distance in time between requests to one host.
use geo_optimizer.Base.{
  ap, arith, codes_beq_iff, codes_eq, nat_eq, refl, ℕ, ◌+◌, ◌∙◌, ◌≡◌, ◌≢◌, ◌≤◌,
}
use geo_optimizer.Text.{Text}
use geo_optimizer.Dict.{lookup, lookup-insert}
use geo_optimizer.Scheduler.{HostRateLimiter, wait_for, wait, penalize}

-- Events of other hosts.
pub data Others (host : Text) (s : HostRateLimiter) : HostRateLimiter → Type 0 where
  none_left : Others host s s
  wait_other :
      {t u : HostRateLimiter} (other : Text) (later : ℕ)
      → Others host s t
      → other ≢ host
      → u ≡ wait t other later
      → Others host s u
  penalize_other :
      {t u : HostRateLimiter} (other : Text) (now : ℕ)
      → Others host s t
      → other ≢ host
      → u ≡ penalize t other now
      → Others host s u

wait-keeps :
    (host other : Text) (later : ℕ) (t : HostRateLimiter)
    → other ≢ host
    → lookup host (wait t other later).last_seen ≡ lookup host t.last_seen
unfolding wait
wait-keeps host other later t ne =
    ground (arith, lookup-insert other host later t.last_seen, codes_beq_iff other host)

penalize-keeps :
    (host other : Text) (now : ℕ) (t : HostRateLimiter)
    → other ≢ host
    → lookup host (penalize t other now).last_seen ≡ lookup host t.last_seen
unfolding penalize
penalize-keeps host other now t ne = ground (
  arith,
  lookup-insert other host (now + t.adaptive_penalty) t.last_seen,
  codes_beq_iff other host,
)

Others-last :
    {host : Text} {s t : HostRateLimiter}
    → Others host s t
    → lookup host t.last_seen ≡ lookup host s.last_seen
Others-last none_left = refl
Others-last {host} (wait_other {t} other later o ne e) =
    ap (λ (l : HostRateLimiter). lookup host l.last_seen) e
    ∙ wait-keeps host other later t ne
    ∙ Others-last o
Others-last {host} (penalize_other {t} other now o ne e) =
    ap (λ (l : HostRateLimiter). lookup host l.last_seen) e
    ∙ penalize-keeps host other now t ne
    ∙ Others-last o

Others-delay :
    {host : Text} {s t : HostRateLimiter} → Others host s t → t.per_host_delay ≡ s.per_host_delay
unfolding wait penalize
Others-delay none_left = refl
Others-delay {host} (wait_other {t} other later o ne e) =
    ap (λ (l : HostRateLimiter). l.per_host_delay) e ∙ Others-delay o
Others-delay {host} (penalize_other {t} other now o ne e) =
    ap (λ (l : HostRateLimiter). l.per_host_delay) e ∙ Others-delay o

-- Whatever happens to other hosts in between, a request to a host that was let through at
-- `first` is followed by one let through no earlier than the host's delay later.
pub wait_spacing :
    (s t : HostRateLimiter) (host : Text) (first now later : ℕ)
    → Others host (wait s host first) t
    → now + wait_for t host now ≤ later
    → first + s.per_host_delay ≤ later
unfolding wait_for wait
wait_spacing s t host first now later o h = ground (
  arith,
  Others-last o,
  Others-delay o,
  lookup-insert host host first s.last_seen,
  codes_beq_iff host host,
)

-- Whatever happens to other hosts in between, a penalty for a host at `first` is followed by a
-- request to it let through no earlier than the penalty and the delay later.
pub penalize_spacing :
    (s t : HostRateLimiter) (host : Text) (first now later : ℕ)
    → Others host (penalize s host first) t
    → now + wait_for t host now ≤ later
    → first + s.adaptive_penalty + s.per_host_delay ≤ later
unfolding wait_for penalize
penalize_spacing s t host first now later o h = ground (
  arith,
  Others-last o,
  Others-delay o,
  lookup-insert host host (first + s.adaptive_penalty) s.last_seen,
  codes_beq_iff host host,
)
