-- ===== src/Retry.antt =====
-- src/crawllmer/core/retry.py. The function that is retried takes a state and may raise; what it
-- did to the state before it raised stays. Delays are numbers of a unit of time.
pub mod Attempts
use geo_optimizer.Base.{
  List, Option, [], inl, inr, none, some, suc, zero, ℕ, ◌*◌, ◌++◌, ◌+◌, ◌∷◌, ◌⊎◌,
}

pub data Outcome {ℓ} (E A : Type ℓ) : Type ℓ where
  returned : A → Outcome E A
  raised : E → Outcome E A
  -- the `RuntimeError` for a policy that made no attempt
  exhausted : Outcome E A

pub record RetryPolicy : Type 0 where
  pub retries : ℕ
  pub base_delay : ℕ
  pub backoff_multiplier : ℕ

-- What a run leaves: its outcome, the state, and the delays that it slept.
pub record Ran {ℓ} (S E A : Type ℓ) : Type ℓ where
  pub outcome : Outcome E A
  pub state : S
  pub slept : List ℕ

module _ {ℓ} {S E A : Type ℓ} (fn : S → (A ⊎ E) × S) (policy : RetryPolicy) where
  unfoldable pub finish : Option E → S → List ℕ → Ran S E A
  finish none s slept = record { outcome = exhausted; state = s; slept = slept }
  finish (some error) s slept = record { outcome = raised error; state = s; slept = slept }

  -- `return fn()`, or the handler.
  unfoldable pub after_call : (A ⊎ E) × S → List ℕ → (E → S → Ran S E A) → Ran S E A
  after_call (inl a, s') slept handler = record { outcome = returned a; state = s'; slept = slept }
  after_call (inr error, s') slept handler = handler error s'

  -- The `for` loop; `left` attempts remain, and the last one does not sleep.
  unfoldable pub attempts : ℕ → ℕ → Option E → S → List ℕ → Ran S E A
  unfolding finish after_call
  attempts zero delay last_error s slept = finish last_error s slept
  attempts (suc left) delay last_error s slept = after_call (fn s) slept λ error s'. elim left [
    | zero ↦ finish (some error) s' slept
    | suc _ ↦
        attempts left (delay * policy.backoff_multiplier) (some error) s' (slept ++ delay ∷ [])
  ]

  unfoldable pub run : S → Ran S E A
  unfolding attempts
  run s = attempts (policy.retries + 1) policy.base_delay none s []
