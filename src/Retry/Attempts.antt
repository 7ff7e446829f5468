-- ===== src/Retry/Attempts.antt =====
-- What a retried call comes to, by how often the function raises first.
use geo_optimizer.Base.{
  List, Option, [], ap, arith, inl, inr, none, some, suc, zero, ℕ, ◌*◌, ◌++◌, ◌∙◌, ◌∷◌, ◌≡◌, ◌≤◌,
  ◌⊎◌,
}
use native.Mathlib.Numerals.{add-one}
use mathlib.Core.List.{append-nil, append_assoc}
use geo_optimizer.Retry.{returned, raised, RetryPolicy, attempts, run}

-- The function raises at each of a number of calls, which take one state to another.
pub data Fails {ℓ} {S E A : Type ℓ} (fn : S → (A ⊎ E) × S) : ℕ → S → S → Type ℓ where
  none_yet : {s : S} → Fails fn 0 s s
  again :
      {s t u : S} {n : ℕ} (error : E)
      → fn s ≡ (inr error, t)
      → Fails fn n t u
      → Fails fn (suc n) s u

-- The delays of exponential backoff.
unfoldable pub backoff : ℕ → ℕ → ℕ → List ℕ
backoff multiplier delay zero = []
backoff multiplier delay (suc n) = delay ∷ backoff multiplier (delay * multiplier) n

module _ {ℓ} {S E A : Type ℓ} (fn : S → (A ⊎ E) × S) (policy : RetryPolicy) where
  attempts-again :
      (left delay : ℕ) (last : Option E) (s t : S) (error : E) (slept : List ℕ)
      → fn s ≡ (inr error, t)
      → attempts fn policy (suc (suc left)) delay last s slept
        ≡ attempts fn policy
            (suc left)
            (delay * policy.backoff_multiplier)
            (some error)
            t
            (slept ++ delay ∷ [])
  unfolding attempts
  attempts-again left delay last s t error slept f = rw (f, attempts)

  attempts-returned :
      (left k delay : ℕ) (last : Option E) (s t u : S) (a : A) (slept : List ℕ)
      → Fails fn k s t
      → fn t ≡ (inl a, u)
      → k ≤ left
      → attempts fn policy (suc left) delay last s slept ≡ record {
        outcome = returned a;
        state = u;
        slept = slept ++ backoff policy.backoff_multiplier delay k;
      }
  unfolding attempts backoff
  attempts-returned left k delay last s t u a slept none_yet e h = rw (e, attempts, append-nil)
  attempts-returned zero k delay last s t u a slept (again error f more) e h = absurd (omega arith)
  attempts-returned (suc left) k delay last s t u a slept (again {t = s'} {n = m} error f more) e
        h =
      rw (attempts-again left delay last s s' error slept f) (
        attempts-returned left m (delay * policy.backoff_multiplier) (some error) s' t u a
          (slept ++ delay ∷ []) more e (omega arith)
        ∙ ap (λ (l : List ℕ). record { outcome = returned a; state = u; slept = l })
            (append_assoc slept (delay ∷ []) _))

  attempts-raised :
      (k delay : ℕ) (last : Option E) (s t u : S) (error : E) (slept : List ℕ)
      → Fails fn k s t
      → fn t ≡ (inr error, u)
      → attempts fn policy (suc k) delay last s slept ≡ record {
        outcome = raised error;
        state = u;
        slept = slept ++ backoff policy.backoff_multiplier delay k;
      }
  unfolding attempts backoff
  attempts-raised k delay last s t u error slept none_yet e = rw (e, attempts, append-nil)
  attempts-raised k delay last s t u error slept (again {t = s'} {n = m} first f more) e =
      rw (attempts-again m delay last s s' first slept f) (
        attempts-raised m (delay * policy.backoff_multiplier) (some first) s' t u error
          (slept ++ delay ∷ []) more e
        ∙ ap (λ (l : List ℕ). record { outcome = raised error; state = u; slept = l })
            (append_assoc slept (delay ∷ []) _))

  -- If the function raises at the first calls, no more than `retries` of them, and then returns,
  -- the run returns that value after the exponential delays between these calls.
  pub run-returned :
      (k : ℕ) (s t u : S) (a : A)
      → Fails fn k s t
      → fn t ≡ (inl a, u)
      → k ≤ policy.retries
      → run fn policy s ≡ record {
        outcome = returned a;
        state = u;
        slept = backoff policy.backoff_multiplier policy.base_delay k;
      }
  unfolding run
  run-returned k s t u a f e h =
      rw add-one (attempts-returned policy.retries k policy.base_delay none s t u a [] f e h)

  -- If it raises at `retries` calls and at the next, the run raises the last error, after the
  -- same delays and none behind the last call.
  pub run-raised :
      (s t u : S) (error : E)
      → Fails fn policy.retries s t
      → fn t ≡ (inr error, u)
      → run fn policy s ≡ record {
        outcome = raised error;
        state = u;
        slept = backoff policy.backoff_multiplier policy.base_delay policy.retries;
      }
  unfolding run
  run-raised s t u error f e =
      rw add-one (attempts-raised policy.retries policy.base_delay none s t u error [] f e)
