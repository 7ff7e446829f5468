-- ===== src/Models/Transitions.antt =====
-- The life of a work item, as the calls of `transition` that go through.
use geo_optimizer.Base.{arith, refl, some, suc, ℕ, ◌+◌, ◌<◌, ◌∙◌, ◌≡◌, ◌≤◌}
use geo_optimizer.Models.{WorkItem, WorkItemState, transition}

pub data Step : WorkItem → WorkItem → Type 0 where
  step :
      {i j : WorkItem} (next : WorkItemState) (now : ℕ) → transition i next now ≡ some j → Step i j

-- The number counts the calls.
pub data Chain (i : WorkItem) : WorkItem → ℕ → Type 0 where
  here : Chain i i 0
  next : {j k : WorkItem} {n : ℕ} → Chain i j n → Step j k → Chain i k (suc n)

-- How many calls can still go through.
abbrev pub budget : WorkItemState → ℕ
budget WorkItemState.queued = 2
budget WorkItemState.processing = 1
budget _ = 0

Step-budget : {i j : WorkItem} → Step i j → budget j.state < budget i.state
unfolding transition
Step-budget {i} {j} (step asked now e) = ground arith

Chain-budget : {i j : WorkItem} {n : ℕ} → Chain i j n → n + budget j.state ≤ budget i.state
Chain-budget here = omega arith
Chain-budget (next c s) = omega (arith, Chain-budget c, Step-budget s)

Step-rest :
    {i j : WorkItem}
    → Step i j
    → (j.id ≡ i.id) × (j.stage ≡ i.stage) × (j.attempt_count ≡ i.attempt_count)
unfolding transition
Step-rest {i} {j} (step asked now e) = ground arith

Chain-rest :
    {i j : WorkItem} {n : ℕ}
    → Chain i j n
    → (j.id ≡ i.id) × (j.stage ≡ i.stage) × (j.attempt_count ≡ i.attempt_count)
Chain-rest here = (refl, refl, refl)
Chain-rest (next c s) =
    let (a, b, d) = Chain-rest c in let (x, y, z) = Step-rest s in (x ∙ a, y ∙ b, z ∙ d)

-- Whatever transitions are asked for, at most two go through from a queued item, at most one from
-- one in processing and none from a completed or failed one; identity, stage and attempts stay.
pub Chain_lem :
    {i j : WorkItem} {n : ℕ}
    → Chain i j n
    → (n ≤ budget i.state)
      × (j.id ≡ i.id)
      × (j.stage ≡ i.stage)
      × (j.attempt_count ≡ i.attempt_count)
Chain_lem c = let (a, b, d) = Chain-rest c in (omega (arith, Chain-budget c), a, b, d)
