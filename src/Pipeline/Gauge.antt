-- ===== src/Pipeline/Gauge.antt =====
-- The gauge of src/crawllmer/core/observability/pipeline_telemetry.py that counts the work items in
-- each state, and the items that the storage has in it.
pub mod Moves
pub mod Items
pub mod Framed
pub mod Run
use geo_optimizer.Base.{
  Bool-cases, List, [], ap, arith, codes_eq, false, if◌then◌else◌, inl, inr, nat_eq, refl, some, ℕ,
  ◌++◌, ◌+◌, ◌<◌, ◌==◌, ◌∷◌, ◌≡◌,
}
use geo_optimizer.Dict.{Dict, lookup, insert, has_key}
use geo_optimizer.Models.{WorkItem, WorkItemState}
use geo_optimizer.Storage.{same_state}
use geo_optimizer.World.{
  World, Measure, state_count_up, state_count_down, stage_event, run_outcome, pages_indexed,
  llmstxt_size,
}

abbrev pub one : WorkItemState → WorkItemState → ℕ
one s t = if same_state s t then 1 else 0

-- What a measure adds to the gauge of a state, and what it takes away.
abbrev pub raised : WorkItemState → Measure → ℕ
raised s (state_count_up t) = one s t
raised s m = 0

abbrev pub lowered : WorkItemState → Measure → ℕ
lowered s (state_count_down t) = one s t
lowered s m = 0

unfoldable pub ups : WorkItemState → List Measure → ℕ
ups s [] = 0
ups s (m ∷ ms) = raised s m + ups s ms

unfoldable pub downs : WorkItemState → List Measure → ℕ
downs s [] = 0
downs s (m ∷ ms) = lowered s m + downs s ms

-- The number of stored items in a state.
unfoldable pub count_in : WorkItemState → Dict ℕ WorkItem → ℕ
count_in s [] = 0
count_in s ((i, item) ∷ d) = one s item.state + count_in s d

-- The gauge of every state shows the number of the stored items in it.
abbrev pub IsBalanced : World → Type 0
IsBalanced w =
    (s : WorkItemState) → count_in s w.store.work_items + downs s w.measures ≡ ups s w.measures

pub ups-append :
    (s : WorkItemState) (ms : List Measure) (m : Measure)
    → ups s (ms ++ m ∷ []) ≡ ups s ms + raised s m
unfolding ups
ups-append s [] m = omega arith
ups-append s (x ∷ ms) m = omega (arith, ups-append s ms m)

pub downs-append :
    (s : WorkItemState) (ms : List Measure) (m : Measure)
    → downs s (ms ++ m ∷ []) ≡ downs s ms + lowered s m
unfolding downs
downs-append s [] m = omega arith
downs-append s (x ∷ ms) m = omega (arith, downs-append s ms m)

pub count_in-insert_new :
    (s : WorkItemState) (i : ℕ) (item : WorkItem) (d : Dict ℕ WorkItem)
    → has_key i d ≡ false
    → count_in s (insert i item d) ≡ count_in s d + one s item.state
unfolding count_in insert has_key lookup
count_in-insert_new s i item [] h = omega arith
count_in-insert_new s i item ((j, old) ∷ d) h = elim (Bool-cases (j == i)) [
  | inl y ↦ absurd (ground arith)
  | inr n ↦ let rest = count_in-insert_new s i item d (ground arith) in rw n (omega (arith, rest))
]

pub count_in-insert :
    (s : WorkItemState) (i : ℕ) (item old : WorkItem) (d : Dict ℕ WorkItem)
    → lookup i d ≡ some old
    → count_in s (insert i item d) + one s old.state ≡ count_in s d + one s item.state
unfolding count_in insert lookup
count_in-insert s i item old [] h = absurd (ground arith)
count_in-insert s i item old ((j, row) ∷ d) h = elim (Bool-cases (j == i)) [
  | inl y ↦
      let same : row ≡ old = ground arith in
      rw y (omega (arith, ap (λ (r : WorkItem). one s r.state) same))
  | inr n ↦ let rest = count_in-insert s i item old d (ground arith) in rw n (omega (arith, rest))
]

one_self : (s : WorkItemState) → one s s ≡ 1
unfolding same_state
one_self WorkItemState.queued = refl
one_self WorkItemState.processing = refl
one_self WorkItemState.completed = refl
one_self WorkItemState.failed = refl

-- An item in a state is counted.
pub count_in-pos :
    (i : ℕ) (item : WorkItem) (d : Dict ℕ WorkItem)
    → lookup i d ≡ some item
    → 0 < count_in item.state d
unfolding count_in lookup
count_in-pos i item [] h = absurd (ground arith)
count_in-pos i item ((j, row) ∷ d) h = elim (Bool-cases (j == i)) [
  | inl y ↦
      let same : row ≡ item = ground arith in
      omega (arith, one_self item.state, ap (λ (r : WorkItem). one item.state r.state) same)
  | inr n ↦ omega (arith, count_in-pos i item d (ground arith))
]
