-- ===== src/World.antt =====
-- The state that a run of the pipeline changes, and actions on it that may raise. What was written
-- before a raise stays written. The mutable objects of a run (the run itself, the work item and
-- the event of the current stage) are parts of the state.
pub mod Keeps
pub mod Ensures
pub mod Does
pub mod Raises
use geo_optimizer.Base.{Bool, List, [], ℕ, ◌++◌, ◌+◌, ◌∷◌}
use geo_optimizer.Text.{Text}
use geo_optimizer.Value.{Metadata}
use geo_optimizer.Errors.{Error, Result, ok, err}
use geo_optimizer.Storage.{Store}
use geo_optimizer.Scheduler.{HostRateLimiter}
use geo_optimizer.Models.{CrawlRun, WorkItem, WorkItemState, WorkStage, CrawlEvent}

-- What the telemetry records: counters go up or down by one, histograms take a value.
pub data Measure : Type 0 where
  state_count_up state_count_down : WorkItemState → Measure
  stage_event : WorkStage → Bool → Measure
  run_outcome : Bool → Measure
  pages_indexed llmstxt_size : ℕ → Measure
  stage_duration : WorkStage → (duration : ℕ) → Measure

pub record World : Type 0 where
  pub store : Store
  pub run : CrawlRun
  pub item : WorkItem
  pub event : CrawlEvent
  pub measures : List Measure
  pub published : List (Text × Metadata)
  pub limiter : HostRateLimiter
  -- how many times the clock was read and identifiers were drawn
  pub readings : ℕ
  pub drawn : ℕ

-- What a process is given: the clock's readings, the identifiers that `uuid4` draws, the keys that
-- the storage makes from hashes, and the text of an identifier.
pub record Env : Type 0 where
  pub time : ℕ → ℕ
  pub counter : ℕ → ℕ
  pub uuid : ℕ → ℕ
  pub row_id : ℕ → Text → ℕ
  pub show_id : ℕ → Text

abbrev pub Exec : Type 0 → Type 0
Exec A = World → Result A × World

module _ {A : Type 0} where
  unfoldable pub pure : A → Exec A
  pure a w = (ok a, w)

  unfoldable pub raise : Error → Exec A
  raise e w = (err e, w)

  unfoldable pub gets : (World → A) → Exec A
  gets f w = (ok (f w), w)

  -- `try: m except Exception as exc: handler(exc)`
  unfoldable pub on_error : Result A × World → (Error → Exec A) → Result A × World
  on_error (ok a, w) handler = (ok a, w)
  on_error (err e, w) handler = handler e w

  unfoldable pub try_except : Exec A → (Error → Exec A) → Exec A
  unfolding on_error
  try_except m handler w = on_error (m w) handler

  -- `try: m finally: last`; an exception of `last` takes the place of the result.
  unfoldable pub finishing : Result A → Result (Unit {0}) × World → Result A × World
  finishing r (ok _, w) = (r, w)
  finishing r (err e, w) = (err e, w)

  unfoldable pub then_finally : Result A × World → Exec (Unit {0}) → Result A × World
  unfolding finishing
  then_finally (r, w) last = finishing r (last w)

  unfoldable pub try_finally : Exec A → Exec (Unit {0}) → Exec A
  unfolding then_finally
  try_finally m last w = then_finally (m w) last

unfoldable pub modify : (World → World) → Exec (Unit {0})
modify f w = (ok tt, f w)

-- A storage call that may fail; a failed commit changes nothing.
unfoldable pub store_result : Result Store → World → Result (Unit {0}) × World
store_result (ok store) w = (ok tt, record w { store = store })
store_result (err e) w = (err e, w)

unfoldable pub storing : (Store → Result Store) → Exec (Unit {0})
unfolding store_result
storing f w = store_result (f w.store) w

module _ {A B : Type 0} where
  unfoldable pub continue : Result A × World → (A → Exec B) → Result B × World
  continue (ok a, w) f = f a w
  continue (err e, w) f = (err e, w)

  infixl 5 ◌>>=◌ ◌>>◌
  unfoldable pub ◌>>=◌ : Exec A → (A → Exec B) → Exec B
  unfolding continue
  ◌>>=◌ m f w = continue (m w) f

  abbrev pub ◌>>◌ : Exec A → Exec B → Exec B
  m >> k = m >>= λ _. k

module _ (env : Env) where
  -- `datetime.now(UTC)` or `monotonic()`, and `uuid4()`.
  unfoldable pub now : Exec ℕ
  now w = (ok (env.time w.readings), record w { readings = w.readings + 1 })

  -- A clock that never goes back.
  unfoldable pub perf_counter : Exec ℕ
  perf_counter w = (ok (env.counter w.readings), record w { readings = w.readings + 1 })

  unfoldable pub uuid4 : Exec ℕ
  uuid4 w = (ok (env.uuid w.drawn), record w { drawn = w.drawn + 1 })

unfoldable pub measure : Measure → Exec (Unit {0})
unfolding modify
measure m = modify (λ w. record w { measures = w.measures ++ m ∷ [] })
