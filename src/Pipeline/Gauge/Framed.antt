-- ===== src/Pipeline/Gauge/Framed.antt =====
-- What of a run leaves the gauge of the work items and the items alone.
use geo_optimizer.Base.{[], ap, arith, refl, ◌++◌, ◌∷◌, ◌≡◌}
use geo_optimizer.Value.{Metadata}
use geo_optimizer.Errors.{Result, ok}
use geo_optimizer.Models.{WorkItemState, CrawlEvent}
use geo_optimizer.Storage.{Store, create_run, update_run, create_event}
use geo_optimizer.World.{
  World, Env, Measure, state_count_up, state_count_down, stage_event, run_outcome, pages_indexed,
  llmstxt_size, stage_duration, measure, modify, storing,
}
use geo_optimizer.World.Keeps.{Keeps, Keeps-gets, Keeps-bind, Keeps-storing, Keeps-modify}
use geo_optimizer.Pipeline.{save_run, close_stage_event}
use geo_optimizer.Pipeline.Framed.{IsEventFramed, now-Keeps}
use geo_optimizer.Pipeline.Runs.{IsReport, IsRunFramed}
use geo_optimizer.Pipeline.Gauge.{IsBalanced, ups, downs, raised, lowered, ups-append, downs-append}
use geo_optimizer.Pipeline.Gauge.Moves.{IsAt}

-- A property of the stored work items, the current one and what the gauge shows, alone.
pub record IsOfGauge (P : World → Type 0) : Type 0 where
  pub same :
      (w v : World)
      → v.store.work_items ≡ w.store.work_items
      → v.item ≡ w.item
      → ((s : WorkItemState) → ups s v.measures ≡ ups s w.measures)
      → ((s : WorkItemState) → downs s v.measures ≡ downs s w.measures)
      → P w
      → P v

pub IsBalanced-IsOfGauge : IsOfGauge IsBalanced
IsBalanced-IsOfGauge = record {
  same = λ w v items item up down h s. rw items (omega (arith, h s, up s, down s));
}

pub IsAt-IsOfGauge : (p n : WorkItemState) → IsOfGauge (IsAt p n)
IsAt-IsOfGauge p n = record {
  same = λ w v items item up down h.
      (λ s. rw items (omega (arith, h.0 s, up s, down s)), rw (items, item) h.1, rw item h.2);
}

raised-report : (s : WorkItemState) (m : Measure) → IsReport m → raised s m ≡ 0
raised-report s (state_count_up t) r = elim r [ ]
raised-report s (state_count_down t) r = refl
raised-report s (stage_event stage success) r = refl
raised-report s (run_outcome success) r = refl
raised-report s (pages_indexed n) r = refl
raised-report s (llmstxt_size n) r = refl
raised-report s (stage_duration stage duration) r = refl

lowered-report : (s : WorkItemState) (m : Measure) → IsReport m → lowered s m ≡ 0
lowered-report s (state_count_up t) r = refl
lowered-report s (state_count_down t) r = elim r [ ]
lowered-report s (stage_event stage success) r = refl
lowered-report s (run_outcome success) r = refl
lowered-report s (pages_indexed n) r = refl
lowered-report s (llmstxt_size n) r = refl
lowered-report s (stage_duration stage duration) r = refl

module _ (P : World → Type 0) (of_gauge : IsOfGauge P) where
  pub storing-Keeps :
      (f : Store → Result Store)
      → ((s t : Store) → f s ≡ ok t → t.work_items ≡ s.work_items)
      → Keeps P (storing f)
  storing-Keeps f k = Keeps-storing f (λ w t h u.
      of_gauge.same w (record w { store = t }) (k w.store t u) refl (λ s. refl) (λ s. refl) h)

  unmoved :
      (w v : World)
      → v.store.work_items ≡ w.store.work_items
      → v.item ≡ w.item
      → v.measures ≡ w.measures
      → P w
      → P v
  unmoved w v items item ms h =
      of_gauge.same w v items item (λ s. ap (ups s) ms) (λ s. ap (downs s) ms) h

  pub gauge-IsEventFramed : (env : Env) → IsEventFramed env P
  gauge-IsEventFramed env = record {
    readings = λ w n h. unmoved w (record w { readings = n }) refl refl refl h;
    drawn = λ w n h. unmoved w (record w { drawn = n }) refl refl refl h;
    create_event-Keeps =
        λ e. storing-Keeps (create_event e) (λ s t h. unfold create_event in ground arith);
  }

  -- A report adds nothing to the gauge.
  report-Keeps : (m : Measure) → IsReport m → Keeps P (measure m)
  unfolding measure modify
  report-Keeps m r = record {
    at = λ w h.
        of_gauge.same w (record w { measures = w.measures ++ m ∷ [] }) refl refl
          (λ s. omega (arith, ups-append s w.measures m, raised-report s m r))
          (λ s. omega (arith, downs-append s w.measures m, lowered-report s m r)) h;
  }

  pub gauge-IsRunFramed : (env : Env) → IsRunFramed env P
  gauge-IsRunFramed env = record {
    events = gauge-IsEventFramed env;
    run = λ w r same h. unmoved w (record w { run = r }) refl refl refl h;
    limiter = λ w l h. unmoved w (record w { limiter = l }) refl refl refl h;
    save_run-Keeps =
        unfold save_run in
        Keeps-bind _ _ (Keeps-gets _) (λ run.
          storing-Keeps (update_run run) (λ s t h. unfold update_run create_run in ground arith));
    measure-Keeps = report-Keeps;
  }

  pub set_event-Keeps : (e : CrawlEvent) → Keeps P (modify (λ w. record w { event = e }))
  set_event-Keeps e = Keeps-modify _ (λ w h. unmoved w (record w { event = e }) refl refl refl h)

  pub close_stage_event-Keeps :
      (env : Env) (entries : Metadata) → Keeps P (close_stage_event env entries)
  unfolding close_stage_event
  close_stage_event-Keeps env entries =
      Keeps-bind _ _ (now-Keeps env P (gauge-IsEventFramed env))
        (λ at. Keeps-modify _ (λ w h. unmoved w (record w { event = _ }) refl refl refl h))
