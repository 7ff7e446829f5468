-- ===== src/Pipeline/Queued.antt =====
-- A run works on items of its own: the items that were there before, such as the one that
-- `enqueue_run` stores for the discovery stage, are never touched.
use geo_optimizer.Base.{arith, codes_eq, nat_eq, refl, some, ℕ, ◌+◌, ◌≡◌, ◌≢◌}
use geo_optimizer.Dict.{lookup, has_key, lookup-insert}
use geo_optimizer.Models.{WorkItem, WorkItemState, WorkStage, CrawlEvent, transition}
use geo_optimizer.Storage.{update_run, create_run, create_work_item, update_work_item, create_event}
use geo_optimizer.Storage.Items.{update_work_item_lem}
use geo_optimizer.World.{World, Env, Exec, modify, storing, now, raise, gets, ◌>>=◌}
use geo_optimizer.World.Keeps.{Keeps, Keeps-storing}
use geo_optimizer.Pipeline.Framed.{IsEventFramed, IsFramed, measure-Keeps, run_stages-Keeps}
use geo_optimizer.Pipeline.Runs.{IsRunFramed, process_run-Keeps}
use geo_optimizer.Pipeline.{store_new, save_item, save_run, transition_to, moved, process_run, plan}

-- The item is stored, and is not the one that is being worked on.
abbrev pub Stays : ℕ → WorkItem → World → Type 0
Stays i item w = (lookup i w.store.work_items ≡ some item) × (w.item.id ≢ i)

module _ (i : ℕ) (item : WorkItem) where
  moved-Stays :
      (current : WorkItem) (next : WorkItemState) (at : ℕ) (w : World)
      → w.item ≡ current
      → Stays i item w
      → Stays i item (moved current.state next (transition current next at) w).1
  unfolding moved transition modify raise
  moved-Stays current next at w e h = ground arith

  transition_to-Stays :
      (env : Env) (next : WorkItemState) → Keeps (Stays i item) (transition_to env next)
  unfolding transition_to now gets ◌>>=◌
  transition_to-Stays env next = record {
    at = λ w h.
        moved-Stays w.item next (env.time w.readings) (record w { readings = w.readings + 1 }) refl
          h;
  }

  store_new-Stays : (new : WorkItem) → Keeps (Stays i item) (store_new new)
  unfolding store_new storing create_work_item has_key modify ◌>>=◌
  store_new-Stays new = record {
    at = λ w h. ground (arith, lookup-insert new.id i new w.store.work_items);
  }

  save_item-Stays : Keeps (Stays i item) save_item
  unfolding save_item gets ◌>>=◌
  save_item-Stays = record {
    at = λ w h.
        ((Keeps-storing {P = λ v. Stays i item v × (v.item ≡ w.item)} (update_work_item w.item)
            (λ v s k e.
              ((ground (arith, k.1, update_work_item_lem w.item v.store s i e), k.0.1), k.1))).at
          w (h, refl)).0;
  }

  pub save_run-Stays : Keeps (Stays i item) save_run
  unfolding save_run gets ◌>>=◌ update_run create_run
  save_run-Stays = record {
    at = λ w h.
        (Keeps-storing {P = Stays i item} (update_run w.run) (λ v s k e. ground (arith, k))).at w h;
  }

  create_event-Stays : (event : CrawlEvent) → Keeps (Stays i item) (storing (create_event event))
  create_event-Stays event =
      Keeps-storing (create_event event) (λ w s h e. unfold create_event in ground arith)

  pub Stays-IsEventFramed : (env : Env) → IsEventFramed env (Stays i item)
  Stays-IsEventFramed env = record {
    readings = λ w n h. h;
    drawn = λ w n h. h;
    create_event-Keeps = create_event-Stays;
  }

  pub Stays-IsFramed : (env : Env) → IsFramed env (Stays i item)
  Stays-IsFramed env = record {
    events = Stays-IsEventFramed env;
    measures = λ w ms h. h;
    event = λ w e h. h;
    attempted = λ w n h. h;
    failing = λ w e h. h;
    transition_to-Keeps = transition_to-Stays env;
    store_new-Keeps = store_new-Stays;
    save_item-Keeps = save_item-Stays;
  }

  pub Stays-IsRunFramed : (env : Env) → IsRunFramed env (Stays i item)
  Stays-IsRunFramed env = record {
    events = Stays-IsEventFramed env;
    run = λ w run same h. h;
    limiter = λ w l h. h;
    save_run-Keeps = save_run-Stays;
    measure-Keeps = λ m r. measure-Keeps env _ (Stays-IsFramed env) m;
  }

  pub process_run-Stays :
      (env : Env) (execute : WorkStage → Exec (Unit {0}))
      → ((stage : WorkStage) → Keeps (Stays i item) (execute stage))
      → (run_id : ℕ) → Keeps (Stays i item) (process_run env execute run_id)
  process_run-Stays env execute kept run_id =
      process_run-Keeps env _ (Stays-IsRunFramed env) execute
        (run_stages-Keeps env _ (Stays-IsFramed env) execute kept plan) (λ w run h. h) run_id
