-- ===== src/Storage/Items.antt =====
-- What an update of a work item writes.
use mathlib.Core.List.{append-nil}
use Prim.Native.Nat.{bit_xor}
use geo_optimizer.Base.{
  List, Option, Option-cases, [], arith, codes_eq, if◌then◌else◌, inl, inr, nat_eq, none, refl,
  some, ℕ, ◌%◌, ◌++◌, ◌==◌, ◌∷◌, ◌≡◌,
}
use geo_optimizer.Dict.{lookup, has_key, lookup-insert}
use geo_optimizer.Errors.{ok}
use geo_optimizer.Models.{WorkItem, WorkItemState}
use geo_optimizer.Storage.{
  Store, WorkItemEvent, create_work_item, update_work_item, updated_item, same_state, state_event,
  write_item,
}

abbrev pub saved_item : Option WorkItem → WorkItem → WorkItem
saved_item none item = item
saved_item (some row) item = record {
  id = row.id;
  run_id = row.run_id;
  stage = row.stage;
  state = item.state;
  url = row.url;
  attempt_count = item.attempt_count;
  last_error = item.last_error;
  priority = row.priority;
  metadata = item.metadata;
  created_at = row.created_at;
  updated_at = item.updated_at;
}

-- The states in an order of their own, for a test of equality.
abbrev state_number : WorkItemState → ℕ
state_number WorkItemState.queued = 0
state_number WorkItemState.processing = 1
state_number WorkItemState.completed = 2
state_number WorkItemState.failed = 3

-- The rows for a change from the state of `row` to that of `item`.
abbrev pub changes : WorkItem → WorkItem → List WorkItemEvent
changes row item =
    if state_number row.state == state_number item.state
    then []
    else record {
      id = bit_xor item.id (item.updated_at % 1000000);
      work_item_id = item.id;
      from_state = row.state;
      to_state = item.state;
    }
      ∷ []

same_state_lem : (s t : WorkItemState) → same_state s t ≡ (state_number s == state_number t)
unfolding same_state
same_state_lem WorkItemState.queued WorkItemState.queued = refl
same_state_lem WorkItemState.queued WorkItemState.processing = refl
same_state_lem WorkItemState.queued WorkItemState.completed = refl
same_state_lem WorkItemState.queued WorkItemState.failed = refl
same_state_lem WorkItemState.processing WorkItemState.queued = refl
same_state_lem WorkItemState.processing WorkItemState.processing = refl
same_state_lem WorkItemState.processing WorkItemState.completed = refl
same_state_lem WorkItemState.processing WorkItemState.failed = refl
same_state_lem WorkItemState.completed WorkItemState.queued = refl
same_state_lem WorkItemState.completed WorkItemState.processing = refl
same_state_lem WorkItemState.completed WorkItemState.completed = refl
same_state_lem WorkItemState.completed WorkItemState.failed = refl
same_state_lem WorkItemState.failed WorkItemState.queued = refl
same_state_lem WorkItemState.failed WorkItemState.processing = refl
same_state_lem WorkItemState.failed WorkItemState.completed = refl
same_state_lem WorkItemState.failed WorkItemState.failed = refl

write_item-lem :
    (row item : WorkItem) (store store' : Store) (i : ℕ)
    → write_item row item store ≡ ok store'
    → (lookup i store'.work_items
        ≡ (if item.id == i then some (saved_item (some row) item) else lookup i store.work_items))
      × (store'.work_item_events ≡ store.work_item_events ++ changes row item)
unfolding write_item updated_item state_event
write_item-lem row item store store' i h = ground (
  arith,
  lookup-insert item.id i (saved_item (some row) item) store.work_items,
  same_state_lem row.state item.state,
  append-nil store.work_item_events,
)

-- If an update goes through, an item that was not stored reads back as it is; one that was stored
-- reads back with its state, attempts, last error, metadata and time of update, and otherwise as it
-- was stored; other items read back as before; and if the state of a stored item changes, one row
-- is added that records the item with its old and its new state.
pub update_work_item_lem :
    (item : WorkItem) (store store' : Store) (i : ℕ)
    → update_work_item item store ≡ ok store'
    → (lookup i store'.work_items ≡ (
        if item.id == i
        then some (saved_item (lookup item.id store.work_items) item)
        else lookup i store.work_items))
      × (store'.work_item_events ≡ elim (lookup item.id store.work_items) [
        | none ↦ store.work_item_events
        | some row ↦ store.work_item_events ++ changes row item
      ])
update_work_item_lem item store store' i h = elim (Option-cases (lookup item.id store.work_items)) [
  | inl e ↦
      unfold update_work_item create_work_item has_key in
      ground (arith, lookup-insert item.id i item store.work_items)
  | inr (row, e) ↦
      let facts =
        write_item-lem row item store store' i
          (unfold update_work_item in rw (e, update_work_item) at h) in
      ground (arith, facts)
]
