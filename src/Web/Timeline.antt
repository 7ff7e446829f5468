-- ===== src/Web/Timeline.antt =====
-- The item that the timeline shows for a stage.
use geo_optimizer.Base.{
  Bool, Bool-cases, List, Option, Option-cases, [], ap, arith, codes_beq_iff, codes_eq, false, find,
  if◌then◌else◌, inl, inr, nat_eq, none, not, refl, some, true, ◌&&◌, ◌==◌, ◌∙◌, ◌∷◌, ◌≡◌,
}
use geo_optimizer.Text.{Text, lit}
use geo_optimizer.Dict.{Dict, lookup, lookup-insert}
use geo_optimizer.Web.{Item, see, seen_items}

abbrev pub or_option : {A : Type 0} → Option A → Option A → Option A
or_option (some a) b = some a
or_option none b = b

abbrev of_stage : Text → Item → Bool
of_stage stage item = item.view.stage == stage

-- The last item of the stage that is not queued.
abbrev pub last_moved : Text → List Item → Option Item
last_moved stage [] = none
last_moved stage (item ∷ items) =
    let later = last_moved stage items in
    or_option later
      (if of_stage stage item && not (item.view.state == lit "queued") then some item else none)

lookup-see :
    (stage : Text) (seen : Dict Text Item) (item : Item)
    → lookup stage (see seen item) ≡ (
        if of_stage stage item && not (item.view.state == lit "queued")
        then some item
        else or_option (lookup stage seen) (if of_stage stage item then some item else none))
unfolding see
lookup-see stage seen item =
    let put = lookup-insert item.view.stage stage item seen in
    elim (Option-cases (lookup item.view.stage seen)) [
      | inl absent ↦ elim (Bool-cases (of_stage stage item)) [
        | inl y ↦
            let here = ap (λ s. lookup s seen) ((codes_beq_iff item.view.stage stage).0 y) in
            ground (arith, put, absent, y, here)
        | inr n ↦ ground (arith, put, absent, n)
      ]
      | inr (existing, present) ↦ elim (Bool-cases (of_stage stage item)) [
        | inl y ↦
            let here = ap (λ s. lookup s seen) ((codes_beq_iff item.view.stage stage).0 y) in
            ground (arith, put, present, y, here)
        | inr n ↦ ground (arith, put, present, n)
      ]
    ]

-- What was seen before and after a round, put together.
seen_then :
    (item : Item) (moved own : Bool) (later before after : Option Item)
    → or_option later (
        or_option
          (if moved then some item else or_option before (if own then some item else none))
          after)
      ≡ or_option
          (or_option later (if moved then some item else none))
          (or_option before (if own then some item else after))
seen_then item true own (some i) before after = refl
seen_then item false own (some i) before after = refl
seen_then item true own none before after = refl
seen_then item false true none (some b) after = refl
seen_then item false true none none after = refl
seen_then item false false none (some b) after = refl
seen_then item false false none none after = refl

seen_items_lem :
    (stage : Text) (items : List Item) (seen : Dict Text Item)
    → lookup stage (seen_items items seen)
      ≡ or_option
          (last_moved stage items)
          (or_option (lookup stage seen) (find (of_stage stage) items))
unfolding seen_items
seen_items_lem stage [] seen = ground arith
seen_items_lem stage (item ∷ items) seen =
    let step = lookup-see stage seen item in
    let rest = seen_items_lem stage items (see seen item) in
    rest
    ∙ ap (λ x. or_option (last_moved stage items) (or_option x (find (of_stage stage) items))) step
    ∙ seen_then item (of_stage stage item && not (item.view.state == lit "queued"))
        (of_stage stage item) (last_moved stage items) (lookup stage seen)
        (find (of_stage stage) items)

-- The timeline shows for a stage its last item that is not queued, or its first one if all of them
-- are.
pub lookup-seen_items :
    (stage : Text) (items : List Item)
    → lookup stage (seen_items items [])
      ≡ or_option (last_moved stage items) (find (of_stage stage) items)
lookup-seen_items stage items = seen_items_lem stage items [] ∙ unfold lookup in refl
