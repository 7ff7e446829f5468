-- ===== src/Web/Listing/Keys.antt =====
-- The buttons of the list of runs.
use mathlib.Core.List.{map-append}
use geo_optimizer.Base.{
  All, Bool, Bool-cases, IsDistinct, List, [], ap, arith, codes_beq, codes_eq, contains,
  contains-append, false, filter, inl, inr, map, nat_eq, not, refl, some, ℕ, ◌++◌, ◌∙◌, ◌∷◌, ◌≡◌,
}
use geo_optimizer.Text.{Text, lit}
use geo_optimizer.Api.{HistoryView, ItemView}
use geo_optimizer.Web.Classified.{ongoing, fetch_runs_lem}
use geo_optimizer.Web.Listing.{
  Session, Button, Entry, indicator, error, caption, refresh_button, run_entry, run_button, section,
  active_buttons, history_buttons, run_list,
}

abbrev pub buttons : List Entry → List Button
buttons [] = []
buttons (run_entry button ∷ entries) = button ∷ buttons entries
buttons (indicator html ∷ entries) = buttons entries
buttons (error text ∷ entries) = buttons entries
buttons (caption text ∷ entries) = buttons entries
buttons (refresh_button ∷ entries) = buttons entries

abbrev pub ids : List HistoryView → List Text
ids = map (λ (run : HistoryView). run.run_id)

abbrev key_of : Text → Text → Text
key_of key_prefix run_id = key_prefix ++ (b'-' ∷ run_id)

buttons-append : (xs ys : List Entry) → buttons (xs ++ ys) ≡ buttons xs ++ buttons ys
buttons-append [] ys = refl
buttons-append (run_entry button ∷ xs) ys = ap (λ bs. button ∷ bs) (buttons-append xs ys)
buttons-append (indicator html ∷ xs) ys = buttons-append xs ys
buttons-append (error text ∷ xs) ys = buttons-append xs ys
buttons-append (caption text ∷ xs) ys = buttons-append xs ys
buttons-append (refresh_button ∷ xs) ys = buttons-append xs ys

buttons-map : (bs : List Button) → buttons (map run_entry bs) ≡ bs
buttons-map [] = refl
buttons-map (b ∷ bs) = ap (λ xs. b ∷ xs) (buttons-map bs)

codes_beq-append : (p xs ys : Text) → codes_beq (p ++ xs) (p ++ ys) ≡ codes_beq xs ys
unfolding codes_beq
codes_beq-append [] xs ys = refl
codes_beq-append (c ∷ p) xs ys = ground (arith, codes_beq-append p xs ys)

contains-key_of :
    (p id : Text) (xs : List Text) → contains (key_of p id) (map (key_of p) xs) ≡ contains id xs
unfolding contains codes_beq
contains-key_of p id [] = refl
contains-key_of p id (x ∷ xs) =
    ground (arith, contains-key_of p id xs, codes_beq-append p (b'-' ∷ id) (b'-' ∷ x))

IsDistinct-key_of : (p : Text) (xs : List Text) → IsDistinct xs → IsDistinct (map (key_of p) xs)
IsDistinct-key_of p [] h = tt
IsDistinct-key_of p (x ∷ xs) (new, h) = (contains-key_of p x xs ∙ new, IsDistinct-key_of p xs h)

contains-filter :
    (p : HistoryView → Bool) (id : Text) (runs : List HistoryView)
    → contains id (ids runs) ≡ false
    → contains id (ids (filter p runs)) ≡ false
unfolding contains
contains-filter p id [] h = refl
contains-filter p id (run ∷ runs) h = ground (arith, contains-filter p id runs)

IsDistinct-filter :
    (p : HistoryView → Bool) (runs : List HistoryView)
    → IsDistinct (ids runs)
    → IsDistinct (ids (filter p runs))
IsDistinct-filter p [] h = tt
IsDistinct-filter p (run ∷ runs) (new, h) = elim (Bool-cases (p run)) [
  | inl y ↦ rw y (contains-filter p run.run_id runs new, IsDistinct-filter p runs h)
  | inr n ↦ rw n (IsDistinct-filter p runs h)
]

IsDistinct-append :
    (xs ys : List Text)
    → IsDistinct xs
    → IsDistinct ys
    → All (λ x. contains x ys ≡ false) xs
    → IsDistinct (xs ++ ys)
unfolding contains
IsDistinct-append [] ys h k apart = k
IsDistinct-append (x ∷ xs) ys (new, h) k (other, apart) =
    (ground (arith, contains-append x xs ys), IsDistinct-append xs ys h k apart)

-- No key of the one list is one of the other.
other_prefix :
    (id : Text) (xs : List Text)
    → contains (key_of (lit "active") id) (map (key_of (lit "hist")) xs) ≡ false
unfolding contains codes_beq lit
other_prefix id [] = refl
other_prefix id (x ∷ xs) = other_prefix id xs

apart_keys :
    (xs ys : List Text)
    → All (λ x. contains x (map (key_of (lit "hist")) ys) ≡ false) (map (key_of (lit "active")) xs)
apart_keys [] ys = tt
apart_keys (x ∷ xs) ys = (other_prefix x ys, apart_keys xs ys)

module _ (percent : ℕ → Text) (session : Session) (get_work_items : Text → List ItemView) where
  buttons-section :
      (title : Text) (bs : List Button) → buttons (section percent session title bs) ≡ bs
  unfolding section
  buttons-section title [] = refl
  buttons-section title (b ∷ bs) = ap (λ xs. b ∷ xs) (buttons-map bs)

  ids-active :
      (runs : List HistoryView)
      → (map (λ (b : Button). b.run_id) (active_buttons percent session get_work_items runs)
          ≡ ids runs)
        × (map (λ (b : Button). b.key) (active_buttons percent session get_work_items runs)
            ≡ map (key_of (lit "active")) (ids runs))
  unfolding active_buttons run_button
  ids-active [] = (refl, refl)
  ids-active (run ∷ runs) =
      let (same, keys) = ids-active runs in
      (ap (λ xs. run.run_id ∷ xs) same, ap (λ xs. key_of (lit "active") run.run_id ∷ xs) keys)

  ids-history :
      (runs : List HistoryView)
      → (map (λ (b : Button). b.run_id) (history_buttons percent session get_work_items runs)
          ≡ ids runs)
        × (map (λ (b : Button). b.key) (history_buttons percent session get_work_items runs)
            ≡ map (key_of (lit "hist")) (ids runs))
  unfolding history_buttons run_button
  ids-history [] = (refl, refl)
  ids-history (run ∷ runs) =
      let (same, keys) = ids-history runs in
      (ap (λ xs. run.run_id ∷ xs) same, ap (λ xs. key_of (lit "hist") run.run_id ∷ xs) keys)

  listed :
      (runs : List HistoryView) (updated_at : Text)
      → buttons (run_list percent session get_work_items (some runs) updated_at)
        ≡ active_buttons percent session get_work_items (filter ongoing runs)
          ++ history_buttons percent session get_work_items (filter (λ r. not (ongoing r)) runs)
  unfolding run_list active_buttons history_buttons
  listed runs updated_at = rw (fetch_runs_lem runs) (
      buttons-append (section percent session (lit "ACTIVE") _)
        (section percent session (lit "HISTORY") _)
      ∙ rw (buttons-section (lit "ACTIVE") _, buttons-section (lit "HISTORY") _) refl)

  -- If no two of the runs that the API lists have the same identifier, then the list has one button
  -- for each of them, first those that are queued or running and then the others, both in the order
  -- of the answer, and no two buttons have the same key.
  pub run_list-buttons :
      (runs : List HistoryView) (updated_at : Text)
      → IsDistinct (ids runs)
      → (map
            (λ (b : Button). b.run_id)
            (buttons (run_list percent session get_work_items (some runs) updated_at))
          ≡ ids (filter ongoing runs) ++ ids (filter (λ r. not (ongoing r)) runs))
        × IsDistinct (
            map
              (λ (b : Button). b.key)
              (buttons (run_list percent session get_work_items (some runs) updated_at)))
  run_list-buttons runs updated_at distinct =
      let (active, active_keys) = ids-active (filter ongoing runs) in
      let (history, history_keys) = ids-history (filter (λ r. not (ongoing r)) runs) in
      (
        rw
            (
              listed runs updated_at,
              map-append (λ (b : Button). b.run_id)
                  (active_buttons percent session get_work_items (filter ongoing runs))
                  (history_buttons percent session get_work_items
                    (filter (λ r. not (ongoing r)) runs)),
              active,
              history,
            )
            refl,
        rw
            (
              listed runs updated_at,
              map-append (λ (b : Button). b.key)
                  (active_buttons percent session get_work_items (filter ongoing runs))
                  (history_buttons percent session get_work_items
                    (filter (λ r. not (ongoing r)) runs)),
              active_keys,
              history_keys,
            )
            (IsDistinct-append _ _
              (IsDistinct-key_of (lit "active") _ (IsDistinct-filter ongoing runs distinct))
              (IsDistinct-key_of (lit "hist") _
                (IsDistinct-filter (λ r. not (ongoing r)) runs distinct))
              (apart_keys _ _)),
      )
