-- ===== src/Script/Submit/Posted.antt =====
-- The crawls that the script asks for, and its exit code.
use geo_optimizer.Base.{
  All, Bool, IsDistinct, List, Option, Option-cases, [], any, arith, codes_eq, contains, false,
  filter, if◌then◌else◌, inl, inr, is_empty, map, nat_eq, none, not, refl, some, ◌++◌, ◌∙◌, ◌∷◌,
  ◌≡◌, ◌⊎◌,
}
use geo_optimizer.Text.{Text, lit, starts_with}
use geo_optimizer.Dict.{Dict, lookup, has_key, keys, All-lookup}
use geo_optimizer.Script.Submit.{Site, Category, submit_selected, with_category, submit_main}

-- The arguments that are no options, or all categories if there are none.
abbrev pub chosen : Dict Text Category → List Text → List Text
chosen categories argv =
    let args = filter (λ a. not (starts_with (lit "-") a)) argv in
    if is_empty args then keys categories else args

abbrev pub urls : Category → List Text
urls cat = map (λ (s : Site). s.url) cat.sites

-- The URLs of the categories up to the first that is not known.
abbrev pub urls_known : Dict Text Category → List Text → List Text
urls_known categories [] = []
urls_known categories (k ∷ ks) =
    let rest = urls_known categories ks in
    elim (lookup k categories) [ none ↦ [] | some cat ↦ urls cat ++ rest ]

abbrev all_urls : Dict Text Category → List Text
all_urls [] = []
all_urls ((k, cat) ∷ d) = urls cat ++ all_urls d

module _ (post : Text → Option Text ⊎ Text) (categories : Dict Text Category)
    (list_only : Bool) where
  selected_lem :
      (ks : List Text)
      → ((submit_selected post categories list_only ks).code
          ≡ (if any (λ k. not (has_key k categories)) ks then 1 else 0))
        × ((submit_selected post categories list_only ks).posted
            ≡ (if list_only then [] else urls_known categories ks))
  unfolding submit_selected with_category has_key
  selected_lem [] = (refl, ground arith)
  selected_lem (k ∷ ks) =
      let (code, posted) = selected_lem ks in
      elim (Option-cases (lookup k categories)) [
        | inl e ↦ (ground arith, ground arith)
        | inr (cat, e) ↦ (ground arith, ground arith)
      ]

-- The exit code is 1 exactly if a chosen category is not known; without `--list`, the crawls that are
-- asked for are those of the sites of the chosen categories up to that one, in order, and with
-- `--list` there are none.
pub submit_main_lem :
    (post : Text → Option Text ⊎ Text) (categories : Dict Text Category) (argv : List Text)
    → ((submit_main post categories argv).code
        ≡ (if any (λ k. not (has_key k categories)) (chosen categories argv) then 1 else 0))
      × ((submit_main post categories argv).posted ≡ (
          if contains (lit "--list") argv
          then []
          else urls_known categories (chosen categories argv)))
unfolding submit_main
submit_main_lem post categories argv =
    selected_lem post categories (contains (lit "--list") argv) (chosen categories argv)

known_lem :
    (categories d : Dict Text Category)
    → All (λ p. lookup p.0 categories ≡ some p.1) d
    → (any (λ k. not (has_key k categories)) (keys d) ≡ false)
      × (urls_known categories (keys d) ≡ all_urls d)
unfolding has_key
known_lem categories [] h = (refl, refl)
known_lem categories ((k, cat) ∷ d) (h, hs) =
    let (known, rest) = known_lem categories d hs in (ground (arith, known), ground (arith, rest))

-- Without an argument, and where no two categories have the same key, the script asks for a crawl of
-- every site of every category, in order, and exits with 0.
submit_main-all_urls :
    (post : Text → Option Text ⊎ Text) (categories : Dict Text Category)
    → IsDistinct (keys categories)
    → ((submit_main post categories []).code ≡ 0)
      × ((submit_main post categories []).posted ≡ all_urls categories)
unfolding contains
submit_main-all_urls post categories distinct =
    let (code, posted) = submit_main_lem post categories [] in
    let (known, every) = known_lem categories categories (All-lookup categories distinct) in
    (code ∙ ground (arith, known), posted ∙ every)
