-- ===== src/Script/Submit.antt =====
-- scripts/submit-inttest.py: what the script prints, the crawls that it asks for, and its exit code.
-- `post url` is the answer to the request for a crawl of `url`: the status in its JSON object, if
-- it has one, or the text of the exception that is caught.
pub mod Posted
use geo_optimizer.Base.{
  Bool, List, Option, [], codes_eq, contains, filter, if◌then◌else◌, inl, inr, is_empty, map,
  nat_eq, none, not, some, ℕ, ◌++◌, ◌∷◌, ◌⊎◌,
}
use geo_optimizer.Text.{Text, lit, upper_char, join, starts_with}
use geo_optimizer.Dict.{Dict, lookup, keys}

pub record Site : Type 0 where
  pub id : Text
  pub url : Text
  pub notes : Text

-- An entry of `categories` in resources/inttest-sites.json.
pub record Category : Type 0 where
  pub name : Text
  pub sites : List Site

-- The lines that are printed, the URLs that are posted, and the exit code.
pub record Submitted : Type 0 where
  pub printed : List Text
  pub posted : List Text
  pub code : ℕ

abbrev upper : Text → Text
upper s = map upper_char s

-- `submit`
unfoldable pub submit : (Text → Option Text ⊎ Text) → Text → Text → Text
submit post url site_id =
    site_id
    ++ (lit "  "
        ++ (url
            ++ (lit "  -> " ++ elim (post url) [
              | inl (some status) ↦ status
              | inl none ↦ lit "?"
              | inr exc ↦ lit "FAILED (" ++ (exc ++ lit ")")
            ])))

module _ (post : Text → Option Text ⊎ Text) (categories : Dict Text Category)
    (list_only : Bool) where
  -- The loop over the sites of a category.
  unfoldable pub site_line : Site → Text
  unfolding submit
  site_line site =
      if list_only
      then lit "  "
        ++ (site.id ++ (lit "  " ++ (site.url ++ (lit "  (" ++ (site.notes ++ lit ")")))))
      else submit post site.url site.id

  unfoldable pub heading_line : Text → Category → Text
  heading_line cat_key cat =
      lit "=== Category " ++ (upper cat_key ++ (lit ": " ++ (cat.name ++ lit " ===")))

  abbrev unknown : Text → Submitted
  unknown cat_key = record {
    printed =
        (lit "Unknown category: " ++ cat_key)
        ∷ (lit "Available: " ++ join (lit ", ") (keys categories))
        ∷ [];
    posted = [];
    code = 1;
  }

  abbrev closing : Submitted
  closing = record {
    printed =
        if list_only
        then []
        else []
          ∷ lit "All submitted. Check status with: make crawl-status"
          ∷ lit "Verbose:                          make crawl-status ARGS=\"-v\""
          ∷ [];
    posted = [];
    code = 0;
  }

  unfoldable pub with_category : Text → Category → Submitted → Submitted
  unfolding site_line heading_line
  with_category cat_key cat rest = record {
    printed = heading_line cat_key cat ∷ (map site_line cat.sites ++ rest.printed);
    posted = (if list_only then [] else map (λ (s : Site). s.url) cat.sites) ++ rest.posted;
    code = rest.code;
  }

  -- The loop over the selected categories, and what follows it.
  unfoldable pub submit_selected : List Text → Submitted
  unfolding with_category
  submit_selected [] = closing
  submit_selected (cat_key ∷ selected) =
      let rest = submit_selected selected in
      elim (lookup cat_key categories) [
        | none ↦ unknown cat_key
        | some cat ↦ with_category cat_key cat rest
      ]

-- `main`, for the arguments behind the name of the script.
unfoldable pub submit_main :
    (Text → Option Text ⊎ Text) → Dict Text Category → List Text → Submitted
unfolding submit_selected
submit_main post categories argv =
    let args = filter (λ a. not (starts_with (lit "-") a)) argv in
    submit_selected post categories (contains (lit "--list") argv)
      (if is_empty args then keys categories else args)
