-- ===== src/Extract/Sources.antt =====
-- What the cascades over the sources of a title and of a description can give.
use geo_optimizer.Base.{
  Bool-cases, Option, arith, inl, inr, ltb, none, refl, sym, true, ℕ, ◌∙◌, ◌≡◌, ◌≤◌, ◌⊎◌,
}
use geo_optimizer.Text.{Text, lit}
use geo_optimizer.Http.{truthy}
use geo_optimizer.Extract.{
  Head, Extracted, or_else, stripped_title, meta_content, jsonld_value, extract_title,
  extract_description,
}

-- A text that is not empty with a confidence above 0 and at most 1, or nothing with none.
abbrev pub IsGraded : Extracted → Type 0
IsGraded (found, source, confidence) =
    (truthy found ≡ ltb 0 confidence)
    × ((truthy found ≡ true) ⊎ (found ≡ none))
    × (confidence ≤ 10000)

or_else-IsGraded :
    (found : Option Text) (source : Text) (confidence : ℕ) (rest : Extracted)
    → ltb 0 confidence ≡ true
    → confidence ≤ 10000
    → IsGraded rest
    → IsGraded (or_else found source confidence rest)
unfolding or_else
or_else-IsGraded found source confidence rest h k r = elim (Bool-cases (truthy found)) [
  | inl y ↦ rw y (y ∙ sym h, inl y, k)
  | inr n ↦ rw n r
]

nothing-IsGraded : IsGraded (none, lit "none", 0)
nothing-IsGraded = (refl, inr refl, omega arith)

cascade :
    (a b c d : Option Text) (p q r s : Text)
    → IsGraded (
        or_else a p 10000
          (or_else b q 8000 (or_else c r 7500 (or_else d s 6000 (none, lit "none", 0)))))
cascade a b c d p q r s = or_else-IsGraded a p 10000 _ refl (omega arith) (
    or_else-IsGraded b q 8000 _ refl (omega arith) (
      or_else-IsGraded c r 7500 _ refl (omega arith)
        (or_else-IsGraded d s 6000 _ refl (omega arith) nothing-IsGraded)))

-- The title of a page and its description are not empty when there is one; the confidence is above
-- 0 exactly then, and at most 1.
pub extract_title-IsGraded :
    (head : Head) → IsGraded (extract_title head) × IsGraded (extract_description head)
unfolding extract_title extract_description
extract_title-IsGraded head = (
  cascade (stripped_title head) (meta_content head (lit "property") (lit "og:title"))
      (meta_content head (lit "property") (lit "twitter:title"))
      (jsonld_value (lit "headline") head.scripts) (lit "title") (lit "og:title")
      (lit "twitter:title") (lit "jsonld:headline"),
  cascade (meta_content head (lit "name") (lit "description"))
      (meta_content head (lit "property") (lit "og:description"))
      (meta_content head (lit "property") (lit "twitter:description"))
      (jsonld_value (lit "description") head.scripts) (lit "meta:description")
      (lit "og:description") (lit "twitter:description") (lit "jsonld:description"),
)
