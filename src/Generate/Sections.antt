-- ===== src/Generate/Sections.antt =====
-- How the pages of a site are grouped into the sections of its `llms.txt`.
use mathlib.Core.List.{append-nil, append_assoc}
use geo_optimizer.Base.{
  Bool, Bool-cases, List, Option, Option-cases, [], ap, arith, codes_beq_iff, codes_eq, false,
  if◌then◌else◌, inl, inr, nat_eq, none, refl, some, sym, true, ◌++◌, ◌==◌, ◌∙◌, ◌∷◌, ◌≡◌,
}
use geo_optimizer.Text.{Text}
use geo_optimizer.Dict.{lookup_or, lookup_or-insert, lookup}
use geo_optimizer.Models.{ExtractedPage}
use geo_optimizer.Generate.{
  LlmsTxtEntry, Sections, entry_at, add_entry, group_pages, section_name_from_url,
}

-- The page belongs to the section.
abbrev pub belongs : Text → Option Text → Bool
belongs name none = false
belongs name (some section) = section == name

-- The entries of a section: those of the pages that belong to it, in order.
abbrev pub section_entries :
    (Text → Option Text) → Text → Text → List ExtractedPage → List LlmsTxtEntry
section_entries http_url hostname name [] = []
section_entries http_url hostname name (page ∷ pages) =
    let rest = section_entries http_url hostname name pages in
    elim (http_url page.url) [
      | none ↦ rest
      | some url ↦
          if belongs name (section_name_from_url page.url hostname)
          then entry_at page url ∷ rest
          else rest
    ]

lookup_or-add_entry :
    (section : Option Text) (entry : LlmsTxtEntry) (sections : Sections) (name : Text)
    → lookup_or name [] (add_entry section entry sections) ≡ (
        if belongs name section
        then lookup_or name [] sections ++ entry ∷ []
        else lookup_or name [] sections)
unfolding add_entry
lookup_or-add_entry none entry sections name = refl
lookup_or-add_entry (some section) entry sections name = ground (
  arith,
  lookup_or-insert section name (lookup_or section [] sections ++ entry ∷ []) [] sections,
  codes_beq_iff section name,
)

module _ (http_url : Text → Option Text) (hostname name : Text) (page : ExtractedPage)
    (pages : List ExtractedPage) (url : Text) (e : http_url page.url ≡ some url) where
  section_entries-belongs :
      belongs name (section_name_from_url page.url hostname) ≡ true
      → section_entries http_url hostname name (page ∷ pages)
        ≡ entry_at page url ∷ section_entries http_url hostname name pages
  section_entries-belongs y = ground arith

  section_entries-other :
      belongs name (section_name_from_url page.url hostname) ≡ false
      → section_entries http_url hostname name (page ∷ pages)
        ≡ section_entries http_url hostname name pages
  section_entries-other n = ground arith

group_pages-lookup :
    (http_url : Text → Option Text) (hostname name : Text) (pages : List ExtractedPage)
    (sections found : Sections)
    → group_pages http_url hostname pages sections ≡ some found
    → lookup_or name [] found
      ≡ lookup_or name [] sections ++ section_entries http_url hostname name pages
unfolding group_pages
group_pages-lookup http_url hostname name [] sections found h =
    let same : sections ≡ found = ground arith in
    ap (lookup_or name []) (sym same) ∙ sym (append-nil _)
group_pages-lookup http_url hostname name (page ∷ pages) sections found h =
    elim (Option-cases (http_url page.url)) [
      | inl e ↦ absurd (ground arith)
      | inr (url, e) ↦
          let section = section_name_from_url page.url hostname in
          let sections' = add_entry section (entry_at page url) sections in
          let rest =
            group_pages-lookup http_url hostname name pages sections' found (ground arith) in
          let added = lookup_or-add_entry section (entry_at page url) sections name in
          elim (Bool-cases (belongs name section)) [
            | inl y ↦
                rest
                ∙ (rw (added, y)
                    (append_assoc (lookup_or name [] sections) (entry_at page url ∷ [])
                        (section_entries http_url hostname name pages)
                      ∙ ap (λ l. lookup_or name [] sections ++ l)
                          (sym
                            (section_entries-belongs http_url hostname name page pages url e y))))
            | inr n ↦
                rest
                ∙ (rw (added, n)
                    (ap (λ l. lookup_or name [] sections ++ l)
                      (sym (section_entries-other http_url hostname name page pages url e n))))
          ]
    ]

-- Grouping that returns puts into each section exactly the entries of the pages whose URL gives
-- the section's name, in the order of the pages.
pub group_pages_lem :
    (http_url : Text → Option Text) (hostname name : Text) (pages : List ExtractedPage)
    (found : Sections)
    → group_pages http_url hostname pages [] ≡ some found
    → lookup_or name [] found ≡ section_entries http_url hostname name pages
group_pages_lem http_url hostname name pages found h =
    group_pages-lookup http_url hostname name pages [] found h ∙ unfold lookup_or lookup in refl
