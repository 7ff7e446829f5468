-- ===== src/Generate.antt =====
-- src/crawllmer/app/indexer/workers.py: `generate_llms_txt` and `_section_name_from_url`, with
-- `LlmsTxtDocument.to_text` of src/crawllmer/domain/models.py. `HttpUrl` is a parameter.
pub mod Sections
pub mod Rendered
use geo_optimizer.Base.{
  List, Option, [], codes_eq, contains, if◌then◌else◌, is_empty, length, map, nat_eq, none, not,
  some, ℕ, ◌&&◌, ◌++◌, ◌==◌, ◌∷◌,
}
use geo_optimizer.Text.{
  Text, lit, lower, strip, strip_char, split, join, rpartition, occurs, decimal, title,
  replace_char, text_lt,
}
use geo_optimizer.Dict.{Dict, lookup_or, insert, keys}
use geo_optimizer.Sort.{sort_by}
use geo_optimizer.Url.{urlparse}
use geo_optimizer.Http.{truthy, or_empty}
use geo_optimizer.Models.{ExtractedPage}

abbrev skip_prefixes : List Text
skip_prefixes = lit "raw" ∷ lit "assets" ∷ lit "static" ∷ lit "_next" ∷ lit "_nuxt" ∷ lit "__" ∷ []

unfoldable pub head_or : Text → List Text → Text
head_or s [] = s
head_or s (t ∷ ts) = t

-- `first_segment.rsplit(".", 1)[0] if "." in first_segment else first_segment`
unfoldable pub without_extension : Text → Text
unfolding rpartition
without_extension segment = elim (rpartition b'.' segment) [
  | none ↦ segment
  | some (stem, extension) ↦ stem
]

-- `_section_name_from_url`
unfoldable pub section_name_from_url : Text → Text → Option Text
unfolding strip_char split lower title replace_char
section_name_from_url url hostname =
    let parsed = urlparse url in
    let path = strip_char b'/' parsed.path in
    let first_segment = head_or [] (split b'/' path) in
    if not (is_empty parsed.netloc) && not (parsed.netloc == hostname)
    then some (lit "External")
    else if is_empty path
    then some (lit "Home")
    else if contains (lower first_segment) skip_prefixes
    then none
    else some
        (title (replace_char b'_' b' ' (replace_char b'-' b' ' (without_extension first_segment))))

pub record LlmsTxtEntry : Type 0 where
  pub title : Text
  pub url : Text
  pub description : Option Text

abbrev pub Sections : Type 0
Sections = Dict Text (List LlmsTxtEntry)

pub record LlmsTxtDocument : Type 0 where
  pub title : Text
  pub site_description : Option Text
  pub generated_at : Text
  pub pages_crawled : ℕ
  pub links_discovered : ℕ
  pub sections : Sections

-- `a or b` of texts.
unfoldable pub or_text : Option Text → Text → Text
or_text a b = if truthy a then or_empty a else b

unfoldable pub entry_at : ExtractedPage → Text → LlmsTxtEntry
entry_at page url = record {
  title = or_text page.title page.url;
  url = url;
  description = page.description;
}

-- `sections.setdefault(section, []).append(entry)`, for a section that is not left out.
unfoldable pub add_entry : Option Text → LlmsTxtEntry → Sections → Sections
add_entry none entry sections = sections
add_entry (some section) entry sections =
    insert section (lookup_or section [] sections ++ entry ∷ []) sections

-- The loop over the pages; `none` is a URL that `HttpUrl` refuses.
unfoldable pub group_pages :
    (Text → Option Text) → Text → List ExtractedPage → Sections → Option Sections
group_pages http_url hostname [] sections = some sections
group_pages http_url hostname (page ∷ pages) sections = elim (http_url page.url) [
  | none ↦ none
  | some url ↦
      group_pages http_url hostname pages
        (add_entry (section_name_from_url page.url hostname) (entry_at page url) sections)
]

entry_line : LlmsTxtEntry → Text
entry_line entry =
    lit "- ["
    ++ (entry.title
        ++ (lit "]("
            ++ (entry.url
                ++ (lit ")"
                    ++ (if truthy entry.description
                        then lit ": " ++ or_empty entry.description
                        else [])))))

-- `sorted(entries, key=lambda item: str(item.url))`
unfoldable pub sorted_entries : List LlmsTxtEntry → List LlmsTxtEntry
unfolding text_lt
sorted_entries = sort_by (λ (a b : LlmsTxtEntry). not (text_lt b.url a.url))

section_lines : Sections → List Text
unfolding entry_line
section_lines [] = []
section_lines ((section_name, entries) ∷ sections) =
    (lit "## " ++ section_name)
    ∷ []
    ∷ (map entry_line (sorted_entries entries) ++ [] ∷ section_lines sections)

preamble : Text → Text → Text
preamble host section_list =
    lit "> This file provides a structured overview of "
    ++ (host
        ++ (lit
              " for use by large language models and AI assistants. Each section below groups related pages by topic. Links include titles and descriptions where available to help you quickly identify relevant content. The content is organised into the following sections: "
            ++ (section_list ++ lit ".")))

description_lines : Option Text → List Text
description_lines description =
    if truthy description
    then lit ">" ∷ (lit "> **Website Description**: " ++ or_empty description) ∷ []
    else []

-- `LlmsTxtDocument.to_text`, with the host of its source URL.
unfoldable pub to_text : Text → LlmsTxtDocument → Text
unfolding section_lines preamble description_lines join strip decimal
to_text host document =
    let section_names = keys document.sections in
    let section_list =
      if is_empty section_names then lit "various topics" else join (lit ", ") section_names in
    let lines =
      (lit "# " ++ or_text (some document.title) host)
      ∷ []
      ∷ preamble host section_list
      ∷ lit ">"
      ∷ (lit "> - **Generated**: " ++ document.generated_at)
      ∷ (lit "> - **Pages crawled**: " ++ decimal document.pages_crawled)
      ∷ (lit "> - **Links discovered**: " ++ decimal document.links_discovered)
      ∷ (description_lines document.site_description ++ [] ∷ section_lines document.sections) in
    strip (join (lit "\n") lines) ++ lit "\n"

-- `generate_llms_txt`; `url_host` is the host of a URL that `HttpUrl` takes, and `generated_at` the
-- printed time.
unfoldable pub generate_llms_txt :
    (Text → Option Text)
    → (Text → Option Text)
    → Text
    → Text
    → List ExtractedPage
    → Option Text
    → Option Text
    → ℕ
    → Option Text
generate_llms_txt http_url url_host generated_at hostname pages site_title site_description
      links_discovered =
    elim (group_pages http_url hostname pages []) [
      | none ↦ none
      | some sections ↦ elim (url_host (lit "https://" ++ hostname)) [
        | none ↦ none
        | some host ↦ some (
            to_text host (record {
              title = or_text site_title hostname;
              site_description = site_description;
              generated_at = generated_at;
              pages_crawled = length pages;
              links_discovered = if links_discovered == 0 then length pages else links_discovered;
              sections = sections;
            }))
      ]
    ]
