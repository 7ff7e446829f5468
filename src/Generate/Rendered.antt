-- ===== src/Generate/Rendered.antt =====
-- The sections of the text that `generate_llms_txt` gives.
use mathlib.Core.List.{Perm}
use geo_optimizer.Base.{
  Bool, List, Option, [], codes_eq, contains, is_empty, map, nat_eq, none, not, some, ◌&&◌, ◌++◌,
  ◌==◌, ◌||◌, ◌∷◌, ◌≡◌,
}
use geo_optimizer.Text.{Text, lit, lower, strip, strip_char, split, join, text_lt}
use geo_optimizer.Sort.{IsSorted}
use geo_optimizer.Url.{urlparse}
use geo_optimizer.Models.{ExtractedPage}
use geo_optimizer.Generate.{LlmsTxtEntry, Sections, head_or}

-- The prefixes of paths that do not belong into the text.
abbrev pub excluded_prefixes : List Text
excluded_prefixes =
    lit "raw" ∷ lit "assets" ∷ lit "static" ∷ lit "_next" ∷ lit "_nuxt" ∷ lit "__" ∷ []

-- Whether a page of the site itself stands under such a prefix.
abbrev pub is_excluded : Text → ExtractedPage → Bool
is_excluded hostname page =
    let parsed = urlparse page.url in
    (is_empty parsed.netloc || parsed.netloc == hostname)
    && contains (lower (head_or [] (split b'/' (strip_char b'/' parsed.path)))) excluded_prefixes

abbrev pub url_le : LlmsTxtEntry → LlmsTxtEntry → Bool
url_le a b = not (text_lt b.url a.url)

abbrev pub described : Option Text → Text
described none = []
described (some []) = []
described (some (c ∷ description)) = lit ": " ++ c ∷ description

-- The line of an entry.
abbrev pub line_of : LlmsTxtEntry → Text
line_of entry =
    lit "- ["
    ++ (entry.title ++ (lit "](" ++ (entry.url ++ (lit ")" ++ described entry.description))))

-- Each section is a heading, an empty line, the lines of its entries by rising URL, and another
-- empty line.
pub data Rendered : Sections → List Text → Type 0 where
  finished : Rendered [] []
  section :
      (name : Text) (entries ordered : List LlmsTxtEntry) (sections : Sections) (rest : List Text)
      → Perm ordered entries
      → IsSorted url_le ordered
      → Rendered sections rest
      → Rendered
          ((name, entries) ∷ sections)
          ((lit "## " ++ name) ∷ [] ∷ (map line_of ordered ++ [] ∷ rest))

-- The text: some opening lines, then the lines of the sections.
abbrev pub IsTextOf : Sections → Text → Type 0
IsTextOf sections text =
    (opening : List Text) × (rest : List Text) × Rendered sections rest
    × (text ≡ strip (join (lit "\n") (opening ++ rest)) ++ lit "\n")
