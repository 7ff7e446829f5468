-- ===== src/Canonical.antt =====
-- src/crawllmer/app/indexer/workers.py: `canonicalize_and_dedup` and `_normalize_url`.
pub mod Best
use geo_optimizer.Base.{
  Bool, List, [], codes_beq, codes_eq, false, if◌then◌else◌, is_empty, ltb, nat_eq, none, not, refl,
  some, ℕ, ◌&&◌, ◌++◌, ◌+◌, ◌==◌, ◌∷◌, ◌≡◌,
}
use geo_optimizer.Text.{Text, lit, lower}
use geo_optimizer.Dict.{Dict, lookup, lookup_or, insert, values}
use geo_optimizer.Url.{urlparse}
use geo_optimizer.Models.{ExtractedPage}

-- `path[:-1]` and `path.endswith("c")`
unfoldable pub drop_last : Text → Text
drop_last [] = []
drop_last (c ∷ []) = []
drop_last (c ∷ d ∷ s) = c ∷ drop_last (d ∷ s)

unfoldable pub ends_with_char : ℕ → Text → Bool
ends_with_char k [] = false
ends_with_char k (c ∷ []) = c == k
ends_with_char k (c ∷ d ∷ s) = ends_with_char k (d ∷ s)

unfoldable pub normalize_url : Text → Text
unfolding lower drop_last ends_with_char
normalize_url url =
    let parsed = urlparse url in
    let path = if is_empty parsed.path then lit "/" else parsed.path in
    let trimmed =
      if not (path == lit "/") && ends_with_char b'/' path then drop_last path else path in
    lower (parsed.scheme ++ (lit "://" ++ (parsed.netloc ++ trimmed)))

-- `page.confidence.get("title", 0) + page.confidence.get("description", 0)`
unfoldable pub total_confidence : ExtractedPage → ℕ
total_confidence page =
    lookup_or (lit "title") 0 page.confidence + lookup_or (lit "description") 0 page.confidence

abbrev pub at_url : Text → ExtractedPage → ExtractedPage
at_url url page = record page { url = url }

-- One round of the loop.
unfoldable pub add_page : Dict Text ExtractedPage → ExtractedPage → Dict Text ExtractedPage
add_page canonical page =
    let normalized = normalize_url page.url in
    elim (lookup normalized canonical) [
      | none ↦ insert normalized (at_url normalized page) canonical
      | some best ↦
          if ltb (total_confidence best) (total_confidence page)
          then insert normalized (at_url normalized page) canonical
          else canonical
    ]

unfoldable pub add_pages : Dict Text ExtractedPage → List ExtractedPage → Dict Text ExtractedPage
add_pages canonical [] = canonical
add_pages canonical (page ∷ pages) = add_pages (add_page canonical page) pages

unfoldable pub canonicalize_and_dedup : List ExtractedPage → List ExtractedPage
unfolding add_pages
canonicalize_and_dedup pages = values (add_pages [] pages)

normalize_url_example :
    normalize_url (lit "HTTPS://Example.com/Docs/?page=2") ≡ lit "https://example.com/docs"
unfolding normalize_url urlparse lit codes_beq
normalize_url_example = refl
