-- ===== src/Canonical/Best.antt =====
-- Deduplication keeps one page for each normalised URL, and one of greatest confidence.
use mathlib.Core.Path.{subst}
use native.Mathlib.Nat.{le_trans}
use geo_optimizer.Base.{
  All, All-map, Any, Bool-cases, IsDistinct, List, Option, [], ap, arith, codes_beq_iff, codes_eq,
  if◌then◌else◌, inl, inr, ltb, map, nat_eq, none, refl, some, sym, ◌==◌, ◌∷◌, ◌≡◌, ◌≤◌, ◌⊎◌,
}
use geo_optimizer.Text.{Text}
use geo_optimizer.Dict.{
  Dict, lookup, keys, values, lookup-insert, insert-IsDistinct, All-lookup, Any-lookup,
}
use geo_optimizer.Models.{ExtractedPage}
use geo_optimizer.Canonical.{
  normalize_url, total_confidence, at_url, add_page, add_pages, canonicalize_and_dedup,
}

-- A page stands for another: under its normalised URL, with no less confidence.
abbrev pub Covers : Dict Text ExtractedPage → ExtractedPage → Type 0
Covers canonical page =
    (best : ExtractedPage) × (lookup (normalize_url page.url) canonical ≡ some best)
    × (total_confidence page ≤ total_confidence best)

abbrev pub ComesFrom : Text → ExtractedPage → ExtractedPage → Type 0
ComesFrom url best page = (normalize_url page.url ≡ url) × (best ≡ at_url url page)

confidence-at_url :
    (url : Text) (page : ExtractedPage) → total_confidence (at_url url page) ≡ total_confidence page
unfolding total_confidence
confidence-at_url url page = refl

-- What stands under the normalised URL of a page after its round.
winner : Option ExtractedPage → ExtractedPage → ExtractedPage
winner none page = at_url (normalize_url page.url) page
winner (some best) page =
    if ltb (total_confidence best) (total_confidence page)
    then at_url (normalize_url page.url) page
    else best

lookup-add_page :
    (canonical : Dict Text ExtractedPage) (page : ExtractedPage) (u : Text)
    → lookup u (add_page canonical page) ≡ (
        if normalize_url page.url == u
        then some (winner (lookup (normalize_url page.url) canonical) page)
        else lookup u canonical)
unfolding add_page winner
lookup-add_page canonical page u = ground (
  arith,
  lookup-insert (normalize_url page.url) u (at_url (normalize_url page.url) page) canonical,
  codes_beq_iff (normalize_url page.url) u,
)

winner-bounds :
    (old : Option ExtractedPage) (page : ExtractedPage)
    → (total_confidence page ≤ total_confidence (winner old page))
      × ((best : ExtractedPage)
          → old ≡ some best
          → total_confidence best ≤ total_confidence (winner old page))
unfolding winner
winner-bounds none page =
    (omega (arith, confidence-at_url (normalize_url page.url) page), λ best e. cc)
winner-bounds (some b) page = (
  ground (arith, confidence-at_url (normalize_url page.url) page),
  λ best e. ground (arith, confidence-at_url (normalize_url page.url) page),
)

add_page-Covers :
    (canonical : Dict Text ExtractedPage) (page : ExtractedPage)
    → Covers (add_page canonical page) page
add_page-Covers canonical page =
    let n = normalize_url page.url in
    (
      winner (lookup n canonical) page,
      ground (arith, lookup-add_page canonical page n, codes_beq_iff n n),
      (winner-bounds (lookup n canonical) page).0,
    )

-- A page that was covered stays covered.
Covers-add_page :
    (canonical : Dict Text ExtractedPage) (page other : ExtractedPage)
    → Covers canonical other
    → Covers (add_page canonical page) other
Covers-add_page canonical page other (best, found, le) =
    let n = normalize_url page.url in
    let m = normalize_url other.url in
    elim (Bool-cases (n == m)) [
      | inl y ↦
          let same : n ≡ m = (codes_beq_iff n m).0 y in
          (
            winner (lookup n canonical) page,
            ground (arith, lookup-add_page canonical page m),
            le_trans le ((winner-bounds (lookup n canonical) page).1 best (rw same found)),
          )
      | inr k ↦ (best, ground (arith, lookup-add_page canonical page m), le)
    ]

Covers-add_pages :
    (canonical : Dict Text ExtractedPage) (pages : List ExtractedPage) (other : ExtractedPage)
    → Covers canonical other
    → Covers (add_pages canonical pages) other
unfolding add_pages
Covers-add_pages canonical [] other h = h
Covers-add_pages canonical (page ∷ pages) other h =
    Covers-add_pages (add_page canonical page) pages other (Covers-add_page canonical page other h)

add_pages-Covers :
    (canonical : Dict Text ExtractedPage) (pages : List ExtractedPage)
    → All (Covers (add_pages canonical pages)) pages
unfolding add_pages
add_pages-Covers canonical [] = tt
add_pages-Covers canonical (page ∷ pages) = (
  Covers-add_pages (add_page canonical page) pages page (add_page-Covers canonical page),
  add_pages-Covers (add_page canonical page) pages,
)

-- What is kept was there before or is one of the pages.
kept_from :
    (canonical : Dict Text ExtractedPage) (page : ExtractedPage) (u : Text) (best : ExtractedPage)
    → lookup u (add_page canonical page) ≡ some best
    → (lookup u canonical ≡ some best) ⊎ ComesFrom u best page
unfolding winner
kept_from canonical page u best found =
    ground (arith, lookup-add_page canonical page u, codes_beq_iff (normalize_url page.url) u)

add_pages-from :
    (canonical : Dict Text ExtractedPage) (pages : List ExtractedPage) (u : Text)
    (best : ExtractedPage)
    → lookup u (add_pages canonical pages) ≡ some best
    → (lookup u canonical ≡ some best) ⊎ Any (ComesFrom u best) pages
unfolding add_pages
add_pages-from canonical [] u best found = inl found
add_pages-from canonical (page ∷ pages) u best found =
    elim (add_pages-from (add_page canonical page) pages u best found) [
      | inr later ↦ inr (inr later)
      | inl now ↦ elim (kept_from canonical page u best now) [
        | inl before ↦ inl before
        | inr here ↦ inr (inl here)
      ]
    ]

from_pages :
    (pages : List ExtractedPage) (u : Text) (best : ExtractedPage)
    → lookup u (add_pages [] pages) ≡ some best
    → Any (ComesFrom u best) pages
from_pages pages u best found = elim (add_pages-from [] pages u best found) [
  | inl before ↦ absurd (unfold lookup in cc before)
  | inr h ↦ h
]

add_pages-IsDistinct :
    (canonical : Dict Text ExtractedPage) (pages : List ExtractedPage)
    → IsDistinct (keys canonical)
    → IsDistinct (keys (add_pages canonical pages))
unfolding add_pages add_page
add_pages-IsDistinct canonical [] h = h
add_pages-IsDistinct canonical (page ∷ pages) h =
    add_pages-IsDistinct (add_page canonical page) pages (
      let n = normalize_url page.url in
      ground (arith, insert-IsDistinct n (at_url n page) canonical h))

map-urls :
    (canonical : Dict Text ExtractedPage)
    → All (λ e. e.1.url ≡ e.0) canonical
    → map (λ page. page.url) (values canonical) ≡ keys canonical
map-urls [] h = refl
map-urls (e ∷ canonical) h = cc (h.0, map-urls canonical h.1)

url_of_from :
    (u : Text) (best : ExtractedPage) (pages : List ExtractedPage)
    → Any (ComesFrom u best) pages
    → best.url ≡ u
url_of_from u best [] h = elim h [ ]
url_of_from u best (page ∷ pages) (inl h) = ap (λ (q : ExtractedPage). q.url) h.1
url_of_from u best (page ∷ pages) (inr h) = url_of_from u best pages h

All-values :
    (P : ExtractedPage → Type 0) (canonical : Dict Text ExtractedPage)
    → All (λ e. P e.1) canonical
    → All P (values canonical)
All-values P [] h = tt
All-values P (e ∷ canonical) h = (h.0, All-values P canonical h.1)

-- Deduplication returns pages with distinct URLs; each is one of the given pages under its
-- normalised URL, and for each given page there is one under the normalised URL of that page
-- whose confidence is no less.
pub canonicalize_and_dedup_lem :
    (pages : List ExtractedPage)
    → let out = canonicalize_and_dedup pages in
      IsDistinct (map (λ page. page.url) out)
      × All (λ best. Any (ComesFrom best.url best) pages) out
      × All
          (λ page.
            Any
              (λ best.
                (best.url ≡ normalize_url page.url)
                × (total_confidence page ≤ total_confidence best))
              out)
          pages
unfolding canonicalize_and_dedup
canonicalize_and_dedup_lem pages =
    let canonical = add_pages [] pages in
    let distinct = add_pages-IsDistinct [] pages tt in
    let from = λ (u : Text) (best : ExtractedPage) (found : lookup u canonical ≡ some best).
      from_pages pages u best found in
    let urls : All (λ e. e.1.url ≡ e.0) canonical =
      All-map _ _ canonical (λ e found. url_of_from e.0 e.1 pages (from e.0 e.1 found))
        (All-lookup canonical distinct) in
    (
      rw (map-urls canonical urls) distinct,
      All-values _ canonical (
          All-map _ _ canonical
            (λ e found.
              let h = from e.0 e.1 found in
              subst (λ u. Any (ComesFrom u e.1) pages) (sym (url_of_from e.0 e.1 pages h)) h)
            (All-lookup canonical distinct)),
      All-map _ _ pages
          (λ page (best, found, le). Any-lookup _ (normalize_url page.url) best canonical found (
            url_of_from (normalize_url page.url) best pages
                (from (normalize_url page.url) best found),
            le,
          ))
          (add_pages-Covers [] pages),
    )
