-- ===== src/Spider/Coverage.antt =====
-- Which pages the scan of a site visits, against the graph of the links that the site shows.
use mathlib.Core.Path.{subst}
use geo_optimizer.Base.{
  IsDistinct, List, Option, [], arith, codes_eq, contains, inl, inr, length, nat_eq, none, refl,
  some, true, ℕ, ◌<◌, ◌∷◌, ◌≡◌, ◌≤◌, ◌⊎◌,
}
use geo_optimizer.Text.{Text}
use geo_optimizer.Dict.{lookup, lookup_or}
use geo_optimizer.Url.{urlparse}
use geo_optimizer.Http.{Client, Response}
use geo_optimizer.Config.{Settings, spider_extensions_set}
use geo_optimizer.LinkFilter.Filtered.{extract_same_domain_links_lem}
use geo_optimizer.Spider.{Scan, initial, site, scanned, page_links}
use geo_optimizer.Spider.Depths.{Reached}
use geo_optimizer.Spider.Shortest.{distance}
use geo_optimizer.Spider.Inlinks.{linkers, AreDistinct, scan_loop-CountsLinkers}
use geo_optimizer.Spider.Invariant.{Inv, scan_loop-Inv}

page_links-IsDistinct :
    (links : Text → Text → List Text) (url : Text) (response : Option Response) (found : List Text)
    → ((base html : Text) → IsDistinct (links base html))
    → page_links links url response ≡ some found
    → IsDistinct found
unfolding page_links
page_links-IsDistinct links url none found h e = cc
page_links-IsDistinct links url (some r) found h e =
    let same : links url r.text ≡ found = ground arith in subst IsDistinct same (h url r.text)

module _ (urljoin : Text → Text → Text) (hrefs : Text → List Text) (client : Client)
    (settings : Settings) (seed_url : Text) where
  abbrev pub site_pages : Text → Option (List Text)
  site_pages = site urljoin hrefs client settings seed_url

  abbrev pub final : Scan
  final = scanned urljoin hrefs client settings seed_url

  scanned-Inv :
      (left : ℕ) × Inv site_pages seed_url settings.spider_max_depth settings.spider_max_scan_pages
        left final
      × ((left ≡ 0) ⊎ (final.queue ≡ []))
  unfolding scanned initial
  scanned-Inv =
      scan_loop-Inv site_pages seed_url settings.spider_max_depth _ refl refl refl
        settings.spider_max_scan_pages

  -- The scan visits at most the allowed number of pages and none twice; each of them is reached
  -- from the seed by as many links as its recorded depth says, and no more than allowed.
  pub scanned_sound :
      (length final.visited ≤ settings.spider_max_scan_pages)
      × IsDistinct final.visited
      × ((u : Text)
          → contains u final.visited ≡ true
          → (d : ℕ) × (lookup u final.depth_map ≡ some d)
            × (d ≤ settings.spider_max_depth)
            × Reached site_pages seed_url u d)
  scanned_sound =
      let (left, h, _) = scanned-Inv in
      (
        omega (arith, h.bounded.counted),
        h.bounded.distinct,
        λ u seen.
            let (d, found, low) = h.traced.shallow u seen in
            (d, found, low, h.traced.reached u d found),
      )

  -- A scan that stops below the allowed number of pages has visited every page that some path of
  -- links, no longer than allowed, leads to from the seed; and the recorded depth of the page is
  -- the length of a shortest path.
  pub scanned_complete :
      length final.visited < settings.spider_max_scan_pages
      → (u : Text) (d : ℕ) → Reached site_pages seed_url u d
      → d ≤ settings.spider_max_depth
      → (contains u final.visited ≡ true)
        × ((p : ℕ) × (lookup u final.depth_map ≡ some p)
            × (p ≤ d)
            × Reached site_pages seed_url u p)
  scanned_complete room u d r low =
      let (left, h, ended) = scanned-Inv in
      let empty : final.queue ≡ [] = elim ended [
        | inl none_left ↦ absurd (omega (arith, h.bounded.counted))
        | inr e ↦ e
      ] in
      let (p, found, le, seen) =
        distance site_pages seed_url settings.spider_max_depth final h.layered empty h.at_seed r
          low in
      (seen, (p, found, le, h.traced.reached u p found))

  site-AreDistinct : AreDistinct site_pages
  unfolding site
  site-AreDistinct v links e =
      page_links-IsDistinct _ v (client v) links
        (λ base html.
          (extract_same_domain_links_lem urljoin base (urlparse seed_url).netloc
            (spider_extensions_set settings) hrefs html []).0)
        e

  -- The in-link count of a page is the number of visited pages that link to it.
  pub scanned_counts :
      (u : Text) → lookup_or u 0 final.inlink_count ≡ linkers site_pages u final.visited
  unfolding scanned initial
  scanned_counts =
      scan_loop-CountsLinkers site_pages settings.spider_max_depth settings.spider_max_scan_pages
        ((seed_url, 0) ∷ []) _ site-AreDistinct refl (λ u. unfold lookup_or lookup in refl)
