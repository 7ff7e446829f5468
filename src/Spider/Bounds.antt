-- ===== src/Spider/Bounds.antt =====
-- How many pages the scan visits, and that it visits none twice.
use geo_optimizer.Base.{
  IsDistinct, List, Option, [], arith, codes_eq, contains, false, length, nat_eq, none, refl, some,
  suc, ℕ, ◌+◌, ◌∷◌, ◌≡◌,
}
use geo_optimizer.Text.{Text}
use geo_optimizer.Spider.{Scan, record_link, record_links, scan_page, visit}

pub visited-record_links :
    (depth : ℕ) (s : Scan) (links : List Text) → (record_links depth s links).visited ≡ s.visited
unfolding record_links record_link
visited-record_links depth s [] = refl
visited-record_links depth s (link ∷ links) =
    ground (arith, visited-record_links depth (record_link depth s link) links)

visited-scan_page :
    (url : Text) (depth : ℕ) (s : Scan) (found : Option (List Text))
    → (scan_page url depth s found).visited ≡ s.visited
unfolding scan_page
visited-scan_page url depth s none = refl
visited-scan_page url depth s (some links) = visited-record_links depth _ links

module _ (pages : Text → Option (List Text)) (max_depth : ℕ) where
  pub visited-visit :
      (url : Text) (depth : ℕ) (s : Scan)
      → (visit pages max_depth url depth s).visited ≡ url ∷ s.visited
  unfolding visit
  visited-visit url depth s =
      visited-scan_page url depth (record s { visited = url ∷ s.visited }) (pages url)

  -- `room` is what `max_pages` leaves.
  pub record IsBounded (max_pages room : ℕ) (s : Scan) : Type 0 where
    pub counted : room + length s.visited ≡ max_pages
    pub distinct : IsDistinct s.visited

  pub visit-IsBounded :
      (max_pages room : ℕ) (s : Scan) (x : Text × ℕ) (rest : List (Text × ℕ))
      → IsBounded max_pages (suc room) s
      → contains x.0 s.visited ≡ false
      → IsBounded max_pages room (visit pages max_depth x.0 x.1 (record s { queue = rest }))
  visit-IsBounded max_pages room s x rest p new =
      rw (visited-visit x.0 x.1 (record s { queue = rest }))
        (record { counted = omega (arith, p.counted); distinct = (new, p.distinct) })
