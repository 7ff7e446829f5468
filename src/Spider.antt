-- ===== src/Spider.antt =====
-- src/crawllmer/app/indexer/spider.py: the breadth-first scan of a site.
-- The loop recurs on the pages that may still be visited and on the queue. No page is fetched
-- twice, so a client that is a function of the URL stands for any server.
pub mod Rules
pub mod Bounds
pub mod Depths
pub mod Layers
pub mod Shortest
pub mod Inlinks
pub mod Invariant
pub mod Coverage
pub mod Ranking
use geo_optimizer.Base.{
  Bool, List, Option, [], codes_eq, contains, false, if◌then◌else◌, leb, length, ltb, map, nat_beq,
  nat_eq, none, not, some, suc, true, zero, ℕ, ◌&&◌, ◌++◌, ◌+◌, ◌==◌, ◌||◌, ◌∷◌,
}
use geo_optimizer.Text.{Text, lit, occurs}
use geo_optimizer.Dict.{Dict, lookup_or, insert, has_key}
use geo_optimizer.Value.{Emission, int, str}
use geo_optimizer.Http.{Client, Response, or_empty}
use geo_optimizer.Url.{urlparse}
use geo_optimizer.Config.{Settings, spider_extensions_set}
use geo_optimizer.LinkFilter.{extract_same_domain_links}
use geo_optimizer.Sort.{sort_by}

pub record Scan : Type 0 where
  pub visited : List Text
  pub queue : List (Text × ℕ)
  pub inlink_count : Dict Text ℕ
  pub depth_map : Dict Text ℕ
  pub events : List Emission

-- The body of `for link in links`.
unfoldable pub record_link : ℕ → Scan → Text → Scan
record_link depth s link =
    let counted = record s {
      inlink_count = insert link (lookup_or link 0 s.inlink_count + 1) s.inlink_count;
    } in
    if contains link s.visited || has_key link s.depth_map then counted else record counted {
      depth_map = insert link (depth + 1) s.depth_map;
      queue = s.queue ++ (link, depth + 1) ∷ [];
    }

unfoldable pub record_links : ℕ → Scan → List Text → Scan
record_links depth s [] = s
record_links depth s (link ∷ links) = record_links depth (record_link depth s link) links

page_scanned : Text → ℕ → List Text → Scan → Scan
page_scanned url depth links s = record s {
  events =
      s.events
      ++ record {
        name = lit "spider.page_scanned";
        fields =
            (lit "url", str url)
            ∷ (lit "depth", int depth)
            ∷ (lit "links_found", int (length links))
            ∷ (lit "inlink_score", int (lookup_or url 0 s.inlink_count))
            ∷ [];
      }
        ∷ [];
}

-- What follows the fetch; no links were read if the page could not be scanned.
unfoldable pub scan_page : Text → ℕ → Scan → Option (List Text) → Scan
unfolding page_scanned
scan_page url depth s none = s
scan_page url depth s (some links) = record_links depth (page_scanned url depth links s) links

module _ (pages : Text → Option (List Text)) (max_depth : ℕ) where
  -- A round that visits a page.
  unfoldable pub visit : Text → ℕ → Scan → Scan
  visit url depth s = scan_page url depth (record s { visited = url ∷ s.visited }) (pages url)

  -- The `while` loop; `room` is `max_pages - len(visited)`.
  unfoldable pub scan_loop : ℕ → List (Text × ℕ) → Scan → Scan
  scan_loop zero queue s = s
  scan_loop (suc room) [] s = s
  scan_loop (suc room) ((url, depth) ∷ rest) s =
      elim (contains url s.visited || ltb max_depth depth) [
        | true ↦ scan_loop (suc room) rest (record s { queue = rest })
        | false ↦ let s' = visit url depth (record s { queue = rest }) in scan_loop room s'.queue s'
      ]

unfoldable pub initial : Text → Scan
initial seed_url = record {
  visited = [];
  queue = (seed_url, 0) ∷ [];
  inlink_count = [];
  depth_map = (seed_url, 0) ∷ [];
  events = [];
}

-- The links of a page, unless it could not be fetched or is not a text.
page_links : (Text → Text → List Text) → Text → Option Response → Option (List Text)
page_links links url none = none
page_links links url (some response) =
    if not (response.status_code == 200)
    then none
    else if not (occurs (lit "text/html") (or_empty response.content_type))
        && not (occurs (lit "text/plain") (or_empty response.content_type))
    then none
    else some (links url response.text)

-- The key of `sorted`: most links first, then the least depth.
abbrev pub entry_le : Text × ℕ × ℕ → Text × ℕ × ℕ → Bool
entry_le x y = ltb y.1 x.1 || nat_beq x.1 y.1 && leb x.2 y.2

abbrev pub ranked_entry : Scan → Text → Text × ℕ × ℕ
ranked_entry s u = (u, lookup_or u 0 s.inlink_count, lookup_or u 0 s.depth_map)

abbrev pub rank_le : Scan → Text → Text → Bool
rank_le s u v = entry_le (ranked_entry s u) (ranked_entry s v)

module _ (urljoin : Text → Text → Text) (hrefs : Text → List Text) (client : Client)
    (settings : Settings) (seed_url : Text) where
  unfoldable pub site : Text → Option (List Text)
  unfolding page_links
  site url =
      page_links
        (λ base html.
          extract_same_domain_links urljoin base (urlparse seed_url).netloc
            (spider_extensions_set settings) hrefs html)
        url (client url)

  abbrev pub scan_started : Emission
  scan_started = record {
    name = lit "spider.scan_started";
    fields =
        (lit "seed_url", str seed_url)
        ∷ (lit "max_depth", int settings.spider_max_depth)
        ∷ (lit "max_scan_pages", int settings.spider_max_scan_pages)
        ∷ [];
  }

  unfoldable pub scanned : Scan
  scanned =
      let start = initial seed_url in
      scan_loop site settings.spider_max_depth settings.spider_max_scan_pages ((seed_url, 0) ∷ [])
        (record start { events = scan_started ∷ [] })

  -- `elapsed` is the measured duration.
  abbrev pub scan_completed : ℕ → Scan → Emission
  scan_completed elapsed s = record {
    name = lit "spider.scan_completed";
    fields =
        (lit "pages_scanned", int (length s.visited))
        ∷ (lit "unique_links_found", int (length s.inlink_count))
        ∷ (lit "duration", int elapsed)
        ∷ [];
  }

  -- `iterate` is the order in which Python goes through a set.
  unfoldable pub spider_scan : (List Text → List Text) → ℕ → List (Text × ℕ × ℕ) × List Emission
  spider_scan iterate elapsed =
      let s = scanned in
      (
        map (ranked_entry s) (sort_by (rank_le s) (iterate s.visited)),
        s.events ++ scan_completed elapsed s ∷ [],
      )
