-- ===== src/Witnesses/Scanning.antt =====
-- A site of two pages: the first links to the second, and the second cannot be fetched.
use mathlib.Core.List.{Perm}
use mathlib.Core.List.Perm
use geo_optimizer.Base.{
  All, Any, IsDistinct, List, [], any, arith, codes_beq, codes_eq, contains, if◌then◌else◌, length,
  map, nat_eq, none, refl, some, true, ℕ, ◌&&◌, ◌<◌, ◌==◌, ◌∷◌, ◌≡◌, ◌≤◌,
}
use geo_optimizer.Text.{Text, lit, split, occurs, decimal}
use geo_optimizer.Dict.{lookup, lookup_or, insert, has_key}
use geo_optimizer.Url.{urlparse}
use geo_optimizer.Sort.{IsSorted}
use geo_optimizer.Http.{Client}
use geo_optimizer.Models.{ExtractedPage}
use geo_optimizer.Config.{
  pg_parts, pg_url, Settings, StorageBackend, spider_extensions_set, validate_storage_config,
}
use geo_optimizer.Config.Storage.{IsUrlFor, validate_storage_config_lem}
use geo_optimizer.LinkFilter.{
  extract_same_domain_links, consider, foreign, bad_extension, path_suffix, non_content,
}
use geo_optimizer.LinkFilter.Filtered.{eligible, target, extract_same_domain_links_lem}
use geo_optimizer.Spider.{
  scanned, site, spider_scan, entry_le, scan_loop, initial, visit, scan_page, record_links,
  record_link,
}
use geo_optimizer.Spider.Depths.{Reached}
use geo_optimizer.Spider.Inlinks.{linkers}
use geo_optimizer.Spider.Coverage.{scanned_sound, scanned_complete}
use geo_optimizer.Spider.Ranking.{spider_scan-ranked}
use geo_optimizer.Canonical.{canonicalize_and_dedup, normalize_url, total_confidence}
use geo_optimizer.Canonical.Best.{ComesFrom, canonicalize_and_dedup_lem}
use geo_optimizer.Score.{score_pages}
use geo_optimizer.Score.Bounds.{score_pages-le}

abbrev first : Text
first = lit "http://h/a"

abbrev second : Text
second = lit "http://h/b"

abbrev settings : Settings
settings = record {
  storage_backend = StorageBackend.pgsql;
  db_url = none;
  pg_host = some (lit "db");
  pg_port = none;
  pg_user = some (lit "u");
  pg_password = some (lit "p");
  pg_database = some (lit "d");
  celery_broker_url = lit "redis://";
  celery_result_backend = lit "redis://";
  celery_task_acks_late = true;
  celery_task_reject_on_worker_lost = true;
  celery_broker_visibility_timeout = 3600;
  spider_max_depth = 3;
  spider_max_scan_pages = 5;
  spider_max_index_pages = 5;
  spider_include_extensions = lit ".html,";
}

abbrev join_absolute : Text → Text → Text
join_absolute base href = href

abbrev hrefs : Text → List Text
hrefs = split b' '

abbrev client : Client
client url =
    if url == first
    then some (record {
      status_code = 200;
      content_type = some (lit "text/html");
      etag = none;
      last_modified = none;
      text = second;
    })
    else none

scanned_sound_example :
    let s = scanned join_absolute hrefs client settings first in
    (length s.visited ≤ 5)
    × IsDistinct s.visited
    × ((u : Text)
        → contains u s.visited ≡ true
        → (d : ℕ) × (lookup u s.depth_map ≡ some d)
          × (d ≤ 3)
          × Reached (site join_absolute hrefs client settings first) first u d)
scanned_sound_example = scanned_sound join_absolute hrefs client settings first

seed_links : site join_absolute hrefs client settings first first ≡ some (second ∷ [])
unfolding site extract_same_domain_links consider urlparse lit contains codes_beq occurs split
    foreign bad_extension path_suffix spider_extensions_set non_content
seed_links = refl

two_visited : length (scanned join_absolute hrefs client settings first).visited ≡ 2
unfolding scanned initial scan_loop visit scan_page record_links record_link lit contains has_key
    lookup insert codes_beq site occurs extract_same_domain_links split foreign urlparse consider
    bad_extension path_suffix spider_extensions_set non_content
two_visited = refl

scanned_small : length (scanned join_absolute hrefs client settings first).visited < 5
scanned_small = omega (arith, two_visited)

second_from_seed : Reached (site join_absolute hrefs client settings first) first second 1
unfolding contains codes_beq lit
second_from_seed = Reached.follow Reached.start refl seed_links refl

scanned_complete_example :
    let s = scanned join_absolute hrefs client settings first in
    (contains second s.visited ≡ true)
    × ((p : ℕ) × (lookup second s.depth_map ≡ some p)
        × (p ≤ 1)
        × Reached (site join_absolute hrefs client settings first) first second p)
scanned_complete_example =
    scanned_complete join_absolute hrefs client settings first scanned_small second 1
      second_from_seed (omega arith)

same_order : (xs : List Text) → Perm xs xs
same_order xs = Perm.refl xs

spider_scan-ranked_example :
    let s = scanned join_absolute hrefs client settings first in
    let found = (spider_scan join_absolute hrefs client settings first (λ xs. xs) 7).0 in
    Perm (map (λ x. x.0) found) s.visited
    × IsSorted entry_le found
    × All
        (λ x.
          (x.1 ≡ linkers (site join_absolute hrefs client settings first) x.0 s.visited)
          × (x.2 ≡ lookup_or x.0 0 s.depth_map))
        found
spider_scan-ranked_example =
    spider_scan-ranked join_absolute hrefs client settings first (λ xs. xs) 7 same_order

extract_same_domain_links_example :
    let found =
      extract_same_domain_links join_absolute first
        (lit "h")
        (lit ".html" ∷ [] ∷ [])
        hrefs
        second in
    IsDistinct found
    × (contains second found
        ≡ any
            (λ href.
              eligible join_absolute first (lit "h") (lit ".html" ∷ [] ∷ []) href
              && second == target join_absolute first href)
            (hrefs second))
extract_same_domain_links_example =
    extract_same_domain_links_lem join_absolute first (lit "h") (lit ".html" ∷ [] ∷ []) hrefs second
      second

abbrev validated : Settings
validated = record settings { db_url = some (lit "postgresql://u:p@db:5432/d") }

settings_valid : validate_storage_config settings ≡ some validated
unfolding validate_storage_config lit decimal pg_parts pg_url
settings_valid = refl

validate_storage_config_example :
    IsUrlFor StorageBackend.pgsql settings.db_url validated.db_url
    × (validated.storage_backend ≡ settings.storage_backend)
    × (validate_storage_config validated ≡ some validated)
validate_storage_config_example = validate_storage_config_lem settings validated settings_valid

abbrev page : ExtractedPage
page = record {
  run_id = 1;
  url = lit "http://H/a/";
  title = some (lit "A");
  description = none;
  provenance = [];
  confidence = (lit "title", 10000) ∷ (lit "description", 0) ∷ [];
}

abbrev same_page_again : ExtractedPage
same_page_again = record page { url = first; confidence = (lit "title", 8000) ∷ [] }

canonicalize_and_dedup_example :
    let out = canonicalize_and_dedup (page ∷ same_page_again ∷ []) in
    IsDistinct (map (λ p. p.url) out)
    × All (λ best. Any (ComesFrom best.url best) (page ∷ same_page_again ∷ [])) out
    × All
        (λ p.
          Any
            (λ best.
              (best.url ≡ normalize_url p.url) × (total_confidence p ≤ total_confidence best))
            out)
        (page ∷ same_page_again ∷ [])
canonicalize_and_dedup_example = canonicalize_and_dedup_lem (page ∷ same_page_again ∷ [])

within_bounds : All (λ p. total_confidence p ≤ 20000) (page ∷ same_page_again ∷ [])
unfolding total_confidence lookup_or lit codes_beq
within_bounds = (omega arith, (omega arith, tt))

score_pages_example :
    let s = score_pages (page ∷ same_page_again ∷ []) in
    (s.coverage ≤ 10000) × (s.confidence ≤ 10000) × (s.redundancy ≤ 10000) × (s.total ≤ 10000)
score_pages_example = score_pages-le (page ∷ same_page_again ∷ []) within_bounds
