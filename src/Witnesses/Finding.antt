-- ===== src/Witnesses/Finding.antt =====
-- A sitemap of one page, a sitemap that lists itself, and the extraction of two pages of which the
-- second is missing.
use geo_optimizer.Base.{
  All, List, Option, [], codes_beq, codes_eq, contains, if◌then◌else◌, is_some, length, map, nat_eq,
  none, refl, some, true, ◌+◌, ◌==◌, ◌↔◌, ◌∷◌, ◌≡◌, ◌≤◌,
}
use geo_optimizer.Text.{Text, lit, strip}
use geo_optimizer.Dict.{lookup}
use geo_optimizer.Http.{Client, Response}
use geo_optimizer.Models.{DiscoverySource}
use geo_optimizer.Canonical.{total_confidence}
use geo_optimizer.Discover.{
  found, failed, recursion_error, Hint, SitemapXml, dedup, parse_sitemap, requested, valid,
  returning, sitemap_root, sitemap_children, sitemap_urls, ◌>>=◌,
}
use geo_optimizer.Discover.Tiers.{first_source, lookup-dedup, parse_sitemap-cyclic}
use geo_optimizer.Generate.{LlmsTxtDocument, Sections, add_entry, entry_at, section_name_from_url}
use geo_optimizer.Discover.Listed.{Listed, parse_sitemap-Listed}
use geo_optimizer.Discover.Names.{Names, here, later}
use geo_optimizer.Discover.Parsable.{Parsable, sitemap, parse_sitemap-returns}
use geo_optimizer.Discover.{SitemapDocument}
use geo_optimizer.Models.{ExtractedPage}
use geo_optimizer.Extract.{
  Head, Extraction, extract_metadata, extract_title, extract_description, extract_pages,
  extract_page, request_headers, skip_page, keep_page, nothing_extracted,
}
use geo_optimizer.Extract.Sources.{IsGraded, extract_title-IsGraded}
use geo_optimizer.Extract.Pages.{
  page_urls, all_answered, extract_metadata_lem, extract_metadata_returns,
}

abbrev answer_ok : Response
answer_ok = record {
  status_code = 200;
  content_type = none;
  etag = none;
  last_modified = none;
  text = [];
}

abbrev always : Client
always url = some answer_ok

abbrev any_url : Text → Option Text
any_url url = some url

abbrev of_one_page : SitemapXml
of_one_page = record { sitemaps = []; urls = some (97 ∷ []) ∷ [] }

abbrev of_itself : SitemapXml
of_itself = record { sitemaps = some (115 ∷ []) ∷ []; urls = [] }

strip_s : strip (115 ∷ []) ≡ 115 ∷ []
unfolding strip
strip_s = refl

parse_sitemap-cyclic_example :
    parse_sitemap always (λ text. some of_itself) any_url 1000 (115 ∷ []) ≡ failed recursion_error
parse_sitemap-cyclic_example =
    parse_sitemap-cyclic always (λ text. some of_itself) any_url (115 ∷ []) answer_ok of_itself []
      refl refl refl refl refl strip_s 1000

one_page_parsed :
    parse_sitemap always (λ text. some of_one_page) any_url 1 (115 ∷ [])
    ≡ found (record { urls = (97 ∷ []) ∷ []; children = [] })
unfolding parse_sitemap requested valid returning sitemap_root sitemap_children sitemap_urls ◌>>=◌
    strip
one_page_parsed = refl

abbrev only_page : Text
only_page = 97 ∷ []

parse_sitemap-Listed_example :
    (contains only_page (only_page ∷ []) ≡ true)
    ↔ Listed always (λ text. some of_one_page) any_url (115 ∷ []) (97 ∷ [])
parse_sitemap-Listed_example =
    parse_sitemap-Listed always (λ text. some of_one_page) any_url 1 (97 ∷ []) (115 ∷ [])
      (record { urls = (97 ∷ []) ∷ []; children = [] }) one_page_parsed

-- A sitemap that lists the one of one page.
abbrev of_one_sitemap : SitemapXml
of_one_sitemap = record { sitemaps = some (115 ∷ []) ∷ []; urls = [] }

abbrev answer_child : Response
answer_child = record answer_ok { text = 99 ∷ [] }

abbrev answer_by_url : Client
answer_by_url [] = some answer_ok
answer_by_url (c ∷ url) = some answer_child

abbrev read_xml : Text → Option SitemapXml
read_xml [] = some of_one_sitemap
read_xml (c ∷ text) = some of_one_page

any_page : (name : Text) → Names name of_one_page.urls → (u : Text) × (any_url name ≡ some u)
any_page name names = (name, refl)

no_sitemap :
    (name : Text) → Names name of_one_page.sitemaps → Parsable answer_by_url read_xml any_url 0 name
no_sitemap name names = elim names [ ]

child-Parsable :
    (name : Text)
    → Names name (some (115 ∷ []) ∷ [])
    → Parsable answer_by_url read_xml any_url 1 name
child-Parsable _ (here _ _ _) =
    rw strip_s
      (sitemap 0 (115 ∷ []) of_one_page (answer_child, refl, refl, refl) any_page no_sitemap)
child-Parsable _ (later name _ _ names) = elim names [ ]

parse_sitemap-returns_example :
    (document : SitemapDocument) × (parse_sitemap answer_by_url read_xml any_url (2 + 7) []
      ≡ found document)
parse_sitemap-returns_example = parse_sitemap-returns answer_by_url read_xml any_url 2 7 [] (
    sitemap 1 [] of_one_sitemap (answer_ok, refl, refl, refl) (λ name names. (name, refl))
      child-Parsable)

abbrev hints : List Hint
hints = (97 ∷ [], DiscoverySource.robots) ∷ (97 ∷ [], DiscoverySource.sitemap) ∷ []

lookup-dedup_example : lookup (97 ∷ []) (dedup hints []) ≡ first_source (97 ∷ []) hints
unfolding lookup
lookup-dedup_example = lookup-dedup (97 ∷ []) hints []

abbrev head : Head
head = record { title_string = some (lit "A"); find_meta = λ attribute value. none; scripts = [] }

extract_title-IsGraded_example : IsGraded (extract_title head) × IsGraded (extract_description head)
extract_title-IsGraded_example = extract_title-IsGraded head

-- The server knows the first page only.
abbrev get : Text → List (Text × Text) → Option Response
get url headers =
    if url == 97 ∷ [] then some answer_ok else some (record answer_ok { status_code = 404 })

abbrev wanted : List (Text × Text)
wanted = (97 ∷ [], []) ∷ (98 ∷ [], []) ∷ []

abbrev extracted : Option Extraction
extracted = extract_metadata (λ n. n) (λ text. head) 1 get [] wanted 0

extraction_returns : is_some extracted ≡ true
unfolding extract_metadata extract_pages extract_page request_headers lookup codes_beq
extraction_returns = refl

extract_metadata_returns_example :
    is_some (extract_metadata (λ n. n) (λ text. head) 1 get [] wanted 0)
    ≡ all_answered (λ n. n) (λ text. head) 1 get [] wanted
extract_metadata_returns_example =
    extract_metadata_returns (λ n. n) (λ text. head) 1 get [] wanted 0

abbrev result : Extraction
result =
    skip_page (λ n. n) (λ text. head) 1 (98 ∷ []) (lit "http_error") 404
      (keep_page (λ n. n) (λ text. head) 1 (97 ∷ []) [] answer_ok (nothing_extracted 0))

extracted_result : extract_metadata (λ n. n) (λ text. head) 1 get [] wanted 0 ≡ some result
unfolding extract_metadata extract_pages extract_page request_headers lookup codes_beq
extracted_result = refl

extract_metadata_example :
    (map (λ p. p.url) result.pages ≡ page_urls (λ n. n) (λ text. head) 1 get [] wanted)
    × (length result.events ≡ length wanted)
    × All (λ p. total_confidence p ≤ 20000) result.pages
extract_metadata_example =
    extract_metadata_lem (λ n. n) (λ text. head) 1 get [] wanted 0 result extracted_result

abbrev page : ExtractedPage
page = record {
  run_id = 1;
  url = lit "http://h/a";
  title = none;
  description = none;
  provenance = [];
  confidence = [];
}

abbrev raw_page : ExtractedPage
raw_page = record {
  run_id = 1;
  url = lit "https://h/raw/x";
  title = none;
  description = none;
  provenance = [];
  confidence = [];
}

abbrev grouped : Sections
grouped = add_entry (section_name_from_url page.url (lit "h")) (entry_at page page.url) []

abbrev of_two_pages : LlmsTxtDocument
of_two_pages = record {
  title = lit "h";
  site_description = none;
  generated_at = lit "now";
  pages_crawled = 2;
  links_discovered = 2;
  sections = grouped;
}
