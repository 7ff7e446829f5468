-- ===== src/Extract.antt =====
-- src/crawllmer/app/indexer/workers.py: `_extract_title`, `_extract_description` and
-- `extract_metadata`, and src/crawllmer/app/indexer/page_indexer.py. What BeautifulSoup and the
-- JSON decoder make of a page is a parameter, seen through the record `Head`.
pub mod Sources
pub mod Pages
use geo_optimizer.Base.{
  List, Option, [], codes_eq, if◌then◌else◌, is_empty, nat_eq, none, not, some, take, ℕ, ◌++◌, ◌+◌,
  ◌==◌, ◌∷◌,
}
use geo_optimizer.Text.{Text, lit, strip}
use geo_optimizer.Dict.{Dict, lookup, insert}
use geo_optimizer.Value.{Metadata, Emission, int, float, str, optional, null}
use geo_optimizer.Http.{Response, Client, truthy}
use geo_optimizer.Models.{ExtractedPage}

-- An object that `json.loads` gave: `none` is not a dictionary, and a member is `none` when it is
-- not a string.
abbrev pub JsonObject : Type 0
JsonObject = Option (Dict Text (Option Text))

-- A JSON-LD script of the head: without a text, with a text that does not parse, or with the
-- objects that were read, one or the elements of a list.
pub data Script : Type 0 where
  no_string undecodable : Script
  loaded : List JsonObject → Script

-- The head of a page, or the page itself if it has no head. `find_meta` gives the `content` of the
-- first `meta` tag with an attribute.
pub record Head : Type 0 where
  pub title_string : Option Text
  pub find_meta : (attribute value : Text) → Option (Option Text)
  pub scripts : List Script

-- `str(tag.get("content")).strip()`
stripped_content : Option Text → Option Text
unfolding strip
stripped_content none = none
stripped_content (some content) = if is_empty content then none else some (strip content)

unfoldable pub meta_content : Head → (attribute value : Text) → Option Text
unfolding stripped_content
meta_content head attribute value = elim (head.find_meta attribute value) [
  | none ↦ none
  | some tag ↦ stripped_content tag
]

string_member : Option (Option Text) → Option Text
unfolding strip
string_member none = none
string_member (some none) = none
string_member (some (some s)) = some (strip s)

member : Text → JsonObject → Option Text
unfolding string_member
member key none = none
member key (some obj) = string_member (lookup key obj)

-- `a`, or `b` when the loop goes on.
or_next : Option Text → Option Text → Option Text
or_next none b = b
or_next (some s) b = some s

first_member : Text → List JsonObject → Option Text
unfolding member or_next
first_member key [] = none
first_member key (obj ∷ values) = or_next (member key obj) (first_member key values)

script_member : Text → Script → Option Text
unfolding first_member
script_member key no_string = none
script_member key undecodable = none
script_member key (loaded values) = first_member key values

-- `_jsonld_value_from_head`
unfoldable pub jsonld_value : Text → List Script → Option Text
unfolding script_member
jsonld_value key [] = none
jsonld_value key (script ∷ scripts) = or_next (script_member key script) (jsonld_value key scripts)

-- A text or `None`, the source, and the confidence.
abbrev pub Extracted : Type 0
Extracted = Option Text × Text × ℕ

-- `if found: return found, source, confidence`, and what follows.
unfoldable pub or_else : Option Text → Text → ℕ → Extracted → Extracted
or_else found source confidence rest = if truthy found then (found, source, confidence) else rest

-- `head.title.string.strip()`
unfoldable pub stripped_title : Head → Option Text
unfolding strip
stripped_title head = elim head.title_string [ none ↦ none | some s ↦ some (strip s) ]

unfoldable pub extract_title : Head → Extracted
unfolding or_else
extract_title head = or_else (stripped_title head) (lit "title") 10000 (
    or_else (meta_content head (lit "property") (lit "og:title")) (lit "og:title") 8000 (
      or_else (meta_content head (lit "property") (lit "twitter:title")) (lit "twitter:title") 7500
        (or_else (jsonld_value (lit "headline") head.scripts) (lit "jsonld:headline") 6000
          (none, lit "none", 0))))

unfoldable pub extract_description : Head → Extracted
unfolding or_else
extract_description head =
    or_else (meta_content head (lit "name") (lit "description")) (lit "meta:description") 10000 (
      or_else (meta_content head (lit "property") (lit "og:description")) (lit "og:description")
        8000
        (or_else (meta_content head (lit "property") (lit "twitter:description"))
          (lit "twitter:description") 7500
          (or_else (jsonld_value (lit "description") head.scripts) (lit "jsonld:description") 6000
            (none, lit "none", 0))))

unfoldable pub page_of : ℕ → Text → Text → Extracted → Extracted → ExtractedPage
page_of run_id url provenance title description = record {
  run_id = run_id;
  url = url;
  title = title.0;
  description = description.0;
  provenance =
      (lit "discovery", provenance)
      ∷ (lit "title", title.1)
      ∷ (lit "description", description.1)
      ∷ [];
  confidence = (lit "title", title.2) ∷ (lit "description", description.2) ∷ [];
}

-- `index_page`
module _ (parse : Text → Head) (client : Client) where
  indexed : ℕ → Text → Text → Option Response → Option ExtractedPage
  indexed run_id url provenance none = none
  indexed run_id url provenance (some response) =
      if not (response.status_code == 200)
      then none
      else let head = parse response.text in
        some (page_of run_id url provenance (extract_title head) (extract_description head))

  unfoldable pub index_page : Text → ℕ → Text → Option ExtractedPage
  unfolding indexed
  index_page url run_id provenance = indexed run_id url provenance (client url)

-- The results of `extract_metadata`, and the events it emits; `readings` counts the readings of
-- the clock.
pub record Extraction : Type 0 where
  pub pages : List ExtractedPage
  pub new_validators : Dict Text (Option Text × Option Text)
  pub events : List Emission
  pub readings : ℕ

unfoldable pub nothing_extracted : ℕ → Extraction
nothing_extracted readings = record {
  pages = [];
  new_validators = [];
  events = [];
  readings = readings;
}

-- `headers[name] = value`, for a validator that is known.
unfoldable pub header : Text → Option Text → List (Text × Text)
header name none = []
header name (some value) = if is_empty value then [] else (name, value) ∷ []

unfoldable pub request_headers : Option (Option Text × Option Text) → List (Text × Text)
unfolding header
request_headers none = []
request_headers (some (etag, last_modified)) =
    header (lit "If-None-Match") etag ++ header (lit "If-Modified-Since") last_modified

-- `desc[:120] if desc else None`
shortened : Option Text → Option Text
shortened none = none
shortened (some s) = if is_empty s then none else some (take 120 s)

module _ (time : ℕ → ℕ) (parse : Text → Head) (run_id : ℕ) where
  unfoldable pub skip_page : Text → Text → ℕ → Extraction → Extraction
  skip_page url reason status_code s = record s {
    events =
        s.events
        ++ record {
          name = lit "extraction.page_skipped";
          fields =
              (lit "url", str url)
              ∷ (lit "reason", str reason)
              ∷ (lit "status_code", int status_code)
              ∷ (lit "started_at", int (time s.readings))
              ∷ (lit "completed_at", int (time (s.readings + 1)))
              ∷ [];
        }
          ∷ [];
    readings = s.readings + 2;
  }

  unfoldable pub keep_page : Text → Text → Response → Extraction → Extraction
  unfolding shortened
  keep_page url provenance response s =
      let (title, title_source, title_conf) = extract_title (parse response.text) in
      let (desc, desc_source, desc_conf) = extract_description (parse response.text) in
      record {
        pages =
            s.pages
            ++ page_of run_id url provenance (title, title_source, title_conf)
                (desc, desc_source, desc_conf)
              ∷ [];
        new_validators = insert url (response.etag, response.last_modified) s.new_validators;
        events =
            s.events
            ++ record {
              name = lit "extraction.page_extracted";
              fields =
                  (lit "url", str url)
                  ∷ (lit "provenance", str provenance)
                  ∷ (lit "title", optional title)
                  ∷ (lit "title_source", str title_source)
                  ∷ (lit "title_confidence", float title_conf)
                  ∷ (lit "description", optional (shortened desc))
                  ∷ (lit "description_source", str desc_source)
                  ∷ (lit "description_confidence", float desc_conf)
                  ∷ (lit "started_at", int (time s.readings))
                  ∷ (lit "completed_at", int (time (s.readings + 2)))
                  ∷ [];
            }
              ∷ [];
        readings = s.readings + 3;
      }

  -- What follows the request.
  unfoldable pub extract_page : Text → Text → Response → Extraction → Extraction
  extract_page url provenance response s =
      if response.status_code == 304
      then skip_page url (lit "not_modified") 304 s
      else if not (response.status_code == 200)
      then skip_page url (lit "http_error") response.status_code s
      else keep_page url provenance response s

  module _ (get : Text → List (Text × Text) → Option Response)
      (validators : Dict Text (Option Text × Option Text)) where
    -- The loop; `none` is an `httpx.HTTPError`, which is not caught.
    unfoldable pub extract_pages : List (Text × Text) → Extraction → Option Extraction
    extract_pages [] s = some s
    extract_pages ((url, provenance) ∷ urls) s =
        elim (get url (request_headers (lookup url validators))) [
          | none ↦ none
          | some response ↦ extract_pages urls (extract_page url provenance response s)
        ]

    unfoldable pub extract_metadata : List (Text × Text) → ℕ → Option Extraction
    extract_metadata urls readings = extract_pages urls (nothing_extracted readings)
