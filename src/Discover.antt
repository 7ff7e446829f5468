-- ===== src/Discover.antt =====
-- src/crawllmer/app/indexer/workers.py: `discover_urls` and its strategies, with the records of
-- domain/models.py that they pass around. The HTML, XML and URL libraries are parameters.
pub mod Tiers
pub mod Names
pub mod Children
pub mod Listed
pub mod Parsable
use geo_optimizer.Base.{
  Bool, List, Option, [], codes_eq, false, if◌then◌else◌, is_empty, map, nat_eq, none, not, some,
  suc, take, zero, ℕ, ◌++◌, ◌==◌, ◌∷◌,
}
use geo_optimizer.Text.{Text, lit, lower, strip, starts_with, after, decimal}
use geo_optimizer.Dict.{Dict, set_default, insert}
use geo_optimizer.Value.{Metadata, Emission, int}
use geo_optimizer.Url.{urlparse}
use geo_optimizer.Http.{Client, Response}
use geo_optimizer.Config.{Settings}
use geo_optimizer.Models.{DiscoverySource, source_value}

-- What goes wrong in discovery: a request that fails, an invalid URL, a document that is no XML,
-- or a nesting of sitemaps too deep for the stack.
pub data DiscoveryError : Type 0 where
  http_error invalid_url parse_error recursion_error : DiscoveryError

pub data Found {ℓ} (A : Type ℓ) : Type ℓ where
  found : A → Found A
  failed : DiscoveryError → Found A

module _ {A B : Type 0} where
  infixl 5 ◌>>=◌
  unfoldable pub ◌>>=◌ : Found A → (A → Found B) → Found B
  found a >>= f = f a
  failed e >>= f = failed e

unfoldable pub returning : {A : Type 0} → A → Found A
returning a = found a

unfoldable pub requested : Option Response → Found Response
requested none = failed http_error
requested (some response) = found response

unfoldable pub valid : Option Text → Found Text
valid none = failed invalid_url
valid (some url) = found url

abbrev pub Hint : Type 0
Hint = Text × DiscoverySource

pub record StrategyOutput : Type 0 where
  pub strategy_id : Text
  pub success : Bool
  pub discovered : List Hint
  pub diagnostics : Metadata

unfoldable pub unavailable : Text → ℕ → StrategyOutput
unavailable id status_code = record {
  strategy_id = id;
  success = false;
  discovered = [];
  diagnostics = (lit "status_code", int status_code) ∷ [];
}

-- What `ET.fromstring` and `findall` read of a sitemap: the text of the `loc` of each `sitemap`
-- and of each `url`, where there is one.
pub record SitemapXml : Type 0 where
  pub sitemaps : List (Option Text)
  pub urls : List (Option Text)

pub record SitemapDocument : Type 0 where
  pub urls : List Text
  pub children : List Text

abbrev pub no_document : SitemapDocument
no_document = record { urls = []; children = [] }

unfoldable pub sitemap_source : Text → Hint
sitemap_source url = (url, DiscoverySource.sitemap)

-- `_collect_discovered`
unfoldable pub collect_discovered : List StrategyOutput → List Hint
collect_discovered [] = []
collect_discovered (output ∷ outputs) = output.discovered ++ collect_discovered outputs

-- `deduped.setdefault(str(url), source.value)` for each hint.
unfoldable pub dedup : List Hint → Dict Text Text → Dict Text Text
dedup [] deduped = deduped
dedup ((url, source) ∷ hints) deduped = dedup hints (set_default url (source_value source) deduped)

module _ (client : Client) (from_string : Text → Option SitemapXml)
    (http_url : Text → Option Text) where
  -- The discovered URLs of a `StrategyOutput` become `HttpUrl`s.
  unfoldable pub validated : List Hint → Found (List Hint)
  validated [] = returning []
  validated ((url, source) ∷ hints) = do
    valid_url ← valid (http_url url)
    rest ← validated hints
    returning ((valid_url, source) ∷ rest)

  unfoldable pub output_of : Text → List Hint → Found StrategyOutput
  unfolding validated
  output_of id hints = do
    discovered ← validated hints
    returning (record {
      strategy_id = id;
      success = not (is_empty hints);
      discovered = discovered;
      diagnostics = [];
    })

  -- `SitemapUrl(loc=loc.text.strip())` for each `url`.
  unfoldable pub sitemap_urls : List (Option Text) → Found (List Text)
  unfolding strip
  sitemap_urls [] = returning []
  sitemap_urls (none ∷ locs) = sitemap_urls locs
  sitemap_urls (some loc ∷ locs) =
      let rest = sitemap_urls locs in
      if is_empty loc
      then rest
      else do url ← valid (http_url (strip loc)); urls ← rest; returning (url ∷ urls)

  -- The loop over the child sitemaps, with `parse` for the call of the function itself.
  unfoldable pub sitemap_children :
      (Text → Found SitemapDocument) → List (Option Text) → SitemapDocument → Found SitemapDocument
  unfolding strip
  sitemap_children parse [] document = returning document
  sitemap_children parse (none ∷ locs) document = sitemap_children parse locs document
  sitemap_children parse (some loc ∷ locs) document =
      let skipped = sitemap_children parse locs document in
      if is_empty loc then skipped else do
        child ← parse (strip loc)
        sitemap_children parse locs (record {
          urls = document.urls ++ child.urls;
          children = document.children ++ strip loc ∷ [];
        })

  unfoldable pub sitemap_root :
      (Text → Found SitemapDocument) → Option SitemapXml → Found SitemapDocument
  unfolding sitemap_children sitemap_urls
  sitemap_root parse none = failed parse_error
  sitemap_root parse (some root) = do
    document ← sitemap_children parse root.sitemaps no_document
    urls ← sitemap_urls root.urls
    returning (record document { urls = document.urls ++ urls })

  -- `parse_sitemap`; `depth` is how many nested calls the stack of the interpreter takes.
  unfoldable pub parse_sitemap : (depth : ℕ) → Text → Found SitemapDocument
  unfolding sitemap_root
  parse_sitemap zero sitemap_url = failed recursion_error
  parse_sitemap (suc depth) sitemap_url = do
    response ← requested (client sitemap_url)
    if not (response.status_code == 200)
        then returning no_document
        else sitemap_root (parse_sitemap depth) (from_string response.text)

  module _ (depth : ℕ) (urljoin : Text → Text → Text) (splitlines : Text → List Text)
      (link_target : Text → Option Text) where
    -- The Markdown links of the lines; `link_target` is the group of the regular expression.
    unfoldable pub llms_lines : Text → List Text → List Hint
    llms_lines base [] = []
    llms_lines base (line ∷ lines) = elim (link_target line) [
      | none ↦ llms_lines base lines
      | some target ↦ (urljoin base target, DiscoverySource.llms) ∷ llms_lines base lines
    ]

    -- `_direct_llms_strategy`
    unfoldable pub direct_llms_strategy : Text → Found StrategyOutput
    direct_llms_strategy base = do
      llms ← requested (client (base ++ lit "/llms.txt"))
      if not (llms.status_code == 200)
          then returning (unavailable (lit "direct_llms") llms.status_code)
          else output_of (lit "direct_llms") (llms_lines base (splitlines llms.text))

    -- `line.split(":", 1)[1].strip()`
    line_value : Text → Text
    unfolding after strip
    line_value line = elim (after b':' line) [ none ↦ [] | some value ↦ strip value ]

    llms_hint : Text → Text → List Hint
    unfolding line_value lower starts_with
    llms_hint base line =
        if starts_with (lit "llms:") (lower line)
        then (urljoin base (line_value line), DiscoverySource.robots) ∷ []
        else []

    sitemap_hints : Text → Found (List Hint)
    unfolding line_value lower starts_with parse_sitemap
    sitemap_hints line =
        if starts_with (lit "sitemap:") (lower line)
        then (do
          parsed ← parse_sitemap depth (line_value line)
          returning (map sitemap_source parsed.urls))
        else returning []

    unfoldable pub robots_lines : Text → List Text → Found (List Hint)
    unfolding llms_hint sitemap_hints
    robots_lines base [] = returning []
    robots_lines base (line ∷ lines) = do
      sitemaps ← sitemap_hints line
      rest ← robots_lines base lines
      returning (llms_hint base line ++ (sitemaps ++ rest))

    -- What `_robots_hints_strategy` does with the answer.
    robots_answer : Text → Response → Found StrategyOutput
    unfolding robots_lines
    robots_answer base robots =
        if not (robots.status_code == 200)
        then returning (unavailable (lit "robots_hints") robots.status_code)
        else (do
          hints ← robots_lines base (splitlines robots.text)
          output_of (lit "robots_hints") hints)

    -- `_robots_hints_strategy`
    unfoldable pub robots_hints_strategy : Text → Found StrategyOutput
    unfolding robots_answer
    robots_hints_strategy base = do
      robots ← requested (client (base ++ lit "/robots.txt"))
      robots_answer base robots

    -- `_sitemap_strategy`
    unfoldable pub sitemap_strategy : Text → Found StrategyOutput
    unfolding parse_sitemap
    sitemap_strategy base = do
      parsed ← parse_sitemap depth (base ++ lit "/sitemap.xml")
      output_of (lit "sitemap") (map sitemap_source parsed.urls)

    -- The last tier; `scan` is the ranking that `spider_scan` gives for the target.
    unfoldable pub spider_strategy : Settings → List (Text × ℕ × ℕ) → Found StrategyOutput
    spider_strategy settings scan = output_of (lit "spider") (
        map (λ (entry : Text × ℕ × ℕ). (entry.0, DiscoverySource.crawl))
          (take settings.spider_max_index_pages scan))

    -- `if not discovered:` append the output of the next tier.
    unfoldable pub or_tier :
        List StrategyOutput → Found StrategyOutput → Found (List StrategyOutput)
    or_tier outputs tier =
        if is_empty (collect_discovered outputs)
        then (do output ← tier; returning (outputs ++ output ∷ []))
        else returning outputs

    -- The tiers before the spider; `http_url` validates the target, whose scheme and host make the
    -- base of the probed URLs.
    unfoldable pub first_tiers : Text → Found (List StrategyOutput)
    first_tiers target_url = do
      target ← valid (http_url target_url)
      let base = (urlparse target).scheme ++ (lit "://" ++ (urlparse target_url).netloc)
      direct ← direct_llms_strategy base
      robots ← robots_hints_strategy base
      or_tier (direct ∷ robots ∷ []) (sitemap_strategy base)

    -- `discover_urls`
    unfoldable pub discover_urls : Settings → List (Text × ℕ × ℕ) → Text → Found (Dict Text Text)
    discover_urls settings scan target_url = do
      outputs ← first_tiers target_url
      outputs' ← or_tier outputs (spider_strategy settings scan)
      returning (dedup (collect_discovered outputs') [])
