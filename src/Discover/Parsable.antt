-- ===== src/Discover/Parsable.antt =====
-- Which sitemaps `parse_sitemap` can read to the end.
use geo_optimizer.Base.{
  Bool-cases, List, Option, [], arith, codes_eq, false, inl, inr, is_empty, nat_eq, none, refl,
  some, suc, ℕ, ◌++◌, ◌+◌, ◌==◌, ◌∷◌, ◌≡◌,
}
use geo_optimizer.Text.{Text, strip}
use geo_optimizer.Http.{Client, Response}
use geo_optimizer.Discover.{
  Found, found, returning, requested, valid, SitemapXml, SitemapDocument, no_document,
  parse_sitemap, sitemap_root, sitemap_children, sitemap_urls, ◌>>=◌,
}
use geo_optimizer.Discover.Names.{Names, here, later}
use geo_optimizer.Discover.Listed.{Reads}

module _ (client : Client) (from_string : Text → Option SitemapXml)
    (http_url : Text → Option Text) where
  -- The sitemap is answered; if with 200, it can be read, `HttpUrl` takes all its pages, and the
  -- same holds of the sitemaps that it lists, over at most so many levels.
  pub data Parsable : ℕ → Text → Type 0 where
    missing :
        (levels : ℕ) (url : Text) (response : Response)
        → client url ≡ some response
        → (response.status_code == 200) ≡ false
        → Parsable (suc levels) url
    sitemap :
        (levels : ℕ) (url : Text) (root : SitemapXml)
        → Reads client from_string http_url url root
        → ((name : Text) → Names name root.urls → (u : Text) × (http_url name ≡ some u))
        → ((name : Text) → Names name root.sitemaps → Parsable levels name)
        → Parsable (suc levels) url

  sitemap_urls-returns :
      (locs : List (Option Text))
      → ((name : Text) → Names name locs → (u : Text) × (http_url name ≡ some u))
      → (urls : List Text) × (sitemap_urls client from_string http_url locs ≡ found urls)
  unfolding sitemap_urls returning valid ◌>>=◌
  sitemap_urls-returns [] k = ([], refl)
  sitemap_urls-returns (none ∷ locs) k =
      sitemap_urls-returns locs (λ name names. k name (later name none locs names))
  sitemap_urls-returns (some loc ∷ locs) k =
      let (urls, h) =
        sitemap_urls-returns locs (λ name names. k name (later name (some loc) locs names)) in
      elim (Bool-cases (is_empty loc)) [
        | inl y ↦ (urls, rw y h)
        | inr n ↦ let (u, e) = k (strip loc) (here loc locs n) in (u ∷ urls, rw (n, e, h) refl)
      ]

  sitemap_children-returns :
      (parse : Text → Found SitemapDocument) (locs : List (Option Text)) (start : SitemapDocument)
      → ((name : Text) → Names name locs → (child : SitemapDocument) × (parse name ≡ found child))
      → (document : SitemapDocument) × (sitemap_children client from_string http_url parse locs
            start
          ≡ found document)
  unfolding sitemap_children returning ◌>>=◌
  sitemap_children-returns parse [] start k = (start, refl)
  sitemap_children-returns parse (none ∷ locs) start k =
      sitemap_children-returns parse locs start (λ name names. k name (later name none locs names))
  sitemap_children-returns parse (some loc ∷ locs) start k =
      let others =
        λ (name : Text) (names : Names name locs). k name (later name (some loc) locs names) in
      elim (Bool-cases (is_empty loc)) [
        | inl y ↦
            let (document, h) = sitemap_children-returns parse locs start others in
            (document, rw y h)
        | inr n ↦
            let (child, e) = k (strip loc) (here loc locs n) in
            let (document, h) =
              sitemap_children-returns parse locs
                (record {
                  urls = start.urls ++ child.urls;
                  children = start.children ++ strip loc ∷ [];
                })
                others in
            (document, rw (n, e) h)
      ]

  -- A sitemap that is answered and readable over some number of levels is parsed, if the stack
  -- takes at least that many nested calls.
  pub parse_sitemap-returns :
      (levels more : ℕ) (url : Text)
      → Parsable levels url
      → (document : SitemapDocument) × (parse_sitemap client from_string http_url
            (levels + more)
            url
          ≡ found document)
  unfolding parse_sitemap sitemap_root requested returning ◌>>=◌
  parse_sitemap-returns _ more url (missing levels _ response c bad) =
      let next : suc levels + more ≡ suc (levels + more) = omega arith in
      (no_document, rw (next, c, bad) refl)
  parse_sitemap-returns _ more url (sitemap levels _ root (response, c, ok, x) valid_pages below) =
      let parse = parse_sitemap client from_string http_url (levels + more) in
      let (before, b) =
        sitemap_children-returns parse root.sitemaps no_document
          (λ name names. parse_sitemap-returns levels more name (below name names)) in
      let (urls, u) = sitemap_urls-returns root.urls valid_pages in
      let next : suc levels + more ≡ suc (levels + more) = omega arith in
      (record before { urls = before.urls ++ urls }, rw (next, c, ok, x, b, u) refl)
