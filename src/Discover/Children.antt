-- ===== src/Discover/Children.antt =====
-- The loop of `parse_sitemap` over the sitemaps that a sitemap lists.
use geo_optimizer.Base.{
  Bool-cases, List, Option, [], arith, codes_eq, contains, contains-append, inl, inr, is_empty,
  nat_eq, none, some, true, ◌++◌, ◌∷◌, ◌≡◌, ◌⊎◌,
}
use geo_optimizer.Text.{Text, strip}
use geo_optimizer.Http.{Client}
use geo_optimizer.Discover.{
  Found, found, returning, SitemapXml, SitemapDocument, sitemap_children, ◌>>=◌,
}
use geo_optimizer.Discover.Tiers.{Found-cases}
use geo_optimizer.Discover.Names.{Names, here, later}

module _ (client : Client) (from_string : Text → Option SitemapXml)
    (http_url : Text → Option Text) where
  abbrev with_child : Text → SitemapDocument → SitemapDocument → SitemapDocument
  with_child name child document = record {
    urls = document.urls ++ child.urls;
    children = document.children ++ name ∷ [];
  }

  sitemap_children_keeps :
      (parse : Text → Found SitemapDocument) (u : Text) (locs : List (Option Text))
      (start document : SitemapDocument)
      → sitemap_children client from_string http_url parse locs start ≡ found document
      → contains u start.urls ≡ true
      → contains u document.urls ≡ true
  unfolding sitemap_children returning ◌>>=◌
  sitemap_children_keeps parse u [] start document h k = ground arith
  sitemap_children_keeps parse u (none ∷ locs) start document h k =
      sitemap_children_keeps parse u locs start document h k
  sitemap_children_keeps parse u (some loc ∷ locs) start document h k =
      elim (Bool-cases (is_empty loc)) [
        | inl y ↦ sitemap_children_keeps parse u locs start document (ground arith) k
        | inr n ↦ elim (Found-cases (parse (strip loc))) [
          | inl (child, e) ↦
              sitemap_children_keeps parse u locs (with_child (strip loc) child start) document
                (ground arith) (ground (arith, contains-append u start.urls child.urls))
          | inr (error, e) ↦ absurd (ground arith)
        ]
      ]

  pub sitemap_children_sound :
      (parse : Text → Found SitemapDocument) (u : Text) (locs : List (Option Text))
      (start document : SitemapDocument)
      → sitemap_children client from_string http_url parse locs start ≡ found document
      → contains u document.urls ≡ true
      → (contains u start.urls ≡ true)
        ⊎ ((name : Text) × (child : SitemapDocument) × Names name locs
            × (parse name ≡ found child)
            × (contains u child.urls ≡ true))
  unfolding sitemap_children returning ◌>>=◌
  sitemap_children_sound parse u [] start document h k = inl (ground arith)
  sitemap_children_sound parse u (none ∷ locs) start document h k =
      elim (sitemap_children_sound parse u locs start document h k) [
        | inl there ↦ inl there
        | inr (name, child, names, finds, has) ↦
            inr (name, child, later name none locs names, finds, has)
      ]
  sitemap_children_sound parse u (some loc ∷ locs) start document h k =
      elim (Bool-cases (is_empty loc)) [
        | inl y ↦ elim (sitemap_children_sound parse u locs start document (ground arith) k) [
          | inl there ↦ inl there
          | inr (name, child, names, finds, has) ↦
              inr (name, child, later name (some loc) locs names, finds, has)
        ]
        | inr n ↦ elim (Found-cases (parse (strip loc))) [
          | inl (child, e) ↦
              elim (sitemap_children_sound parse u locs (with_child (strip loc) child start)
                document (ground arith) k) [
                  | inl there ↦ elim (Bool-cases (contains u start.urls)) [
                    | inl before ↦ inl before
                    | inr new ↦ inr (
                      strip loc,
                      child,
                      here loc locs n,
                      e,
                      ground (arith, contains-append u start.urls child.urls),
                    )
                  ]
                  | inr (name, other, names, finds, has) ↦
                      inr (name, other, later name (some loc) locs names, finds, has)
                ]
          | inr (error, e) ↦ absurd (ground arith)
        ]
      ]

  pub sitemap_children_complete :
      (parse : Text → Found SitemapDocument) (u name : Text) (locs : List (Option Text))
      (start document : SitemapDocument)
      → sitemap_children client from_string http_url parse locs start ≡ found document
      → Names name locs
      → ((child : SitemapDocument) → parse name ≡ found child → contains u child.urls ≡ true)
      → contains u document.urls ≡ true
  unfolding sitemap_children returning ◌>>=◌
  sitemap_children_complete parse u _ _ start document h (here loc locs n) k =
      elim (Found-cases (parse (strip loc))) [
        | inl (child, e) ↦
            sitemap_children_keeps parse u locs (with_child (strip loc) child start) document
              (ground arith) (ground (arith, contains-append u start.urls child.urls, k child e))
        | inr (error, e) ↦ absurd (ground arith)
      ]
  sitemap_children_complete parse u _ _ start document h (later name none locs names) k =
      sitemap_children_complete parse u name locs start document h names k
  sitemap_children_complete parse u _ _ start document h (later name (some loc) locs names) k =
      elim (Bool-cases (is_empty loc)) [
        | inl y ↦ sitemap_children_complete parse u name locs start document (ground arith) names k
        | inr n ↦ elim (Found-cases (parse (strip loc))) [
          | inl (child, e) ↦
              sitemap_children_complete parse u name locs (with_child (strip loc) child start)
                document (ground arith) names k
          | inr (error, e) ↦ absurd (ground arith)
        ]
      ]
