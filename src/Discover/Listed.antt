-- ===== src/Discover/Listed.antt =====
-- Which page URLs `parse_sitemap` finds, in a sitemap and in the sitemaps that it lists.
use mathlib.Core.Option.{some-injective}
use mathlib.Core.Path.{subst}
use geo_optimizer.Base.{
  Bool-cases, List, Option, Option-cases, ap, arith, codes_eq, contains, contains-append, inl, inr,
  nat_eq, some, suc, sym, true, zero, ℕ, ◌++◌, ◌==◌, ◌↔◌, ◌∙◌, ◌≡◌, ◌≢◌, ◌⊎◌,
}
use geo_optimizer.Text.{Text}
use geo_optimizer.Http.{Client, Response}
use geo_optimizer.Discover.{
  found, returning, requested, SitemapXml, SitemapDocument, no_document, parse_sitemap,
  sitemap_root, sitemap_children, sitemap_urls, ◌>>=◌,
}
use geo_optimizer.Discover.Tiers.{Found-cases}
use geo_optimizer.Discover.Names.{Names, sitemap_urls_sound, sitemap_urls_complete}
use geo_optimizer.Discover.Children.{sitemap_children_sound, sitemap_children_complete}

module _ (client : Client) (from_string : Text → Option SitemapXml)
    (http_url : Text → Option Text) where
  -- The sitemap at the URL is answered, and reads as this one.
  abbrev pub Reads : Text → SitemapXml → Type 0
  Reads url root =
      (response : Response) × (client url ≡ some response)
      × (response.status_code ≡ 200)
      × (from_string response.text ≡ some root)

  -- A page is listed in a sitemap, or in one that it lists.
  pub data Listed : Text → Text → Type 0 where
    itself :
        (url name u : Text) (root : SitemapXml)
        → Reads url root
        → Names name root.urls
        → http_url name ≡ some u
        → Listed url u
    below :
        (url name u : Text) (root : SitemapXml)
        → Reads url root
        → Names name root.sitemaps
        → Listed name u
        → Listed url u

  Reads-unique : (url : Text) (a b : SitemapXml) → Reads url a → Reads url b → a ≡ b
  Reads-unique url a b (response, c, k, x) (response', c', k', x') =
      let same : response ≡ response' = some-injective _ _ (sym c ∙ c') in
      some-injective _ _ (sym x ∙ ap (λ (r : Response). from_string r.text) same ∙ x')

  Reads-ok :
      (url : Text) (root : SitemapXml) (response : Response)
      → Reads url root
      → client url ≡ some response
      → response.status_code ≡ 200
  Reads-ok url root response (response', c', k, x) c =
      let same : response' ≡ response = some-injective _ _ (sym c' ∙ c) in
      ap (λ (r : Response). r.status_code) (sym same) ∙ k

  -- What a parse that returns has read.
  parsed-cases :
      (depth : ℕ) (url : Text) (document : SitemapDocument)
      → parse_sitemap client from_string http_url (suc depth) url ≡ found document
      → ((response : Response) × (client url ≡ some response)
          × (response.status_code ≢ 200)
          × (no_document ≡ document))
        ⊎ ((root : SitemapXml) × (before : SitemapDocument) × (urls : List Text) × Reads url root
            × (sitemap_children client from_string http_url
                  (parse_sitemap client from_string http_url depth)
                  root.sitemaps
                  no_document
                ≡ found before)
            × (sitemap_urls client from_string http_url root.urls ≡ found urls)
            × (before.urls ++ urls ≡ document.urls))
  unfolding parse_sitemap sitemap_root requested returning ◌>>=◌
  parsed-cases depth url document h = elim (Option-cases (client url)) [
    | inl e ↦ absurd (ground arith)
    | inr (response, e) ↦ elim (Bool-cases (response.status_code == 200)) [
      | inl y ↦ elim (Option-cases (from_string response.text)) [
        | inl x ↦ absurd (ground arith)
        | inr (root, x) ↦
            elim (Found-cases (
              sitemap_children client from_string http_url
                (parse_sitemap client from_string http_url depth) root.sitemaps no_document)) [
                  | inl (before, b) ↦
                      elim (Found-cases (sitemap_urls client from_string http_url root.urls)) [
                        | inl (urls, u) ↦
                            let ok : response.status_code ≡ 200 = ground arith in
                            let whole : before.urls ++ urls ≡ document.urls =
                              let same : record before { urls = before.urls ++ urls } ≡ document =
                                ground arith in
                              ap (λ (d : SitemapDocument). d.urls) same in
                            inr (root, before, urls, (response, e, ok, x), b, u, whole)
                        | inr (error, u) ↦ absurd (ground arith)
                      ]
                  | inr (error, b) ↦ absurd (ground arith)
                ]
      ]
      | inr n ↦ inl (response, e, (λ is_ok. ground arith), ground arith)
    ]
  ]

module _ (client : Client) (from_string : Text → Option SitemapXml)
    (http_url : Text → Option Text) where
  -- A parse that returns gives every page that the sitemap lists.
  complete :
      (u url : Text)
      → Listed client from_string http_url url u
      → (depth : ℕ) (document : SitemapDocument)
      → parse_sitemap client from_string http_url depth url ≡ found document
      → contains u document.urls ≡ true
  unfolding parse_sitemap
  complete u url listed zero document h = absurd (ground arith)
  complete u url (itself _ name _ root reads names e) (suc depth) document h =
      elim (parsed-cases client from_string http_url depth url document h) [
        | inl (response, c, bad, n) ↦
            absurd (bad (Reads-ok client from_string http_url url root response reads c))
        | inr (root', before, urls, reads', b, us, whole) ↦
            let same = Reads-unique client from_string http_url url root root' reads reads' in
            let there =
              sitemap_urls_complete client from_string http_url u name root'.urls urls us
                (subst (λ (r : SitemapXml). Names name r.urls) same names) e in
            ground (arith, contains-append u before.urls urls)
      ]
  complete u url (below _ name _ root reads names listed) (suc depth) document h =
      elim (parsed-cases client from_string http_url depth url document h) [
        | inl (response, c, bad, n) ↦
            absurd (bad (Reads-ok client from_string http_url url root response reads c))
        | inr (root', before, urls, reads', b, us, whole) ↦
            let same = Reads-unique client from_string http_url url root root' reads reads' in
            let there =
              sitemap_children_complete client from_string http_url
                (parse_sitemap client from_string http_url depth) u name root'.sitemaps no_document
                before b (subst (λ (r : SitemapXml). Names name r.sitemaps) same names)
                (complete u name listed depth) in
            ground (arith, contains-append u before.urls urls)
      ]

  -- A parse that returns gives no other page.
  sound :
      (depth : ℕ) (u url : Text) (document : SitemapDocument)
      → parse_sitemap client from_string http_url depth url ≡ found document
      → contains u document.urls ≡ true
      → Listed client from_string http_url url u
  unfolding parse_sitemap contains
  sound zero u url document h k = absurd (ground arith)
  sound (suc depth) u url document h k =
      elim (parsed-cases client from_string http_url depth url document h) [
        | inl (response, c, bad, n) ↦ absurd (ground arith)
        | inr (root, before, urls, reads, b, us, whole) ↦ elim (Bool-cases (contains u urls)) [
          | inl y ↦
              let (name, names, e) =
                sitemap_urls_sound client from_string http_url u root.urls urls us y in
              itself url name u root reads names e
          | inr n ↦
              let there : contains u before.urls ≡ true =
                ground (arith, contains-append u before.urls urls) in
              elim (sitemap_children_sound client from_string http_url
                (parse_sitemap client from_string http_url depth) u root.sitemaps no_document before
                b there) [
                  | inl nowhere ↦ absurd (ground arith)
                  | inr (name, child, names, finds, has) ↦
                      below url name u root reads names (sound depth u name child finds has)
                ]
        ]
      ]

  -- The URLs of a parsed sitemap, if the parse returns, are exactly the pages that it lists, in
  -- itself or in a sitemap that it lists: the text of a listed element is taken without the white
  -- space around it, as the URL that `HttpUrl` makes of it.
  pub parse_sitemap-Listed :
      (depth : ℕ) (u url : Text) (document : SitemapDocument)
      → parse_sitemap client from_string http_url depth url ≡ found document
      → (contains u document.urls ≡ true) ↔ Listed client from_string http_url url u
  parse_sitemap-Listed depth u url document h =
      (sound depth u url document h, λ listed. complete u url listed depth document h)
