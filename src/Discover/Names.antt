-- ===== src/Discover/Names.antt =====
-- The texts of the elements of a sitemap, and the URLs that `parse_sitemap` makes of them.
use geo_optimizer.Base.{
  Bool-cases, List, Option, Option-cases, [], arith, codes_beq_iff, codes_eq, contains, false, inl,
  inr, is_empty, nat_eq, none, refl, some, true, ◌==◌, ◌∷◌, ◌≡◌,
}
use geo_optimizer.Text.{Text, strip}
use geo_optimizer.Http.{Client}
use geo_optimizer.Discover.{found, returning, valid, SitemapXml, sitemap_urls, ◌>>=◌}
use geo_optimizer.Discover.Tiers.{Found-cases}

-- The elements have one whose text, which is not empty, is this one but for white space.
pub data Names : Text → List (Option Text) → Type 0 where
  here :
      (loc : Text) (locs : List (Option Text))
      → is_empty loc ≡ false
      → Names (strip loc) (some loc ∷ locs)
  later :
      (name : Text) (loc : Option Text) (locs : List (Option Text))
      → Names name locs
      → Names name (loc ∷ locs)

module _ (client : Client) (from_string : Text → Option SitemapXml)
    (http_url : Text → Option Text) where
  nothing_found : (urls : List Text) → returning [] ≡ found urls → [] ≡ urls
  unfolding returning
  nothing_found urls h = ground arith

  pub sitemap_urls_sound :
      (u : Text) (locs : List (Option Text)) (urls : List Text)
      → sitemap_urls client from_string http_url locs ≡ found urls
      → contains u urls ≡ true
      → (name : Text) × Names name locs × (http_url name ≡ some u)
  unfolding sitemap_urls returning valid ◌>>=◌ contains
  sitemap_urls_sound u [] urls h k = absurd (ground (arith, nothing_found urls h))
  sitemap_urls_sound u (none ∷ locs) urls h k =
      let (name, names, e) = sitemap_urls_sound u locs urls h k in
      (name, later name none locs names, e)
  sitemap_urls_sound u (some loc ∷ locs) urls h k = elim (Bool-cases (is_empty loc)) [
    | inl y ↦
        let (name, names, e) = sitemap_urls_sound u locs urls (ground arith) k in
        (name, later name (some loc) locs names, e)
    | inr n ↦ elim (Option-cases (http_url (strip loc))) [
      | inl e ↦ absurd (ground arith)
      | inr (url, e) ↦ elim (Found-cases (sitemap_urls client from_string http_url locs)) [
        | inl (rest, e') ↦
            let same : url ∷ rest ≡ urls = ground arith in
            elim (Bool-cases (u == url)) [
              | inl y ↦
                  let last : http_url (strip loc) ≡ some u = ground (arith, codes_beq_iff u url) in
                  (strip loc, here loc locs n, last)
              | inr m ↦
                  let (name, names, e'') =
                    sitemap_urls_sound u locs rest e' (ground (arith, codes_beq_iff u url)) in
                  (name, later name (some loc) locs names, e'')
            ]
        | inr (error, e') ↦ absurd (ground arith)
      ]
    ]
  ]

  pub sitemap_urls_complete :
      (u name : Text) (locs : List (Option Text)) (urls : List Text)
      → sitemap_urls client from_string http_url locs ≡ found urls
      → Names name locs
      → http_url name ≡ some u
      → contains u urls ≡ true
  unfolding sitemap_urls returning valid ◌>>=◌ contains
  sitemap_urls_complete u _ _ urls h (here loc locs n) e =
      elim (Found-cases (sitemap_urls client from_string http_url locs)) [
        | inl (rest, e') ↦
            let same : u ∷ rest ≡ urls = ground arith in
            let self = (codes_beq_iff u u).1 refl in ground (arith, self)
        | inr (error, e') ↦ absurd (ground arith)
      ]
  sitemap_urls_complete u _ _ urls h (later name none locs names) e =
      sitemap_urls_complete u name locs urls h names e
  sitemap_urls_complete u _ _ urls h (later name (some loc) locs names) e =
      elim (Bool-cases (is_empty loc)) [
        | inl y ↦ sitemap_urls_complete u name locs urls (ground arith) names e
        | inr n ↦ elim (Option-cases (http_url (strip loc))) [
          | inl x ↦ absurd (ground arith)
          | inr (url, x) ↦ elim (Found-cases (sitemap_urls client from_string http_url locs)) [
            | inl (rest, e') ↦
                let same : url ∷ rest ≡ urls = ground arith in
                let there = sitemap_urls_complete u name locs rest e' names e in ground arith
            | inr (error, e') ↦ absurd (ground arith)
          ]
        ]
      ]
