-- ===== src/Discover/Tiers.antt =====
-- What discovery returns, and that sitemaps that list each other never let it return.
use geo_optimizer.Base.{
  List, Option, Option-cases, [], arith, codes_beq_iff, codes_eq, false, if◌then◌else◌, inl, inr,
  is_empty, nat_eq, none, refl, some, suc, zero, ℕ, ◌==◌, ◌∙◌, ◌∷◌, ◌≡◌, ◌⊎◌,
}
use geo_optimizer.Text.{Text, strip}
use geo_optimizer.Dict.{Dict, set_default, lookup, lookup_or, lookup-set_default}
use geo_optimizer.Models.{source_value}
use geo_optimizer.Http.{Client, Response}
use geo_optimizer.Discover.{
  Found, found, failed, returning, requested, Hint, SitemapXml, dedup, parse_sitemap, sitemap_root,
  sitemap_children, DiscoveryError, recursion_error, ◌>>=◌,
}

-- The source of the first hint for a URL.
abbrev pub first_source : Text → List Hint → Option Text
first_source u [] = none
first_source u ((url, source) ∷ hints) =
    if url == u then some (source_value source) else first_source u hints

-- The URL of a hint is kept with the source of the first hint for it; a URL without a hint is not
-- there, unless it was before.
pub lookup-dedup :
    (u : Text) (hints : List Hint) (d : Dict Text Text)
    → lookup u (dedup hints d)
      ≡ elim (lookup u d) [ none ↦ first_source u hints | some source ↦ some source ]
unfolding dedup lookup_or
lookup-dedup u [] d = elim (Option-cases (lookup u d)) [
  | inl e ↦ rw e refl
  | inr (a, e) ↦ rw e refl
]
lookup-dedup u ((url, source) ∷ hints) d =
    lookup-dedup u hints (set_default url (source_value source) d)
    ∙ ground (arith, lookup-set_default url u (source_value source) d, codes_beq_iff url u)

pub Found-cases :
    {A : Type 0} (r : Found A) → ((a : A) × (r ≡ found a)) ⊎ ((e : DiscoveryError) × (r ≡ failed e))
Found-cases (found a) = inl (a, refl)
Found-cases (failed e) = inr (e, refl)

module _ (client : Client) (from_string : Text → Option SitemapXml)
    (http_url : Text → Option Text) where
  -- If a sitemap lists itself first, no stack is deep enough to parse it.
  pub parse_sitemap-cyclic :
      (url : Text) (response : Response) (root : SitemapXml) (rest : List (Option Text))
      → client url ≡ some response
      → response.status_code ≡ 200
      → from_string response.text ≡ some root
      → root.sitemaps ≡ some url ∷ rest
      → is_empty url ≡ false
      → strip url ≡ url
      → (depth : ℕ) → parse_sitemap client from_string http_url depth url ≡ failed recursion_error
  unfolding parse_sitemap requested returning sitemap_root sitemap_children ◌>>=◌
  parse_sitemap-cyclic url response root rest c k x m n t zero = refl
  parse_sitemap-cyclic url response root rest c k x m n t (suc depth) =
      rw (c, k, x, m, n, t, parse_sitemap-cyclic url response root rest c k x m n t depth) refl
