-- ===== src/LinkFilter/Filtered.antt =====
-- The links that the filter returns: which, and each once.
use geo_optimizer.Base.{
  Bool, IsDistinct, IsDistinct-snoc, List, [], any, arith, codes_beq_iff, codes_eq, contains,
  contains-append, is_empty, nat_eq, not, refl, ◌&&◌, ◌==◌, ◌||◌, ◌∷◌, ◌≡◌,
}
use geo_optimizer.Text.{Text, lower, before}
use geo_optimizer.Url.{urlparse}
use geo_optimizer.LinkFilter.{
  Links, consider, consider_all, extract_same_domain_links, foreign, bad_extension, non_content,
  path_suffix,
}

-- The page that a link leads to, without the fragment.
abbrev pub target : (Text → Text → Text) → Text → Text → Text
target urljoin base_url href = before b'#' (urljoin base_url href)

module _ (urljoin : Text → Text → Text) (base_url hostname : Text)
    (include_extensions : List Text) where
  -- What a link must be, apart from being new: on the host or relative, with an allowed extension,
  -- and with no segment that stands for a form or an account.
  abbrev pub eligible : Text → Bool
  eligible href =
      let parsed = urlparse (urljoin base_url href) in
      not (foreign hostname parsed)
      && (not (is_empty (target urljoin base_url href))
          && (not (bad_extension include_extensions (lower (path_suffix parsed.path)))
              && not (non_content parsed.path)))

  record Inv (state : Links) : Type 0 where
    same : (u : Text) → contains u state.seen ≡ contains u state.links
    distinct : IsDistinct state.links

  consider-IsDistinct :
      (href : Text) (state : Links)
      → Inv state
      → IsDistinct (consider urljoin base_url hostname include_extensions href state).links
  unfolding consider
  consider-IsDistinct href state inv = ground (
    arith,
    inv.same (target urljoin base_url href),
    IsDistinct-snoc state.links (target urljoin base_url href) inv.distinct,
  )

  consider-same :
      (href u : Text) (state : Links)
      → Inv state
      → contains u (consider urljoin base_url hostname include_extensions href state).seen
        ≡ contains u (consider urljoin base_url hostname include_extensions href state).links
  unfolding consider contains
  consider-same href u state inv =
      ground (arith, inv.same u, contains-append u state.links (target urljoin base_url href ∷ []))

  contains-consider :
      (href u : Text) (state : Links)
      → Inv state
      → contains u (consider urljoin base_url hostname include_extensions href state).links
        ≡ (contains u state.links || eligible href && u == target urljoin base_url href)
  unfolding consider contains
  contains-consider href u state inv = ground (
    arith,
    inv.same (target urljoin base_url href),
    codes_beq_iff u (target urljoin base_url href),
    contains-append u state.links (target urljoin base_url href ∷ []),
  )

  consider_all-lem :
      (hrefs : List Text) (u : Text) (state : Links)
      → Inv state
      → IsDistinct (consider_all urljoin base_url hostname include_extensions hrefs state).links
        × (contains u (consider_all urljoin base_url hostname include_extensions hrefs state).links
            ≡ (contains u state.links
                || any (λ href. eligible href && u == target urljoin base_url href) hrefs))
  unfolding consider_all
  consider_all-lem [] u state inv = (inv.distinct, ground arith)
  consider_all-lem (href ∷ rest) u state inv =
      let next = consider urljoin base_url hostname include_extensions href state in
      let kept : Inv next = record {
        same = λ w. consider-same href w state inv;
        distinct = consider-IsDistinct href state inv;
      } in
      let (distinct, found) = consider_all-lem rest u next kept in
      (distinct, ground (arith, found, contains-consider href u state inv))

-- The filter returns each link once, and exactly the targets of the eligible links of the page.
pub extract_same_domain_links_lem :
    (urljoin : Text → Text → Text) (base_url hostname : Text) (include_extensions : List Text)
    (hrefs : Text → List Text) (html u : Text)
    → IsDistinct (extract_same_domain_links urljoin base_url hostname include_extensions hrefs html)
      × (contains u
            (extract_same_domain_links urljoin base_url hostname include_extensions hrefs html)
          ≡ any
              (λ href.
                eligible urljoin base_url hostname include_extensions href
                && u == target urljoin base_url href)
              (hrefs html))
unfolding extract_same_domain_links contains
extract_same_domain_links_lem urljoin base_url hostname include_extensions hrefs html u =
    consider_all-lem urljoin base_url hostname include_extensions (hrefs html) u
      (record { seen = []; links = [] }) (record { same = λ w. refl; distinct = tt })
