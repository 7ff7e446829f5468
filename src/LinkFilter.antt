-- ===== src/LinkFilter.antt =====
-- src/crawllmer/app/indexer/link_filter.py: the links of a page that the spider follows.
-- BeautifulSoup (`hrefs`, the `href` of every anchor, in order) and `urljoin` are parameters.
pub mod Filtered
use geo_optimizer.Base.{
  Bool, List, Option, [], any, codes_eq, contains, if◌then◌else◌, is_empty, nat_eq, none, not, some,
  ◌&&◌, ◌++◌, ◌==◌, ◌||◌, ◌∷◌,
}
use geo_optimizer.Text.{Text, lit, lower, strip_char, split, before, rpartition}
use geo_optimizer.Url.{urlparse, ParseResult}

abbrev pub non_content_segments : List Text
non_content_segments =
    lit "login"
    ∷ lit "logout"
    ∷ lit "signup"
    ∷ lit "register"
    ∷ lit "cart"
    ∷ lit "checkout"
    ∷ lit "admin"
    ∷ lit "wp-admin"
    ∷ lit "wp-login"
    ∷ lit "account"
    ∷ lit "search"
    ∷ []

-- `PurePosixPath(path).name`: the last component that is neither empty nor a single dot.
last_component : Text → List Text → Text
last_component found [] = found
last_component found (part ∷ parts) =
    last_component (if is_empty part || part == lit "." then found else part) parts

-- `PurePosixPath(path).suffix`: from the last dot on, unless that begins or ends the name.
suffix_from : Option (Text × Text) → Text
suffix_from none = []
suffix_from (some (stem, extension)) =
    if is_empty stem || is_empty extension then [] else b'.' ∷ extension

unfoldable pub path_suffix : Text → Text
unfolding last_component suffix_from rpartition split
path_suffix path = suffix_from (rpartition b'.' (last_component [] (split b'/' path)))

pub record Links : Type 0 where
  pub seen : List Text
  pub links : List Text

unfoldable pub foreign : Text → ParseResult → Bool
foreign hostname parsed = not (is_empty parsed.netloc) && not (parsed.netloc == hostname)

unfoldable pub bad_extension : List Text → Text → Bool
bad_extension include_extensions ext =
    not (is_empty ext) && not (contains ext include_extensions)
    || is_empty ext && not (contains [] include_extensions)

unfoldable pub non_content : Text → Bool
unfolding lower strip_char split
non_content path =
    any (λ seg. contains seg non_content_segments) (split b'/' (strip_char b'/' (lower path)))

module _ (urljoin : Text → Text → Text) (base_url hostname : Text)
    (include_extensions : List Text) where
  -- One round of the loop over the tags.
  unfoldable pub consider : Text → Links → Links
  consider href state =
      let url = urljoin base_url href in
      let parsed = urlparse url in
      let page = before b'#' url in
      let ext = lower (path_suffix parsed.path) in
      if foreign hostname parsed
      then state
      else if is_empty page
      then state
      else if contains page state.seen
      then state
      else if bad_extension include_extensions ext
      then state
      else if non_content parsed.path
      then state
      else record { seen = page ∷ state.seen; links = state.links ++ page ∷ [] }

  consider_all : List Text → Links → Links
  unfolding consider
  consider_all [] state = state
  consider_all (href ∷ rest) state = consider_all rest (consider href state)

  unfoldable pub extract_same_domain_links : (Text → List Text) → Text → List Text
  unfolding consider_all
  extract_same_domain_links hrefs html =
      (consider_all (hrefs html) (record { seen = []; links = [] })).links
