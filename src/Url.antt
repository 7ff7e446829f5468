-- ===== src/Url.antt =====
-- `urllib.parse.urlparse`, by the steps of `urlsplit` and `_splitparams`. The errors that it raises
-- for square brackets in the host, and the removal of control characters, are not modelled.
use geo_optimizer.Base.{
  Bool, List, [], codes_beq, codes_eq, contains, false, if◌then◌else◌, leb, nat_eq, none, refl,
  some, true, ℕ, ◌&&◌, ◌==◌, ◌||◌, ◌∷◌, ◌≡◌,
}
use geo_optimizer.Text.{Text, lit, is_upper, is_lower, lower, before, after}

pub record ParseResult : Type 0 where
  pub scheme : Text
  pub netloc : Text
  pub path : Text

is_alpha : ℕ → Bool
is_alpha c = is_upper c || is_lower c

is_scheme_char : ℕ → Bool
unfolding is_alpha
is_scheme_char c = is_alpha c || (leb b'0' c && leb c b'9') || c == b'+' || c == b'-' || c == b'.'

starts_with_letter : Text → Bool
unfolding is_alpha
starts_with_letter [] = false
starts_with_letter (c ∷ s) = is_alpha c

all_scheme_chars : Text → Bool
unfolding is_scheme_char
all_scheme_chars [] = true
all_scheme_chars (c ∷ s) = is_scheme_char c && all_scheme_chars s

-- The scheme, in lower case, and what follows its colon.
split_scheme : Text → Text × Text
unfolding starts_with_letter all_scheme_chars before after lower
split_scheme url = elim (after b':' url) [
  | none ↦ ([], url)
  | some rest ↦
      let name = before b':' url in
      if starts_with_letter name && all_scheme_chars name then (lower name, rest) else ([], url)
]

until_delimiter : Text → Text × Text
until_delimiter [] = ([], [])
until_delimiter (c ∷ s) =
    let (host, rest) = until_delimiter s in
    if c == b'/' || c == b'?' || c == b'#' then ([], c ∷ s) else (c ∷ host, rest)

-- The host of a text that begins with two slashes.
split_netloc : Text → Text × Text
unfolding until_delimiter
split_netloc (a ∷ b ∷ s) = if a == b'/' && b == b'/' then until_delimiter s else ([], a ∷ b ∷ s)
split_netloc s = ([], s)

abbrev uses_params : List Text
uses_params =
    []
    ∷ lit "ftp"
    ∷ lit "hdl"
    ∷ lit "prospero"
    ∷ lit "http"
    ∷ lit "imap"
    ∷ lit "https"
    ∷ lit "shttp"
    ∷ lit "rtsp"
    ∷ lit "rtspu"
    ∷ lit "sip"
    ∷ lit "sips"
    ∷ lit "mms"
    ∷ lit "sftp"
    ∷ lit "tel"
    ∷ []

-- Cuts the parameters off the last segment: what stands from its first semicolon on.
cut_params : Text → Text
unfolding before
cut_params [] = []
cut_params (c ∷ s) =
    let rest = cut_params s in if contains b'/' (c ∷ s) then c ∷ rest else before b';' (c ∷ s)

unfoldable pub urlparse : Text → ParseResult
unfolding split_scheme split_netloc cut_params contains lit
urlparse url =
    let (scheme, rest) = split_scheme url in
    let (netloc, tail) = split_netloc rest in
    let path = before b'?' (before b'#' tail) in
    record {
      scheme = scheme;
      netloc = netloc;
      path = if contains scheme uses_params then cut_params path else path;
    }

urlparse_example :
    urlparse (lit "HTTPS://Example.com/a;x/b;y?q#f")
    ≡ record { scheme = lit "https"; netloc = lit "Example.com"; path = lit "/a;x/b" }
unfolding urlparse lit codes_beq
urlparse_example = refl

urlparse_relative :
    urlparse (lit "/docs/a.html") ≡ record { scheme = []; netloc = []; path = lit "/docs/a.html" }
unfolding urlparse lit codes_beq
urlparse_relative = refl
