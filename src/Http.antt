-- ===== src/Http.antt =====
-- What the program reads of an `httpx.Response`. A client is a function: `none` is an
-- `httpx.HTTPError`. A header is looked up by `headers.get`.
use geo_optimizer.Base.{Bool, Option, [], false, is_empty, none, not, some, ℕ}
use geo_optimizer.Text.{Text}

pub record Response : Type 0 where
  pub status_code : ℕ
  pub content_type : Option Text
  pub etag : Option Text
  pub last_modified : Option Text
  pub text : Text

abbrev pub Client : Type 0
Client = Text → Option Response

-- `d.get(key, "")`, and the truth of a text or of an optional one.
abbrev pub or_empty : Option Text → Text
or_empty none = []
or_empty (some s) = s

abbrev pub truthy : Option Text → Bool
truthy none = false
truthy (some s) = not (is_empty s)
