-- ===== src/Spider/Inlinks.antt =====
-- The in-link count of a page is the number of visited pages that link to it.
use geo_optimizer.Base.{
  Bool, IsDistinct, List, Option, [], arith, codes_beq_iff, codes_eq, contains, false, nat_eq, none,
  refl, some, true, ℕ, ◌+◌, ◌==◌, ◌∷◌, ◌≡◌,
}
use geo_optimizer.Text.{Text}
use geo_optimizer.Dict.{lookup_or, lookup_or-insert}
use geo_optimizer.Spider.{
  Scan, record_link, record_links, scan_page, visit, scan_loop, page_scanned,
}
use geo_optimizer.Spider.Rules.{scan_loop_rule}
use geo_optimizer.Spider.Bounds.{visited-visit}

abbrev pub one_if : Bool → ℕ
one_if true = 1
one_if false = 0

inlinks-record_link :
    (depth : ℕ) (s : Scan) (link u : Text)
    → lookup_or u 0 (record_link depth s link).inlink_count
      ≡ lookup_or u 0 s.inlink_count + one_if (u == link)
unfolding record_link
inlinks-record_link depth s link u = ground (
  arith,
  lookup_or-insert link u (lookup_or link 0 s.inlink_count + 1) 0 s.inlink_count,
  codes_beq_iff link u,
  codes_beq_iff u link,
)

-- Distinct links count once each.
inlinks-record_links :
    (depth : ℕ) (links : List Text) (s : Scan) (u : Text)
    → IsDistinct links
    → lookup_or u 0 (record_links depth s links).inlink_count
      ≡ lookup_or u 0 s.inlink_count + one_if (contains u links)
unfolding record_links contains
inlinks-record_links depth [] s u h = ground arith
inlinks-record_links depth (link ∷ links) s u h = ground (
  arith,
  inlinks-record_links depth links (record_link depth s link) u h.1,
  inlinks-record_link depth s link u,
  codes_beq_iff u link,
)

module _ (pages : Text → Option (List Text)) where
  abbrev pub links_to : Text → Text → Bool
  links_to v u = elim (pages v) [ none ↦ false | some links ↦ contains u links ]

  -- The pages of a list that link to `u`.
  abbrev pub linkers : Text → List Text → ℕ
  linkers u [] = 0
  linkers u (v ∷ vs) = one_if (links_to v u) + linkers u vs

  abbrev pub AreDistinct : Type 0
  AreDistinct = (v : Text) (links : List Text) → pages v ≡ some links → IsDistinct links

  inlinks-scan_page :
      (url u : Text) (depth : ℕ) (s : Scan) (found : Option (List Text))
      → AreDistinct
      → pages url ≡ found
      → lookup_or u 0 (scan_page url depth s found).inlink_count
        ≡ lookup_or u 0 s.inlink_count + one_if (links_to url u)
  unfolding scan_page
  inlinks-scan_page url u depth s none d e = ground arith
  inlinks-scan_page url u depth s (some links) d e =
      ground
        (arith, inlinks-record_links depth links (page_scanned url depth links s) u (d url links e))

  abbrev pub CountsLinkers : Scan → Type 0
  CountsLinkers s = (u : Text) → lookup_or u 0 s.inlink_count ≡ linkers u s.visited

  inlinks-visit :
      (max_depth : ℕ) (x : Text × ℕ) (s : Scan)
      → AreDistinct
      → CountsLinkers s
      → CountsLinkers (visit pages max_depth x.0 x.1 s)
  inlinks-visit max_depth x s d h u = rw visited-visit (
      unfold visit in
      omega (
        arith,
        h u,
        inlinks-scan_page x.0 u x.1 (record s { visited = x.0 ∷ s.visited }) (pages x.0) d refl,
      ))

  pub scan_loop-CountsLinkers :
      (max_depth room : ℕ) (queue : List (Text × ℕ)) (s : Scan)
      → AreDistinct
      → s.queue ≡ queue
      → CountsLinkers s
      → CountsLinkers (scan_loop pages max_depth room queue s)
  scan_loop-CountsLinkers max_depth room queue s d e h =
      let (_, p, _) =
        scan_loop_rule pages max_depth (λ _. CountsLinkers) (λ room s x rest e p y. p)
          (λ room s x rest e p new low. inlinks-visit max_depth x (record s { queue = rest }) d p)
          room queue s e h in
      p
