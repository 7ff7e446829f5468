-- ===== src/Spider/Depths.antt =====
-- Every page that the scan knows of is reached by links from the seed, in as many steps as its
-- depth says; with room left, the scan has followed every link up to the greatest depth.
use geo_optimizer.Base.{
  All, All-append, All-contains_self, All-map, Bool-cases, List, Option, [], arith, codes_beq_iff,
  codes_eq, contains, false, inl, inr, nat_eq, none, refl, some, true, ℕ, ◌++◌, ◌+◌, ◌==◌, ◌||◌,
  ◌∷◌, ◌≡◌, ◌≤◌,
}
use mathlib.Core.Path.{subst, subst₂}
use geo_optimizer.Text.{Text}
use geo_optimizer.Dict.{lookup, has_key, insert, lookup-insert, lookup-insert_new}
use geo_optimizer.Spider.{Scan, record_link, record_links, scan_page, visit}

-- The pages that lie a number of links away from the seed.
pub data Reached (pages : Text → Option (List Text)) (seed : Text) : Text → ℕ → Type 0 where
  start : Reached pages seed seed 0
  follow :
      {u v : Text} {d d' : ℕ} {links : List Text}
      → Reached pages seed u d
      → d' ≡ d + 1
      → pages u ≡ some links
      → contains v links ≡ true
      → Reached pages seed v d'

module _ (pages : Text → Option (List Text)) (seed : Text) (max_depth : ℕ) where
  -- Depths are those of paths; what is queued or visited has its depth on record.
  pub record IsTraced (s : Scan) : Type 0 where
    pub reached : (u : Text) (d : ℕ) → lookup u s.depth_map ≡ some d → Reached pages seed u d
    pub queued : All (λ x. lookup x.0 s.depth_map ≡ some x.1) s.queue
    pub shallow :
        (u : Text)
        → contains u s.visited ≡ true
        → (d : ℕ) × (lookup u s.depth_map ≡ some d) × (d ≤ max_depth)

  -- A new link of a page at depth `depth`.
  add_link-IsTraced :
      (depth : ℕ) (s t : Scan) (link : Text)
      → Reached pages seed link (depth + 1)
      → IsTraced s
      → has_key link s.depth_map ≡ false
      → t.visited ≡ s.visited
      → t.depth_map ≡ insert link (depth + 1) s.depth_map
      → t.queue ≡ s.queue ++ (link, depth + 1) ∷ []
      → IsTraced t
  add_link-IsTraced depth s t link r h new v m q =
      let old = λ (u : Text) (w : ℕ). lookup-insert_new link u (depth + 1) w s.depth_map new in
      record {
        reached = λ u d found. elim (Bool-cases (link == u)) [
          | inl y ↦
              let same : link ≡ u = (codes_beq_iff link u).0 y in
              let depth_of : depth + 1 ≡ d =
                ground (arith, m, found, y, lookup-insert link u (depth + 1) s.depth_map) in
              subst₂ (Reached pages seed) same depth_of r
          | inr n ↦
              h.reached u d
                (ground (arith, m, found, n, lookup-insert link u (depth + 1) s.depth_map))
        ];
        queued =
            rw (m, q)
              (All-append _ s.queue ((link, depth + 1) ∷ [])
                (All-map _ _ s.queue (λ x p. old x.0 x.1 p) h.queued)
                (simp (lookup-insert, (codes_beq_iff link link).1 refl) refl, tt));
        shallow = λ u seen.
            let (d, found, low) = h.shallow u (rw v at seen) in (d, rw m (old u d found), low);
      }

  record_link-IsTraced :
      (url : Text) (depth : ℕ) (links : List Text) (s : Scan) (link : Text)
      → Reached pages seed url depth
      → pages url ≡ some links
      → contains link links ≡ true
      → IsTraced s
      → IsTraced (record_link depth s link)
  unfolding record_link
  record_link-IsTraced url depth links s link r e m h =
      elim (Bool-cases (contains link s.visited || has_key link s.depth_map)) [
        | inl y ↦ rw y (record { reached = h.reached; queued = h.queued; shallow = h.shallow })
        | inr n ↦
            rw n
              (add_link-IsTraced depth s _ link (follow r refl e m) h (ground arith) refl refl refl)
      ]

  record_links-IsTraced :
      (url : Text) (depth : ℕ) (links : List Text) (s : Scan) (more : List Text)
      → Reached pages seed url depth
      → pages url ≡ some links
      → All (λ link. contains link links ≡ true) more
      → IsTraced s
      → IsTraced (record_links depth s more)
  unfolding record_links
  record_links-IsTraced url depth links s [] r e m h = h
  record_links-IsTraced url depth links s (link ∷ more) r e m h =
      record_links-IsTraced url depth links (record_link depth s link) more r e m.1
        (record_link-IsTraced url depth links s link r e m.0 h)

  scan_page-IsTraced :
      (url : Text) (depth : ℕ) (s : Scan) (found : Option (List Text))
      → Reached pages seed url depth
      → pages url ≡ found
      → IsTraced s
      → IsTraced (scan_page url depth s found)
  unfolding scan_page
  scan_page-IsTraced url depth s none r e h = h
  scan_page-IsTraced url depth s (some links) r e h =
      record_links-IsTraced url depth links _ links r e (All-contains_self links)
        (record { reached = h.reached; queued = h.queued; shallow = h.shallow })

  pub shallow_visited :
      (s : Scan) (x : Text × ℕ) (u : Text)
      → IsTraced s
      → lookup x.0 s.depth_map ≡ some x.1
      → x.1 ≤ max_depth
      → contains u (x.0 ∷ s.visited) ≡ true
      → (d : ℕ) × (lookup u s.depth_map ≡ some d) × (d ≤ max_depth)
  unfolding contains
  shallow_visited s x u p found low seen = elim (Bool-cases (u == x.0)) [
    | inl y ↦ (x.1, rw ((codes_beq_iff u x.0).0 y) found, low)
    | inr n ↦ p.shallow u (ground arith)
  ]

  pub head_queued :
      (s : Scan) (x : Text × ℕ) (rest : List (Text × ℕ))
      → s.queue ≡ x ∷ rest
      → IsTraced s
      → (lookup x.0 s.depth_map ≡ some x.1) × All (λ y. lookup y.0 s.depth_map ≡ some y.1) rest
  head_queued s x rest e p = subst (All (λ y. lookup y.0 s.depth_map ≡ some y.1)) e p.queued

  pub skip-IsTraced :
      (s : Scan) (x : Text × ℕ) (rest : List (Text × ℕ))
      → s.queue ≡ x ∷ rest
      → IsTraced s
      → IsTraced (record s { queue = rest })
  skip-IsTraced s x rest e p = record {
    reached = p.reached;
    queued = (head_queued s x rest e p).1;
    shallow = p.shallow;
  }

  pub visit-IsTraced :
      (s : Scan) (x : Text × ℕ) (rest : List (Text × ℕ))
      → s.queue ≡ x ∷ rest
      → IsTraced s
      → x.1 ≤ max_depth
      → IsTraced (visit pages max_depth x.0 x.1 (record s { queue = rest }))
  unfolding visit
  visit-IsTraced s x rest e p low =
      let (at_head, others) = head_queued s x rest e p in
      scan_page-IsTraced x.0 x.1 (record s { queue = rest; visited = x.0 ∷ s.visited }) (pages x.0)
        (p.reached x.0 x.1 at_head) refl
        (record {
          reached = p.reached;
          queued = others;
          shallow = λ u seen. shallow_visited s x u p at_head low seen;
        })
