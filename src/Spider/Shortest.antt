-- ===== src/Spider/Shortest.antt =====
-- The depth of a page is its distance from the seed; and a scan that ends with room left has
-- visited every page within the greatest depth.
use mathlib.Core.Path.{subst}
use geo_optimizer.Base.{
  All-contains, Bool-cases, List, Option, [], ap, arith, codes_beq_iff, codes_eq, contains,
  contains-cons_ne, inl, inr, ltb, nat_eq, none, refl, some, true, ℕ, ◌+◌, ◌<◌, ◌==◌, ◌||◌, ◌∷◌,
  ◌≡◌, ◌≢◌, ◌≤◌, ◌⊎◌,
}
use geo_optimizer.Text.{Text}
use geo_optimizer.Dict.{lookup}
use geo_optimizer.Spider.{Scan, record_links, scan_page, visit, page_scanned}
use geo_optimizer.Spider.Bounds.{visited-record_links}
use geo_optimizer.Spider.Depths.{Reached, start, follow, IsTraced, head_queued, shallow_visited}
use geo_optimizer.Spider.Layers.{
  Layered, is_queued, Layered-tail, IsOpen, record_links-IsOpen, lookup-record_links, HasDepths,
  record_links-finds,
}

-- A link from a page of known depth to one that is at most one deeper.
abbrev pub Edge : Scan → Text → Text → Type 0
Edge s v u =
    (p : ℕ) × (q : ℕ) × (lookup v s.depth_map ≡ some p)
    × (lookup u s.depth_map ≡ some q)
    × (q ≤ p + 1)

module _ (pages : Text → Option (List Text)) (seed : Text) (max_depth : ℕ) where
  -- The links of every visited page but one.
  abbrev LinkedBut : Text → Scan → Type 0
  LinkedBut url s =
      (v u : Text) (links : List Text)
      → contains v s.visited ≡ true
      → v ≢ url
      → pages v ≡ some links
      → contains u links ≡ true
      → Edge s v u

  pub record IsLayered (s : Scan) : Type 0 where
    pub layer : ℕ
    pub opened : IsOpen max_depth layer s
    pub linked :
        (v u : Text) (links : List Text)
        → contains v s.visited ≡ true
        → pages v ≡ some links
        → contains u links ≡ true
        → Edge s v u

  recorded-linked :
      (url : Text) (k : ℕ) (s : Scan) (found : List Text)
      → pages url ≡ some found
      → lookup url s.depth_map ≡ some k
      → IsOpen max_depth k s
      → HasDepths s
      → LinkedBut url s
      → (v u : Text) (links : List Text) → contains v s.visited ≡ true
      → pages v ≡ some links
      → contains u links ≡ true
      → Edge (record_links k s found) v u
  recorded-linked url k s found e at_url h depths old v u links seen pv m =
      elim (Bool-cases (v == url)) [
        | inl y ↦
            let same : v ≡ url = (codes_beq_iff v url).0 y in
            let these : links ≡ found = cc (pv, e, same) in
            let (w, uw, (d, at_w)) =
              All-contains _ u found (record_links-finds k found s depths) (rw (← these) m) in
            let at_u : lookup u (record_links k s found).depth_map ≡ some d = rw uw at_w in
            (
              k,
              d,
              rw same (lookup-record_links k found s url k at_url),
              at_u,
              (record_links-IsOpen max_depth k found s h).within u d at_u,
            )
        | inr n ↦
            let (p, q, at_v, at_u, le) =
              old v u links seen (λ same. cc ((codes_beq_iff v url).1 same, n)) pv m in
            (
              p,
              q,
              lookup-record_links k found s v p at_v,
              lookup-record_links k found s u q at_u,
              le,
            )
      ]

  scan_page-IsLayered :
      (url : Text) (k : ℕ) (s : Scan) (found : Option (List Text))
      → pages url ≡ found
      → lookup url s.depth_map ≡ some k
      → IsOpen max_depth k s
      → HasDepths s
      → LinkedBut url s
      → IsLayered (scan_page url k s found)
  unfolding scan_page
  scan_page-IsLayered url k s none e at_url h depths old = record {
    layer = k;
    opened = h;
    linked = λ v u links seen pv m. elim (Bool-cases (v == url)) [
      | inl y ↦ absurd (cc (e, pv, (codes_beq_iff v url).0 y))
      | inr n ↦ old v u links seen (λ same. cc ((codes_beq_iff v url).1 same, n)) pv m
    ];
  }
  scan_page-IsLayered url k s (some found) e at_url h depths old =
      let scanning = page_scanned url k found s in
      let opened : IsOpen max_depth k scanning = record {
        within = h.within;
        layers = h.layers;
        known = h.known;
      } in
      record {
        layer = k;
        opened = record_links-IsOpen max_depth k found scanning opened;
        linked = λ v u links seen pv m.
            recorded-linked url k scanning found e at_url opened depths old v u links
              (rw visited-record_links at seen) pv m;
      }

  popped :
      (s : Scan) (x : Text × ℕ) (rest : List (Text × ℕ)) (h : IsLayered s)
      → s.queue ≡ x ∷ rest
      → Layered x.1 rest × (h.layer ≤ x.1)
  popped s x rest h e = Layered-tail h.layer x rest (subst (Layered h.layer) e h.opened.layers)

  -- The head of the queue is visited.
  visit-known :
      (s : Scan) (x : Text × ℕ) (rest : List (Text × ℕ)) (h : IsLayered s) (u : Text) (d : ℕ)
      → s.queue ≡ x ∷ rest
      → lookup u s.depth_map ≡ some d
      → (contains u (x.0 ∷ s.visited) ≡ true) ⊎ (is_queued u rest ≡ true) ⊎ (max_depth < d)
  unfolding contains
  visit-known s x rest h u d e found = ground (arith, h.opened.known u d found, ap (is_queued u) e)

  -- The head of the queue is dropped.
  skip-known :
      (s : Scan) (x : Text × ℕ) (rest : List (Text × ℕ)) (h : IsLayered s) (u : Text) (d : ℕ)
      → s.queue ≡ x ∷ rest
      → lookup x.0 s.depth_map ≡ some x.1
      → (contains x.0 s.visited || ltb max_depth x.1) ≡ true
      → lookup u s.depth_map ≡ some d
      → (contains u s.visited ≡ true) ⊎ (is_queued u rest ≡ true) ⊎ (max_depth < d)
  skip-known s x rest h u d e at_head stale found =
      ground (arith, h.opened.known u d found, ap (is_queued u) e, codes_beq_iff u x.0)

  -- A round keeps the layers.
  pub visit-IsLayered :
      (s : Scan) (x : Text × ℕ) (rest : List (Text × ℕ))
      → s.queue ≡ x ∷ rest
      → IsTraced pages seed max_depth s
      → IsLayered s
      → x.1 ≤ max_depth
      → IsLayered (visit pages max_depth x.0 x.1 (record s { queue = rest }))
  unfolding visit
  visit-IsLayered s x rest e traced h low =
      let (at_head, _) = head_queued pages seed max_depth s x rest e traced in
      let (layers, above) = popped s x rest h e in
      scan_page-IsLayered x.0 x.1 (record s { visited = x.0 ∷ s.visited; queue = rest }) (pages x.0)
        refl at_head
        (record {
          within = λ u d found. omega (arith, h.opened.within u d found);
          layers = layers;
          known = λ u d. visit-known s x rest h u d e;
        })
        (λ u seen.
          let (d, found, _) = shallow_visited pages seed max_depth s x u traced at_head low seen in
          (d, found))
        (λ v u links seen other pv m.
          h.linked v u links (contains-cons_ne v x.0 s.visited other seen) pv m)

  pub skip-IsLayered :
      (s : Scan) (x : Text × ℕ) (rest : List (Text × ℕ))
      → s.queue ≡ x ∷ rest
      → IsTraced pages seed max_depth s
      → IsLayered s
      → (contains x.0 s.visited || ltb max_depth x.1) ≡ true
      → IsLayered (record s { queue = rest })
  skip-IsLayered s x rest e traced h stale =
      let (at_head, _) = head_queued pages seed max_depth s x rest e traced in
      let (layers, above) = popped s x rest h e in
      record {
        layer = x.1;
        opened = record {
          within = λ u d found. omega (arith, h.opened.within u d found);
          layers = layers;
          known = λ u d. skip-known s x rest h u d e at_head stale;
        };
        linked = h.linked;
      }

  -- A page within reach is known by a depth that is no greater than its distance, and visited if
  -- the queue ran empty.
  pub distance :
      (s : Scan)
      → IsLayered s
      → s.queue ≡ []
      → lookup seed s.depth_map ≡ some 0
      → {u : Text} {d : ℕ} → Reached pages seed u d
      → d ≤ max_depth
      → (p : ℕ) × (lookup u s.depth_map ≡ some p) × (p ≤ d) × (contains u s.visited ≡ true)
  distance s h e at_seed start low = (
    0,
    at_seed,
    omega arith,
    ground (arith, h.opened.known seed 0 at_seed, ap (is_queued seed) e),
  )
  distance s h e at_seed (follow {u} {v} {d} {d'} {links} r next pu m) low =
      let (p, at_u, le, seen) = distance s h e at_seed r (omega arith) in
      let (p', q, at_u', at_v, step) = h.linked u v links seen pu m in
      let same : p ≡ p' = cc (at_u, at_u') in
      (q, at_v, omega arith, ground (arith, h.opened.known v q at_v, ap (is_queued v) e))

  pub lookup-visit :
      (x : Text × ℕ) (s : Scan) (u : Text) (d : ℕ)
      → lookup u s.depth_map ≡ some d
      → lookup u (visit pages max_depth x.0 x.1 s).depth_map ≡ some d
  unfolding visit
  lookup-visit x s u d h = go (pages x.0)
    where
      go :
          (found : Option (List Text))
          → lookup u (scan_page x.0 x.1 (record s { visited = x.0 ∷ s.visited }) found).depth_map
            ≡ some d
      go none = unfold scan_page in h
      go (some links) = unfold scan_page in lookup-record_links x.1 links _ u d h
