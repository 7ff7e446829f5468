-- ===== src/Spider/Invariant.antt =====
-- The scan of a site against the graph of its links.
use geo_optimizer.Base.{
  List, Option, [], arith, codes_beq_iff, codes_eq, contains, inl, inr, nat_eq, refl, some, true, ℕ,
  ◌∷◌, ◌≡◌, ◌⊎◌,
}
use geo_optimizer.Text.{Text}
use geo_optimizer.Dict.{lookup}
use geo_optimizer.Spider.{Scan, scan_loop, initial}
use geo_optimizer.Spider.Rules.{scan_loop_rule}
use geo_optimizer.Spider.Bounds.{IsBounded, visit-IsBounded}
use geo_optimizer.Spider.Depths.{start, IsTraced, skip-IsTraced, visit-IsTraced}
use geo_optimizer.Spider.Layers.{is_queued}
use geo_optimizer.Spider.Shortest.{IsLayered, visit-IsLayered, skip-IsLayered, lookup-visit}

lookup-initial :
    (seed u : Text) (d : ℕ) → lookup u (initial seed).depth_map ≡ some d → (u ≡ seed) × (d ≡ 0)
unfolding initial lookup
lookup-initial seed u d h = ground (arith, codes_beq_iff seed u)

seed-initial : (seed : Text) → lookup seed (initial seed).depth_map ≡ some 0
unfolding initial lookup
seed-initial seed = ground (arith, codes_beq_iff seed seed)

module _ (pages : Text → Option (List Text)) (seed : Text) (max_depth : ℕ) where
  pub record Inv (max_pages room : ℕ) (t : Scan) : Type 0 where
    pub bounded : IsBounded pages max_depth max_pages room t
    pub traced : IsTraced pages seed max_depth t
    pub layered : IsLayered pages seed max_depth t
    pub at_seed : lookup seed t.depth_map ≡ some 0

module _ (pages : Text → Option (List Text)) (seed : Text) (max_depth : ℕ) (s : Scan)
    (fresh : s.visited ≡ []) (queued : s.queue ≡ (seed, 0) ∷ [])
    (depths : s.depth_map ≡ (initial seed).depth_map) where
  not_visited : (u : Text) → contains u s.visited ≡ true → ⊥
  unfolding contains
  not_visited u seen = cc (rw fresh at seen)

  initial-IsTraced : IsTraced pages seed max_depth s
  initial-IsTraced = record {
    reached = λ u d found.
        let (same, zero_depth) = lookup-initial seed u d (rw depths at found) in
        rw (same, zero_depth) start;
    queued = rw (queued, depths) (seed-initial seed, tt);
    shallow = λ u seen. absurd (not_visited u seen);
  }

  initial-known : (u : Text) (d : ℕ) → lookup u s.depth_map ≡ some d → is_queued u s.queue ≡ true
  initial-known u d found =
      rw queued (ground (arith, lookup-initial seed u d (rw depths at found), codes_beq_iff u seed))

  initial-IsLayered : IsLayered pages seed max_depth s
  initial-IsLayered = record {
    layer = 0;
    opened = record {
      within = λ u d found. omega (arith, (lookup-initial seed u d (rw depths at found)).1);
      layers = rw queued (inl (refl, tt));
      known = λ u d found. inr (inl (initial-known u d found));
    };
    linked = λ v u links seen. absurd (not_visited v seen);
  }

  pub scan_loop-Inv :
      (max_pages : ℕ)
      → (left : ℕ) × Inv pages seed max_depth max_pages left
          (scan_loop pages max_depth max_pages ((seed, 0) ∷ []) s)
        × ((left ≡ 0) ⊎ ((scan_loop pages max_depth max_pages ((seed, 0) ∷ []) s).queue ≡ []))
  scan_loop-Inv max_pages =
      scan_loop_rule pages max_depth (Inv pages seed max_depth max_pages)
        (λ room t x rest e p stale. record {
          bounded = record { counted = p.bounded.counted; distinct = p.bounded.distinct };
          traced = skip-IsTraced pages seed max_depth t x rest e p.traced;
          layered = skip-IsLayered pages seed max_depth t x rest e p.traced p.layered stale;
          at_seed = p.at_seed;
        })
        (λ room t x rest e p new low. record {
          bounded = visit-IsBounded pages max_depth max_pages room t x rest p.bounded new;
          traced = visit-IsTraced pages seed max_depth t x rest e p.traced low;
          layered = visit-IsLayered pages seed max_depth t x rest e p.traced p.layered low;
          at_seed =
              lookup-visit pages seed max_depth x (record t { queue = rest }) seed 0 p.at_seed;
        })
        max_pages ((seed, 0) ∷ []) s queued
        (record {
          bounded = record { counted = rw fresh (omega arith); distinct = rw fresh tt };
          traced = initial-IsTraced;
          layered = initial-IsLayered;
          at_seed = rw depths (seed-initial seed);
        })
