-- ===== src/Spider/Layers.antt =====
-- What recording the links of a page does to the queue and to the depths.
use geo_optimizer.Base.{
  All, All-append, Bool, Bool-cases, List, Option-cases, [], any, arith, codes_beq_iff, codes_eq,
  contains, inl, inr, nat_eq, refl, some, true, ℕ, ◌++◌, ◌+◌, ◌<◌, ◌==◌, ◌||◌, ◌∷◌, ◌≡◌, ◌≤◌, ◌⊎◌,
}
use geo_optimizer.Text.{Text}
use geo_optimizer.Dict.{lookup, has_key, lookup-insert, lookup-insert_new}
use geo_optimizer.Spider.{Scan, record_link, record_links}

-- All queued depths are `k`, then all are one more.
abbrev pub Layered : ℕ → List (Text × ℕ) → Type 0
Layered k [] = Unit
Layered k (x ∷ q) = (x.1 ≡ k) × Layered k q ⊎ (x.1 ≡ k + 1) × All (λ y. y.1 ≡ k + 1) q

abbrev pub is_queued : Text → List (Text × ℕ) → Bool
is_queued u q = any (λ x. u == x.0) q

All-Layered : (k : ℕ) (q : List (Text × ℕ)) → All (λ y. y.1 ≡ k) q → Layered k q
All-Layered k [] h = tt
All-Layered k (x ∷ q) h = inl (h.0, All-Layered k q h.1)

Layered-snoc :
    (k : ℕ) (u : Text) (q : List (Text × ℕ)) → Layered k q → Layered k (q ++ (u, k + 1) ∷ [])
Layered-snoc k u [] h = inr (refl, tt)
Layered-snoc k u (x ∷ q) (inl h) = inl (h.0, Layered-snoc k u q h.1)
Layered-snoc k u (x ∷ q) (inr h) = inr (h.0, All-append _ q ((u, k + 1) ∷ []) h.1 (refl, tt))

-- The head of the queue tells the layer of the rest.
pub Layered-tail :
    (k : ℕ) (x : Text × ℕ) (q : List (Text × ℕ)) → Layered k (x ∷ q) → Layered x.1 q × (k ≤ x.1)
Layered-tail k x q (inl h) = (rw h.0 h.1, omega arith)
Layered-tail k x q (inr h) = (rw h.0 (All-Layered (k + 1) q h.1), omega arith)

is_queued-snoc :
    (u v : Text) (d : ℕ) (q : List (Text × ℕ))
    → is_queued u (q ++ (v, d) ∷ []) ≡ (is_queued u q || u == v)
is_queued-snoc u v d [] = ground arith
is_queued-snoc u v d (x ∷ q) = ground (arith, is_queued-snoc u v d q)

-- What holds while the links of a page at depth `k` are recorded.
pub record IsOpen (max_depth k : ℕ) (s : Scan) : Type 0 where
  pub within : (u : Text) (d : ℕ) → lookup u s.depth_map ≡ some d → d ≤ k + 1
  pub layers : Layered k s.queue
  pub known :
      (u : Text) (d : ℕ)
      → lookup u s.depth_map ≡ some d
      → (contains u s.visited ≡ true) ⊎ (is_queued u s.queue ≡ true) ⊎ (max_depth < d)

record_link-IsOpen :
    (max_depth k : ℕ) (s : Scan) (link : Text)
    → IsOpen max_depth k s
    → IsOpen max_depth k (record_link k s link)
unfolding record_link
record_link-IsOpen max_depth k s link h =
    elim (Bool-cases (contains link s.visited || has_key link s.depth_map)) [
      | inl y ↦ rw y (record { within = h.within; layers = h.layers; known = h.known })
      | inr n ↦ rw n (record {
        within = λ u d. ground (arith, lookup-insert link u (k + 1) s.depth_map, h.within u d);
        layers = Layered-snoc k link s.queue h.layers;
        known = λ u d. ground (
          arith,
          lookup-insert link u (k + 1) s.depth_map,
          h.known u d,
          is_queued-snoc u link (k + 1) s.queue,
          codes_beq_iff link u,
          codes_beq_iff u link,
        );
      })
    ]

pub record_links-IsOpen :
    (max_depth k : ℕ) (links : List Text) (s : Scan)
    → IsOpen max_depth k s
    → IsOpen max_depth k (record_links k s links)
unfolding record_links
record_links-IsOpen max_depth k [] s h = h
record_links-IsOpen max_depth k (link ∷ links) s h =
    record_links-IsOpen max_depth k links (record_link k s link)
      (record_link-IsOpen max_depth k s link h)

-- A recorded depth is never changed.
lookup-record_link :
    (k : ℕ) (s : Scan) (link u : Text) (d : ℕ)
    → lookup u s.depth_map ≡ some d
    → lookup u (record_link k s link).depth_map ≡ some d
unfolding record_link
lookup-record_link k s link u d h = ground (arith, lookup-insert_new link u (k + 1) d s.depth_map)

pub lookup-record_links :
    (k : ℕ) (links : List Text) (s : Scan) (u : Text) (d : ℕ)
    → lookup u s.depth_map ≡ some d
    → lookup u (record_links k s links).depth_map ≡ some d
unfolding record_links
lookup-record_links k [] s u d h = h
lookup-record_links k (link ∷ links) s u d h =
    lookup-record_links k links (record_link k s link) u d (lookup-record_link k s link u d h)

-- Every visited page has a depth.
abbrev pub HasDepths : Scan → Type 0
HasDepths s = (u : Text) → contains u s.visited ≡ true → (d : ℕ) × (lookup u s.depth_map ≡ some d)

record_link-finds :
    (k : ℕ) (s : Scan) (link : Text)
    → HasDepths s
    → (d : ℕ) × (lookup link (record_link k s link).depth_map ≡ some d)
record_link-finds k s link h = elim (Bool-cases (contains link s.visited)) [
  | inl y ↦ let (d, e) = h link y in (d, lookup-record_link k s link link d e)
  | inr n ↦ elim (Option-cases (lookup link s.depth_map)) [
    | inr (d, e) ↦ (d, lookup-record_link k s link link d e)
    | inl e ↦ (
      k + 1,
      unfold record_link has_key in
          ground (arith, lookup-insert link link (k + 1) s.depth_map, codes_beq_iff link link),
    )
  ]
]

record_link-HasDepths :
    (k : ℕ) (s : Scan) (link : Text) → HasDepths s → HasDepths (record_link k s link)
record_link-HasDepths k s link h u seen =
    let (d, e) = h u (unfold record_link in ground arith) in (d, lookup-record_link k s link u d e)

-- After the loop over its links, each link of the page has a depth.
pub record_links-finds :
    (k : ℕ) (links : List Text) (s : Scan)
    → HasDepths s
    → All (λ link. (d : ℕ) × (lookup link (record_links k s links).depth_map ≡ some d)) links
unfolding record_links
record_links-finds k [] s h = tt
record_links-finds k (link ∷ links) s h =
    let (d, e) = record_link-finds k s link h in
    (
      (d, lookup-record_links k links (record_link k s link) link d e),
      record_links-finds k links (record_link k s link) (record_link-HasDepths k s link h),
    )
