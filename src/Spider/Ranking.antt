-- ===== src/Spider/Ranking.antt =====
-- The list that the scan returns: every visited page once, the most linked first.
use geo_optimizer.Base.{
  All, Bool, List, [], ap, arith, codes_eq, false, map, nat_eq, refl, true, ℕ, ◌∷◌, ◌≡◌,
}
use mathlib.Core.List.{Perm}
use mathlib.Core.List.Perm
use geo_optimizer.Text.{Text}
use geo_optimizer.Dict.{lookup_or}
use geo_optimizer.Http.{Client}
use geo_optimizer.Config.{Settings}
use geo_optimizer.Sort.{sort_by, IsSorted, sort_by-perm, sort_by-IsSorted}
use geo_optimizer.Spider.{Scan, scanned, spider_scan, site, entry_le, rank_le, ranked_entry}
use geo_optimizer.Spider.Inlinks.{linkers}
use geo_optimizer.Spider.Coverage.{scanned_counts}

entry_le_total : (x y : Text × ℕ × ℕ) → entry_le x y ≡ false → entry_le y x ≡ true
entry_le_total x y h = ground arith

entry_le_trans :
    (x y z : Text × ℕ × ℕ) → entry_le x y ≡ true → entry_le y z ≡ true → entry_le x z ≡ true
entry_le_trans x y z h k = ground arith

module _ {ℓ κ} {A : Type ℓ} {B : Type κ} (f : A → B) (le : B → B → Bool) where
  All-map_iff : (P : B → Type 0) (xs : List A) → All (λ x. P (f x)) xs → All P (map f xs)
  All-map_iff P [] h = tt
  All-map_iff P (x ∷ xs) h = (h.0, All-map_iff P xs h.1)

  IsSorted-map : (xs : List A) → IsSorted (λ x y. le (f x) (f y)) xs → IsSorted le (map f xs)
  IsSorted-map [] h = tt
  IsSorted-map (x ∷ xs) h = (All-map_iff (λ y. le (f x) y ≡ true) xs h.0, IsSorted-map xs h.1)

map-first : (s : Scan) (xs : List Text) → map (λ x. x.0) (map (ranked_entry s) xs) ≡ xs
map-first s [] = refl
map-first s (u ∷ xs) = ap (◌∷◌ u) (map-first s xs)

All-ranked :
    (s : Scan) (P : Text × ℕ × ℕ → Type 0) (xs : List Text)
    → ((u : Text) → P (ranked_entry s u))
    → All P (map (ranked_entry s) xs)
All-ranked s P [] h = tt
All-ranked s P (u ∷ xs) h = (h u, All-ranked s P xs h)

-- Whatever the order in which a set is gone through, the scan returns every visited page once,
-- in order of falling in-link count and then of rising depth, each with the number of visited
-- pages that link to it and its recorded depth.
pub spider_scan-ranked :
    (urljoin : Text → Text → Text) (hrefs : Text → List Text) (client : Client)
    (settings : Settings) (seed_url : Text) (iterate : List Text → List Text) (elapsed : ℕ)
    → ((xs : List Text) → Perm (iterate xs) xs)
    → let s = scanned urljoin hrefs client settings seed_url in
      let found = (spider_scan urljoin hrefs client settings seed_url iterate elapsed).0 in
      Perm (map (λ x. x.0) found) s.visited
      × IsSorted entry_le found
      × All
          (λ x.
            (x.1 ≡ linkers (site urljoin hrefs client settings seed_url) x.0 s.visited)
            × (x.2 ≡ lookup_or x.0 0 s.depth_map))
          found
unfolding spider_scan
spider_scan-ranked urljoin hrefs client settings seed_url iterate elapsed any_order =
    let s = scanned urljoin hrefs client settings seed_url in
    let order = iterate s.visited in
    (
      rw map-first (Perm.trans (sort_by-perm (rank_le s) order) (any_order s.visited)),
      IsSorted-map (ranked_entry s) entry_le (sort_by (rank_le s) order) (
          sort_by-IsSorted (rank_le s) (λ u v. entry_le_total (ranked_entry s u) (ranked_entry s v))
            (λ u v w. entry_le_trans (ranked_entry s u) (ranked_entry s v) (ranked_entry s w))
            order),
      All-ranked s _ (sort_by (rank_le s) order)
          (λ u. (scanned_counts urljoin hrefs client settings seed_url u, refl)),
    )
