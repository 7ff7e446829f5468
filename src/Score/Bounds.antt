-- ===== src/Score/Bounds.antt =====
-- Scores lie between 0 and 1, and the greatest score means what it says.
use geo_optimizer.Base.{
  All, Bool, List, [], ap, arith, if◌then◌else◌, length, ltb, map, refl, suc, ℕ, ◌%◌, ◌*◌, ◌+◌, ◌/◌,
  ◌<◌, ◌∷◌, ◌≡◌, ◌≤◌,
}
use geo_optimizer.Text.{Text}
use geo_optimizer.Http.{truthy}
use geo_optimizer.Models.{ExtractedPage}
use geo_optimizer.Canonical.{total_confidence}
use geo_optimizer.Score.{
  count_where, sum_confidence, distinct_urls, round_div, score_of, score_pages,
}

quotient-le : (b q r k : ℕ) → 0 < b → q * b + r ≤ k * b → (q ≤ k) × (q ≡ k → r ≡ 0)
quotient-le b q r k pos h = (grind arith, λ e. grind arith)

round_half : ℕ → ℕ → ℕ → ℕ
round_half b q r = if ltb (2 * r) b then q else if ltb b (2 * r) then q + 1 else q + q % 2

round_half-le : (b q r k : ℕ) → 0 < b → q ≤ k → (q ≡ k → r ≡ 0) → round_half b q r ≤ k
unfolding round_half
round_half-le b q r k pos h z = grind arith

-- Rounding stays below a whole bound.
round_div-le : (a b k : ℕ) → 0 < b → a ≤ k * b → round_div a b ≤ k
unfolding round_div round_half
round_div-le a b k pos h =
    let facts = quotient-le b (a / b) (a % b) k pos (grind arith) in
    round_half-le b (a / b) (a % b) k pos facts.0 facts.1

count_where-le :
    (p : ExtractedPage → Bool) (pages : List ExtractedPage) → count_where p pages ≤ length pages
unfolding count_where
count_where-le p [] = omega arith
count_where-le p (page ∷ pages) = ground (arith, count_where-le p pages)

length-distinct_urls-le : (us : List Text) → length (distinct_urls us) ≤ length us
unfolding distinct_urls
length-distinct_urls-le [] = omega arith
length-distinct_urls-le (u ∷ us) = ground (arith, length-distinct_urls-le us)

length-map : {A B : Type 0} (f : A → B) (xs : List A) → length (map f xs) ≡ length xs
length-map f [] = refl
length-map f (x ∷ xs) = ap suc (length-map f xs)

-- What the extractor stores: each part of a confidence is at most 1.
sum_confidence-le :
    (pages : List ExtractedPage)
    → All (λ p. total_confidence p ≤ 20000) pages
    → sum_confidence pages ≤ 20000 * length pages
unfolding sum_confidence
sum_confidence-le [] h = omega arith
sum_confidence-le (page ∷ pages) h = omega (arith, h.0, sum_confidence-le pages h.1)

score_of-le :
    (n titled described confidences unique : ℕ)
    → 0 < n
    → titled ≤ n
    → described ≤ n
    → confidences ≤ 20000 * n
    → unique ≤ n
    → let s = score_of n titled described confidences unique in
      (s.coverage ≤ 10000) × (s.confidence ≤ 10000) × (s.redundancy ≤ 10000) × (s.total ≤ 10000)
unfolding score_of
score_of-le n titled described confidences unique pos a b c d = (
  round_div-le _ (2 * n) 10000 (omega arith) (omega arith),
  round_div-le _ (2 * n) 10000 (omega arith) (omega arith),
  round_div-le _ n 10000 pos (omega arith),
  round_div-le _ (10 * n) 10000 (omega arith) (omega arith),
)

-- With confidences of at most 1, every part of the score lies between 0 and 1.
pub score_pages-le :
    (pages : List ExtractedPage)
    → All (λ p. total_confidence p ≤ 20000) pages
    → let s = score_pages pages in
      (s.coverage ≤ 10000) × (s.confidence ≤ 10000) × (s.redundancy ≤ 10000) × (s.total ≤ 10000)
unfolding score_pages
score_pages-le [] h = (omega arith, omega arith, omega arith, omega arith)
score_pages-le (page ∷ rest) h =
    let pages = page ∷ rest in
    score_of-le (length pages) _ _ _ _ (omega arith) (count_where-le (λ p. truthy p.title) pages)
      (count_where-le (λ p. truthy p.description) pages) (sum_confidence-le pages h)
      (omega (
        arith,
        length-distinct_urls-le (map (λ p. p.url) pages),
        length-map {A = ExtractedPage} (λ p. p.url) pages,
      ))
