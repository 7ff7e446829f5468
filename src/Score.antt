-- ===== src/Score.antt =====
-- src/crawllmer/app/indexer/workers.py: `score_pages`. Confidences and scores are in
-- ten-thousandths; quotients are exact fractions in place of floats, rounded half to even.
pub mod Bounds
use geo_optimizer.Base.{
  Bool, List, [], codes_eq, contains, if◌then◌else◌, length, ltb, map, nat_eq, ℕ, ◌%◌, ◌*◌, ◌+◌,
  ◌/◌, ◌∷◌,
}
use geo_optimizer.Text.{Text, lit}
use geo_optimizer.Dict.{Dict, lookup_or}
use geo_optimizer.Http.{truthy}
use geo_optimizer.Models.{ExtractedPage}
use geo_optimizer.Canonical.{total_confidence}

-- The number of pages for which a test holds, and the sum of their confidences.
unfoldable pub count_where : (ExtractedPage → Bool) → List ExtractedPage → ℕ
count_where p [] = 0
count_where p (page ∷ pages) = (if p page then 1 else 0) + count_where p pages

unfoldable pub sum_confidence : List ExtractedPage → ℕ
sum_confidence [] = 0
sum_confidence (page ∷ pages) = total_confidence page + sum_confidence pages

-- `len({page.url for page in pages})`
unfoldable pub distinct_urls : List Text → List Text
distinct_urls [] = []
distinct_urls (u ∷ us) = let rest = distinct_urls us in if contains u rest then rest else u ∷ rest

-- `round(a / b)` to an integer.
unfoldable pub round_div : ℕ → ℕ → ℕ
round_div a b =
    let q = a / b in
    let twice = 2 * (a % b) in if ltb twice b then q else if ltb b twice then q + 1 else q + q % 2

pub record Score : Type 0 where
  pub coverage : ℕ
  pub confidence : ℕ
  pub redundancy : ℕ
  pub total : ℕ

-- With n pages: (titled / n + described / n) / 2, the mean confidence, unique / n, and the sum of
-- these with the weights 0.4, 0.4 and 0.2.
unfoldable pub score_of : ℕ → ℕ → ℕ → ℕ → ℕ → Score
unfolding round_div
score_of n titled described confidences unique = record {
  coverage = round_div (10000 * (titled + described)) (2 * n);
  confidence = round_div confidences (2 * n);
  redundancy = round_div (10000 * unique) n;
  total = round_div (20000 * (titled + described) + 2 * confidences + 20000 * unique) (10 * n);
}

unfoldable pub score_pages : List ExtractedPage → Score
unfolding count_where sum_confidence distinct_urls
score_pages [] = record { coverage = 0; confidence = 0; redundancy = 0; total = 0 }
score_pages (page ∷ rest) =
    let pages = page ∷ rest in
    score_of (length pages) (count_where (λ p. truthy p.title) pages)
      (count_where (λ p. truthy p.description) pages) (sum_confidence pages)
      (length (distinct_urls (map (λ p. p.url) pages)))

-- The dictionary that the function returns.
abbrev pub as_dict : Score → Dict Text ℕ
as_dict s =
    (lit "coverage", s.coverage)
    ∷ (lit "confidence", s.confidence)
    ∷ (lit "redundancy", s.redundancy)
    ∷ (lit "total", s.total)
    ∷ []
