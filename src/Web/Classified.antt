-- ===== src/Web/Classified.antt =====
-- How the runs are divided into the lists of the page, and what a row shows of the metadata.
use mathlib.Core.List.{append-nil, append_assoc}
use geo_optimizer.Base.{
  Bool, Bool-cases, List, [], any, ap, arith, filter, inl, inr, length, length-append, ltb, not,
  refl, some, suc, take, zero, ℕ, ◌++◌, ◌<◌, ◌∙◌, ◌∷◌, ◌≡◌, ◌≤◌,
}
use geo_optimizer.Text.{Text, lit}
use geo_optimizer.Api.{HistoryView}
use geo_optimizer.Web.{is_active, classify, fetch_runs, shorten}

abbrev pub ongoing : HistoryView → Bool
ongoing run = is_active run.status

classify_lem :
    (runs active history : List HistoryView)
    → classify runs active history
      ≡ (active ++ filter ongoing runs, history ++ filter (λ r. not (ongoing r)) runs)
unfolding classify
classify_lem [] active history = ground (arith, append-nil active, append-nil history)
classify_lem (run ∷ runs) active history = elim (Bool-cases (ongoing run)) [
  | inl y ↦ rw (y) (
      classify_lem runs (active ++ run ∷ []) history
      ∙ ap (λ (xs : List HistoryView). (xs, history ++ filter (λ r. not (ongoing r)) runs))
          (append_assoc active (run ∷ []) (filter ongoing runs)))
  | inr n ↦ rw (n) (
      classify_lem runs active (history ++ run ∷ [])
      ∙ ap (λ (xs : List HistoryView). (active ++ filter ongoing runs, xs))
          (append_assoc history (run ∷ []) (filter (λ r. not (ongoing r)) runs)))
]

filter-any : {A : Type 0} (p : A → Bool) (xs : List A) → ltb 0 (length (filter p xs)) ≡ any p xs
filter-any p [] = refl
filter-any p (x ∷ xs) = ground (arith, filter-any p xs)

-- The runs that the API answers are divided, in their order, into those that are queued or running
-- and the others; nothing is in the middle list; and the flag is set exactly if one is ongoing.
pub fetch_runs_lem :
    (runs : List HistoryView)
    → fetch_runs (some runs)
      ≡ (filter ongoing runs, [], filter (λ r. not (ongoing r)) runs, any ongoing runs)
unfolding fetch_runs
fetch_runs_lem runs = rw (classify_lem runs [] [], filter-any ongoing runs) refl

length-take : {A : Type 0} (n : ℕ) (xs : List A) → n < length xs → length (take n xs) ≡ n
length-take zero xs h = refl
length-take (suc n) [] h = absurd (omega (arith, h))
length-take (suc n) (x ∷ xs) h = ap suc (length-take n xs (omega (arith, h)))

take-append : {A : Type 0} (n : ℕ) (xs ys : List A) → length xs ≡ n → take n (xs ++ ys) ≡ xs
take-append zero [] ys h = refl
take-append zero (x ∷ xs) ys h = absurd (omega (arith, h))
take-append (suc n) [] ys h = absurd (omega (arith, h))
take-append (suc n) (x ∷ xs) ys h = ap (λ zs. x ∷ zs) (take-append n xs ys (omega (arith, h)))

-- A value of the metadata is shown with at most 60 characters, of which the first 57 are its own.
pub shorten_lem : (val : Text) → (length (shorten val) ≤ 60) × (take 57 (shorten val) ≡ take 57 val)
unfolding shorten lit
shorten_lem val = elim (Bool-cases (ltb 60 (length val))) [
  | inl y ↦
      let n : length (take 57 val) ≡ 57 = length-take 57 val (ground arith) in
      rw (y) (
        ground (arith, n, length-append (take 57 val) (lit "...")),
        take-append 57 (take 57 val) (lit "...") n,
      )
  | inr n ↦ rw (n) (ground arith, refl)
]
