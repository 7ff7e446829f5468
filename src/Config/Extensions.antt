-- ===== src/Config/Extensions.antt =====
-- The trailing comma of `spider_include_extensions`.
use geo_optimizer.Base.{
  Bool-cases, List, [], arith, codes_beq_iff, codes_eq, contains, inl, inr, map, nat_eq, true, ℕ,
  ◌++◌, ◌==◌, ◌∷◌, ◌≡◌,
}
use geo_optimizer.Text.{Text, split, strip}
use geo_optimizer.Config.{Settings, spider_extensions_set}

contains-map-strip :
    (p : Text) (xs : List Text) → contains p xs ≡ true → contains (strip p) (map strip xs) ≡ true
unfolding contains
contains-map-strip p [] h = absurd (ground arith)
contains-map-strip p (x ∷ xs) h =
    ground (arith, contains-map-strip p xs, codes_beq_iff p x, codes_beq_iff (strip p) (strip x))

contains-split-trailing :
    (k : ℕ) (s : Text)
    → (first : Text) × (rest : List Text) × (split k (s ++ k ∷ []) ≡ first ∷ rest)
      × (contains [] rest ≡ true)
unfolding split contains
contains-split-trailing k [] = ([], [] ∷ [], ground arith, ground (arith, codes_beq_iff [] []))
contains-split-trailing k (c ∷ s) =
    let (first, rest, e, h) = contains-split-trailing k s in
    elim (Bool-cases (c == k)) [
      | inl y ↦ ([], first ∷ rest, ground arith, ground arith)
      | inr n ↦ (c ∷ first, rest, ground arith, h)
    ]

-- With a trailing comma, the extensionless paths are among the allowed ones.
contains-spider_extensions_set :
    (s : Settings) (listed : Text)
    → s.spider_include_extensions ≡ listed ++ b',' ∷ []
    → contains [] (spider_extensions_set s) ≡ true
unfolding spider_extensions_set strip contains
contains-spider_extensions_set s listed h =
    let (first, rest, e, m) = contains-split-trailing b',' listed in
    rw (h, e) (ground (arith, contains-map-strip [] rest m))
