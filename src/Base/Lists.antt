-- ===== src/Base/Lists.antt =====
-- Lists measured by native numbers, membership by a test, and predicates by recursion.
use Prim.Native.Nat.{ℕ, zero, suc, ◌+◌, ◌≤◌}
use mathlib.Core.Path.{◌≡◌, refl}
use mathlib.Core.Logic.{◌≢◌, ◌⊎◌, ◌⊎◌, inl, inr}
use mathlib.Core.Bool.{Bool, true, false, ◌||◌}
use mathlib.Core.Option.{Option, none, some}
use mathlib.Core.List.{List, [], ◌∷◌, ◌++◌}
use native.Mathlib.Omega.{arith}
use geo_optimizer.Base.Tests.{Eq, ◌==◌, if◌then◌else◌}

module _ {ℓ} {A : Type ℓ} where
  abbrev pub length : List A → ℕ
  length [] = 0
  length (x ∷ xs) = suc (length xs)

  abbrev pub take : ℕ → List A → List A
  take zero xs = []
  take (suc n) [] = []
  take (suc n) (x ∷ xs) = x ∷ take n xs

  abbrev pub filter : (A → Bool) → List A → List A
  filter p [] = []
  filter p (x ∷ xs) = let rest = filter p xs in if p x then x ∷ rest else rest

  abbrev pub any : (A → Bool) → List A → Bool
  any p [] = false
  any p (x ∷ xs) = p x || any p xs

  abbrev pub find : (A → Bool) → List A → Option A
  find p [] = none
  find p (x ∷ xs) = if p x then some x else find p xs

  abbrev pub is_empty : List A → Bool
  is_empty [] = true
  is_empty (_ ∷ _) = false

  abbrev pub All {κ} : (A → Type κ) → List A → Type κ
  All P [] = Unit
  All P (x ∷ xs) = P x × All P xs

  -- Some item of a list has a property.
  abbrev pub Any : (A → Type 0) → List A → Type 0
  Any P [] = ⊥
  Any P (x ∷ xs) = P x ⊎ Any P xs

  pub length-append : (xs ys : List A) → length (xs ++ ys) ≡ length xs + length ys
  length-append [] ys = omega arith
  length-append (x ∷ xs) ys = omega (arith, length-append xs ys)

  pub length-take-le : (n : ℕ) (xs : List A) → length (take n xs) ≤ n
  length-take-le (suc n) (x ∷ xs) = omega (arith, length-take-le n xs)
  length-take-le zero xs = omega arith
  length-take-le (suc n) [] = omega arith

  pub length-filter-le : (p : A → Bool) (xs : List A) → length (filter p xs) ≤ length xs
  length-filter-le p [] = omega arith
  length-filter-le p (x ∷ xs) = ground (arith, length-filter-le p xs)

  pub All-append {κ} : (P : A → Type κ) (xs ys : List A) → All P xs → All P ys → All P (xs ++ ys)
  All-append P [] ys p q = q
  All-append P (x ∷ xs) ys p q = (p.0, All-append P xs ys p.1 q)

  pub All-map {κ μ} :
      (P : A → Type κ) (Q : A → Type μ) (xs : List A) → ((x : A) → P x → Q x) → All P xs → All Q xs
  All-map P Q [] f p = tt
  All-map P Q (x ∷ xs) f p = (f x p.0, All-map P Q xs f p.1)

module _ {ℓ} {A : Type ℓ} ⦃e : Eq A⦄ where
  -- `x in xs`
  unfoldable pub contains : A → List A → Bool
  contains a [] = false
  contains a (x ∷ xs) = a == x || contains a xs

  abbrev pub IsDistinct : List A → Type 0
  IsDistinct [] = Unit
  IsDistinct (x ∷ xs) = (contains x xs ≡ false) × IsDistinct xs

  pub contains-append :
      (a : A) (xs ys : List A) → contains a (xs ++ ys) ≡ (contains a xs || contains a ys)
  unfolding contains
  contains-append a [] ys = refl
  contains-append a (x ∷ xs) ys = ground (arith, contains-append a xs ys)

  pub IsDistinct-snoc :
      (xs : List A) (a : A) → IsDistinct xs → contains a xs ≡ false → IsDistinct (xs ++ a ∷ [])
  unfolding contains
  IsDistinct-snoc [] a d h = (refl, tt)
  IsDistinct-snoc (x ∷ xs) a d h =
      ground (
        arith,
        IsDistinct-snoc xs a d.1,
        contains-append x xs (a ∷ []),
        e.beq_iff x a,
        e.beq_iff a x,
      )

  pub All-contains {κ} :
      (P : A → Type κ) (a : A) (xs : List A)
      → All P xs
      → contains a xs ≡ true
      → (b : A) × (a ≡ b) × P b
  unfolding contains
  All-contains P a [] p h = absurd (ground arith)
  All-contains P a (x ∷ xs) p h = elim (split (a == x) (contains a xs) h) [
    | inl here ↦ (x, (e.beq_iff a x).0 here, p.0)
    | inr there ↦ All-contains P a xs p.1 there
  ]
    where
      split : (b c : Bool) → (b || c) ≡ true → (b ≡ true) ⊎ (c ≡ true)
      split true c h = inl refl
      split false c h = inr h

  contains-weaken :
      (a : A) (xs more : List A)
      → All (λ x. contains x xs ≡ true) more
      → All (λ x. contains x (a ∷ xs) ≡ true) more
  unfolding contains
  contains-weaken a xs [] h = tt
  contains-weaken a xs (x ∷ more) h = (ground arith, contains-weaken a xs more h.1)

  pub All-contains_self : (xs : List A) → All (λ x. contains x xs ≡ true) xs
  All-contains_self [] = tt
  All-contains_self (x ∷ xs) = (
    unfold contains in ground (arith, e.beq_iff x x),
    contains-weaken x xs xs (All-contains_self xs),
  )

  pub contains-cons_ne :
      (a x : A) (xs : List A) → a ≢ x → contains a (x ∷ xs) ≡ true → contains a xs ≡ true
  unfolding contains
  contains-cons_ne a x xs ne h = ground (arith, e.beq_iff a x)
