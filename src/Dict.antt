-- ===== src/Dict.antt =====
-- Python's `dict`, which keeps the order of insertion; `Counter` is one with numbers.
use mathlib.Core.Path.{subst}
use geo_optimizer.Base.{
  All, Any, Bool, Bool-cases, Eq, IsDistinct, List, Option, [], arith, codes_eq, contains, false,
  filter, if◌then◌else◌, inl, inr, map, nat_eq, none, refl, some, true, ℕ, ◌++◌, ◌==◌, ◌||◌, ◌∷◌,
  ◌≡◌,
}

abbrev pub Dict {ℓ} : Type ℓ → Type ℓ → Type ℓ
Dict K V = List (K × V)

module _ {ℓ} {K V : Type ℓ} ⦃e : Eq K⦄ where
  -- `d.get(k)`
  unfoldable pub lookup : K → Dict K V → Option V
  lookup k [] = none
  lookup k ((j, v) ∷ d) = if j == k then some v else lookup k d

  -- `d.get(k, default)`
  unfoldable pub lookup_or : K → V → Dict K V → V
  unfolding lookup
  lookup_or k x d = elim (lookup k d) [ none ↦ x | some v ↦ v ]

  -- `d[k] = v`: the place of an old key is kept, a new one goes to the end.
  unfoldable pub insert : K → V → Dict K V → Dict K V
  insert k v [] = (k, v) ∷ []
  insert k v ((j, w) ∷ d) = if j == k then (j, v) ∷ d else (j, w) ∷ insert k v d

  -- `k in d`
  unfoldable pub has_key : K → Dict K V → Bool
  unfolding lookup
  has_key k d = elim (lookup k d) [ none ↦ false | some _ ↦ true ]

  -- `d.setdefault(k, v)`
  unfoldable pub set_default : K → V → Dict K V → Dict K V
  unfolding insert has_key
  set_default k v d = if has_key k d then d else insert k v d

  pub lookup-insert :
      (k j : K) (v : V) (d : Dict K V)
      → lookup j (insert k v d) ≡ (if k == j then some v else lookup j d)
  unfolding lookup insert
  lookup-insert k j v [] = refl
  lookup-insert k j v ((i, w) ∷ d) =
      ground (arith, e.beq_iff i k, e.beq_iff i j, e.beq_iff k j, lookup-insert k j v d)

  pub lookup-set_default :
      (k j : K) (v : V) (d : Dict K V)
      → lookup j (set_default k v d) ≡ (if k == j then some (lookup_or k v d) else lookup j d)
  unfolding set_default has_key lookup_or
  lookup-set_default k j v d = ground (arith, lookup-insert k j v d, e.beq_iff k j)

module _ {ℓ} {K V : Type ℓ} where
  -- `list(d.keys())`, `list(d.values())`
  abbrev pub keys : Dict K V → List K
  keys = map (λ p. p.0)

  abbrev pub values : Dict K V → List V
  values = map (λ p. p.1)

module _ {ℓ} {K V : Type ℓ} ⦃e : Eq K⦄ where
  pub has_key-contains : (k : K) (d : Dict K V) → has_key k d ≡ contains k (keys d)
  unfolding has_key contains lookup
  has_key-contains k [] = refl
  has_key-contains k ((j, w) ∷ d) =
      ground (arith, e.beq_iff j k, e.beq_iff k j, has_key-contains k d)

  pub contains-keys-insert :
      (k j : K) (v : V) (d : Dict K V)
      → contains j (keys (insert k v d)) ≡ (j == k || contains j (keys d))
  unfolding contains insert
  contains-keys-insert k j v [] = refl
  contains-keys-insert k j v ((i, w) ∷ d) =
      ground (arith, e.beq_iff i k, e.beq_iff j k, e.beq_iff j i, contains-keys-insert k j v d)

  -- An assignment keeps the keys distinct.
  pub insert-IsDistinct :
      (k : K) (v : V) (d : Dict K V) → IsDistinct (keys d) → IsDistinct (keys (insert k v d))
  unfolding insert
  insert-IsDistinct k v [] h = unfold contains in (refl, tt)
  insert-IsDistinct k v ((i, w) ∷ d) h =
      ground (arith, e.beq_iff i k, contains-keys-insert k i v d, insert-IsDistinct k v d h.1)

  pub set_default-IsDistinct :
      (k : K) (v : V) (d : Dict K V) → IsDistinct (keys d) → IsDistinct (keys (set_default k v d))
  unfolding set_default
  set_default-IsDistinct k v d h = ground (arith, insert-IsDistinct k v d h)

  -- A new key changes no other entry.
  pub lookup-insert_new :
      (k j : K) (v w : V) (d : Dict K V)
      → has_key k d ≡ false
      → lookup j d ≡ some w
      → lookup j (insert k v d) ≡ some w
  unfolding has_key
  lookup-insert_new k j v w d new h = ground (arith, lookup-insert k j v d, e.beq_iff k j)

  pub lookup_or-insert :
      (k j : K) (v w : V) (d : Dict K V)
      → lookup_or j w (insert k v d) ≡ (if k == j then v else lookup_or j w d)
  unfolding lookup_or
  lookup_or-insert k j v w d = ground (arith, lookup-insert k j v d)

  All-lookup-cons :
      (k : K) (v : V) (d part : Dict K V)
      → contains k (keys part) ≡ false
      → All (λ p. lookup p.0 d ≡ some p.1) part
      → All (λ p. lookup p.0 ((k, v) ∷ d) ≡ some p.1) part
  unfolding contains lookup
  All-lookup-cons k v d [] new h = tt
  All-lookup-cons k v d ((j, w) ∷ part) new h =
      (ground (arith, e.beq_iff k j), All-lookup-cons k v d part (ground arith) h.1)

  -- With distinct keys, every entry is the one that is found.
  pub All-lookup : (d : Dict K V) → IsDistinct (keys d) → All (λ p. lookup p.0 d ≡ some p.1) d
  All-lookup [] h = tt
  All-lookup ((k, v) ∷ d) h = (
    unfold lookup in ground (arith, e.beq_iff k k),
    All-lookup-cons k v d d h.0 (All-lookup d h.1),
  )

  -- A property of an entry that is found is one of some entry.
  pub Any-lookup :
      (P : V → Type 0) (k : K) (v : V) (d : Dict K V) → lookup k d ≡ some v → P v → Any P (values d)
  unfolding lookup
  Any-lookup P k v [] h p = cc
  Any-lookup P k v ((j, w) ∷ d) h p = elim (Bool-cases (j == k)) [
    | inl y ↦ inl (subst P (ground arith) p)
    | inr n ↦ inr (Any-lookup P k v d (ground arith) p)
  ]

-- A new value that passes the test is the last one that does.
pub filter-values-insert :
    {V : Type 0} (f : V → Bool) (k : ℕ) (v : V) (d : Dict ℕ V)
    → has_key k d ≡ false
    → f v ≡ true
    → filter f (values (insert k v d)) ≡ filter f (values d) ++ v ∷ []
unfolding has_key lookup insert
filter-values-insert f k v [] h t = ground (arith, t)
filter-values-insert f k v ((j, u) ∷ d) h t = elim (Bool-cases (j == k)) [
  | inl y ↦ absurd (ground arith)
  | inr n ↦
      let rest = filter-values-insert f k v d (ground arith) t in
      elim (Bool-cases (f u)) [ inl p ↦ ground (arith, rest) | inr p ↦ ground (arith, rest) ]
]
