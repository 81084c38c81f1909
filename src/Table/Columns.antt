-- ===== src/Table/Columns.antt =====
-- Vectors read and written by an index, loops over 0..n, and the sort of the standard library.
use personal_productivity_ai.Common.{
  ◌≡◌, refl, ap, ℕ, zero, suc, ◌≤◌, ◌<◌, Option, none, some, List, [], ◌∷◌, length, set, ltb, ◌⊎◌,
  inl, inr, if◌then◌else◌, arith,
}
use personal_productivity_ai.Table.{Order, less, equal, greater}

module _ {ℓ} {A : Type ℓ} where
  abbrev pub get_or : A → List A → ℕ → A
  get_or d [] i = d
  get_or d (x ∷ xs) zero = x
  get_or d (x ∷ xs) (suc i) = get_or d xs i

  -- `(0..n).map(f).collect()`.
  abbrev pub collect : ℕ → (ℕ → A) → List A
  collect zero f = []
  collect (suc n) f = f 0 ∷ collect n (λ i. f (suc i))

  abbrev pub replicate : ℕ → A → List A
  replicate zero x = []
  replicate (suc n) x = x ∷ replicate n x

  -- `sort_by`, which is stable.
  unfoldable pub insert_by : (A → A → Order) → A → List A → List A
  insert_by cmp x [] = x ∷ []
  insert_by cmp x (y ∷ ys) =
      let rest = insert_by cmp x ys in elim (cmp x y) [ greater ↦ y ∷ rest | _ ↦ x ∷ y ∷ ys ]

  unfoldable pub sort_by : (A → A → Order) → List A → List A
  unfolding insert_by
  sort_by cmp [] = []
  sort_by cmp (x ∷ xs) = insert_by cmp x (sort_by cmp xs)

  -- `max_by`, which gives the last of the greatest items.
  unfoldable pub max_from : (A → A → Order) → A → List A → A
  max_from cmp best [] = best
  max_from cmp best (x ∷ xs) = elim (cmp best x) [
    | greater ↦ max_from cmp best xs
    | _ ↦ max_from cmp x xs
  ]

  unfoldable pub max_by : (A → A → Order) → List A → Option A
  unfolding max_from
  max_by cmp [] = none
  max_by cmp (x ∷ xs) = some (max_from cmp x xs)

abbrev pub and_then : Order → Order → Order
and_then less o = less
and_then greater o = greater
and_then equal o = o

-- `usize::cmp`.
abbrev pub cmp_ℕ : ℕ → ℕ → Order
cmp_ℕ a b = if ltb a b then less else if ltb b a then greater else equal

module _ {ℓ} {A : Type ℓ} where
  pub length-collect : (n : ℕ) (f : ℕ → A) → length (collect n f) ≡ n
  length-collect zero f = refl
  length-collect (suc n) f = ap suc (length-collect n (λ i. f (suc i)))

  pub length-replicate : (n : ℕ) (x : A) → length (replicate n x) ≡ n
  length-replicate zero x = refl
  length-replicate (suc n) x = ap suc (length-replicate n x)

  pub get_or-collect :
      (d : A) (n : ℕ) (f : ℕ → A) (i : ℕ) → get_or d (collect n f) i ≡ (if ltb i n then f i else d)
  get_or-collect d zero f i = ground arith
  get_or-collect d (suc n) f zero = ground arith
  get_or-collect d (suc n) f (suc i) = ground (arith, get_or-collect d n (λ i. f (suc i)) i)

  pub get_or-set :
      (d : A) (xs : List A) (i : ℕ) (v : A) (j : ℕ)
      → (get_or d (set xs i v) j ≡ get_or d xs j) ⊎ ((get_or d (set xs i v) j ≡ v) × (i ≡ j))
  get_or-set d [] i v j = inl refl
  get_or-set d (x ∷ xs) zero v zero = inr (refl, refl)
  get_or-set d (x ∷ xs) zero v (suc j) = inl refl
  get_or-set d (x ∷ xs) (suc i) v zero = inl refl
  get_or-set d (x ∷ xs) (suc i) v (suc j) = elim (get_or-set d xs i v j) [
    | inl e ↦ inl e
    | inr (e, h) ↦ inr (e, ap suc h)
  ]

  pub get_or-set_self :
      (d : A) (xs : List A) (i : ℕ) (v : A) → i < length xs → get_or d (set xs i v) i ≡ v
  get_or-set_self d [] i v h = absurd (omega arith)
  get_or-set_self d (x ∷ xs) zero v h = refl
  get_or-set_self d (x ∷ xs) (suc i) v h = get_or-set_self d xs i v (omega arith)

  pub get_or_beyond : (d : A) (xs : List A) (i : ℕ) → length xs ≤ i → get_or d xs i ≡ d
  get_or_beyond d [] i h = refl
  get_or_beyond d (x ∷ xs) zero h = absurd (omega arith)
  get_or_beyond d (x ∷ xs) (suc i) h = get_or_beyond d xs i (omega arith)

  pub get_or-replicate_self : (n : ℕ) (x : A) (i : ℕ) → get_or x (replicate n x) i ≡ x
  get_or-replicate_self zero x i = refl
  get_or-replicate_self (suc n) x zero = refl
  get_or-replicate_self (suc n) x (suc i) = get_or-replicate_self n x i
