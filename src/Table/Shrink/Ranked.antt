-- ===== src/Table/Shrink/Ranked.antt =====
-- The order of the columns that the wrap set is taken from: src/app/markdown/table_width/mod.rs
use personal_productivity_ai.Common.{
  ◌≡◌, refl, ℕ, ◌≤◌, true, false, List, [], ◌∷◌, length, keep, Bool-cases, inl, inr, ◌⊎◌, arith,
}
use personal_productivity_ai.Common.Reorder.{Reordering, nil, cons, swap, trans, reorder_refl}
use personal_productivity_ai.Table.{F32, IsIeee, cmp, Order, less, equal, greater}
use personal_productivity_ai.Table.Columns.{collect, insert_by, sort_by, and_then, cmp_ℕ}
use personal_productivity_ai.Table.Shrink.{slack}
use personal_productivity_ai.Table.Shrink.Wrap.{positives_of}

Order-cases : (o : Order) → (o ≡ greater) ⊎ ((o ≡ less) ⊎ (o ≡ equal))
Order-cases less = inr (inl refl)
Order-cases equal = inr (inr refl)
Order-cases greater = inl refl

module _ {A : Type 0} (order : A → A → Order) where
  insert_by-reorder : (x : A) (ys : List A) → Reordering (insert_by order x ys) (x ∷ ys)
  unfolding insert_by
  insert_by-reorder x [] = reorder_refl (x ∷ [])
  insert_by-reorder x (y ∷ ys) = elim (Order-cases (order x y)) [
    | inl e ↦ rw (e, insert_by) (trans (cons refl (insert_by-reorder x ys)) (swap refl refl refl))
    | inr (inl e) ↦ rw (e, insert_by) (reorder_refl (x ∷ y ∷ ys))
    | inr (inr e) ↦ rw (e, insert_by) (reorder_refl (x ∷ y ∷ ys))
  ]

  sort_by-reorder : (xs : List A) → Reordering (sort_by order xs) xs
  unfolding sort_by
  sort_by-reorder [] = nil
  sort_by-reorder (x ∷ xs) =
      trans (insert_by-reorder x (sort_by order xs)) (cons refl (sort_by-reorder xs))

-- Each item may come before the next one.
abbrev pub IsSorted : {A : Type 0} → (A → A → Type 0) → List A → Type 0
IsSorted R [] = Unit
IsSorted R (x ∷ []) = Unit
IsSorted R (x ∷ y ∷ ys) = R x y × IsSorted R (y ∷ ys)

module _ {A : Type 0} (order : A → A → Order) (R : A → A → Type 0)
    (later : (x y : A) → order x y ≡ greater → R y x)
    (sooner : (x y : A) → (order x y ≡ less) ⊎ (order x y ≡ equal) → R x y) where
  insert_by_after :
      (y x : A) (ys : List A) → R y x → IsSorted R (y ∷ ys) → IsSorted R (y ∷ insert_by order x ys)
  unfolding insert_by
  insert_by_after y x [] h s = (h, _)
  insert_by_after y x (z ∷ ys) h (g, s) = elim (Order-cases (order x z)) [
    | inl e ↦ rw (e, insert_by, IsSorted) (g, insert_by_after z x ys (later x z e) s)
    | inr (inl e) ↦ rw (e, insert_by, IsSorted) (h, (sooner x z (inl e), s))
    | inr (inr e) ↦ rw (e, insert_by, IsSorted) (h, (sooner x z (inr e), s))
  ]

  insert_by-IsSorted : (x : A) (ys : List A) → IsSorted R ys → IsSorted R (insert_by order x ys)
  unfolding insert_by
  insert_by-IsSorted x [] s = _
  insert_by-IsSorted x (z ∷ ys) s = elim (Order-cases (order x z)) [
    | inl e ↦ rw (e, insert_by, IsSorted) (insert_by_after z x ys (later x z e) s)
    | inr (inl e) ↦ rw (e, insert_by, IsSorted) (sooner x z (inl e), s)
    | inr (inr e) ↦ rw (e, insert_by, IsSorted) (sooner x z (inr e), s)
  ]

  sort_by-IsSorted : (xs : List A) → IsSorted R (sort_by order xs)
  unfolding sort_by
  sort_by-IsSorted [] = _
  sort_by-IsSorted (x ∷ xs) = insert_by-IsSorted x (sort_by order xs) (sort_by-IsSorted xs)

module _ (f : F32) (max_c min_c : List (f.F)) where
  -- The first column has no less slack than the second, and of two that compare the same it is no later one.
  abbrev pub IsBefore : ℕ → ℕ → Type 0
  IsBefore a b =
      (f.lt (slack f max_c min_c a) (slack f max_c min_c b) ≡ false)
      × ((f.lt (slack f max_c min_c b) (slack f max_c min_c a) ≡ true) ⊎ (a ≤ b))

  -- The columns with slack, each once, by their slack.
  pub record IsRanked (js : List ℕ) : Type 0 where
    pub with_slack :
        Reordering js (
          keep (λ j. f.lt (f.zero_float) (slack f max_c min_c j)) (collect (length max_c) (λ j. j)))
    pub sorted : IsSorted IsBefore js

  module _ (laws : IsIeee f) where
    abbrev order : ℕ → ℕ → Order
    order a b = and_then (cmp f (slack f max_c min_c b) (slack f max_c min_c a)) (cmp_ℕ a b)

    later : (a b : ℕ) → order a b ≡ greater → IsBefore b a
    later a b h =
        let asym = laws.lt_asym (slack f max_c min_c a) (slack f max_c min_c b) in
        elim (Bool-cases (f.lt (slack f max_c min_c a) (slack f max_c min_c b))) [
          | inl e ↦ (asym e, inl e)
          | inr e ↦ (ground (arith, e), inr (ground (arith, e)))
        ]

    sooner : (a b : ℕ) → (order a b ≡ less) ⊎ (order a b ≡ equal) → IsBefore a b
    sooner a b h =
        let asym = laws.lt_asym (slack f max_c min_c b) (slack f max_c min_c a) in
        elim (Bool-cases (f.lt (slack f max_c min_c b) (slack f max_c min_c a))) [
          | inl e ↦ (asym e, inl e)
          | inr e ↦ (ground (arith, e), inr (ground (arith, e)))
        ]

    pub positives_of-IsRanked : IsRanked (positives_of f max_c min_c)
    unfolding positives_of
    positives_of-IsRanked = record {
      with_slack = sort_by-reorder order _;
      sorted = sort_by-IsSorted order IsBefore later sooner (
          keep (λ j. f.lt (f.zero_float) (slack f max_c min_c j))
            (collect (length max_c) (λ j. j)));
    }
