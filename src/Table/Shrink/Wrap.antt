-- ===== src/Table/Shrink/Wrap.antt =====
-- The wrap set: lines 395 to 425 of src/app/markdown/table_width/mod.rs
use personal_productivity_ai.Common.{ℕ, List, [], ◌∷◌, length, keep, if◌then◌else◌, Option}
use personal_productivity_ai.Table.{F32, cmp, sum, sum_from}
use personal_productivity_ai.Table.Columns.{collect, sort_by, max_by, and_then, cmp_ℕ}
use personal_productivity_ai.Table.Shrink.{slack}

module _ (f : F32) where
  -- The columns that have slack, those with the most first.
  unfoldable pub positives_of : List (f.F) → List (f.F) → List ℕ
  unfolding sort_by
  positives_of max_c min_c =
      sort_by (λ a b. and_then (cmp f (slack f max_c min_c b) (slack f max_c min_c a)) (cmp_ℕ a b))
        (keep (λ j. f.lt (f.zero_float) (slack f max_c min_c j)) (collect (length max_c) (λ j. j)))

  -- The columns are taken until their slack covers the deficit; with the slack that is taken.
  unfoldable pub take_until : List (f.F) → List (f.F) → f.F → f.F → List ℕ → List ℕ × f.F
  take_until max_c min_c deficit acc [] = ([], acc)
  take_until max_c min_c deficit acc (j ∷ js) =
      let sum = f.add acc (slack f max_c min_c j) in
      let (taken, total) = take_until max_c min_c deficit sum js in
      if f.le deficit sum then (j ∷ [], sum) else (j ∷ taken, total)

  -- The column with the most slack, and of several the first, for the drift.
  unfoldable pub deepest : List (f.F) → List (f.F) → List ℕ → Option ℕ
  unfolding max_by
  deepest max_c min_c wrap_set =
      max_by (λ a b. and_then (cmp f (slack f max_c min_c a) (slack f max_c min_c b)) (cmp_ℕ b a))
        wrap_set

  -- The wrap set that covers the deficit.
  unfoldable pub wrap_set_of : List (f.F) → List (f.F) → f.F → List ℕ
  unfolding positives_of take_until sum_from
  wrap_set_of max_c min_c available =
      (take_until max_c min_c (f.sub (sum f max_c) available) (f.zero_float)
        (positives_of max_c min_c)).0
