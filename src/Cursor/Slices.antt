-- ===== src/Cursor/Slices.antt =====
-- Facts on the slice `&items[lo..hi]` of src/agent/tools/cursor.rs.
use personal_productivity_ai.Common.{
  ℕ, ◌+◌, ◌-◌, ◌≤◌, ◌≡◌, sym, ap, ◌∙◌, List, [], ◌∷◌, ◌++◌, zero, suc, length, take, drop, take_all,
  drop_nil, length-take, length-drop, take-append-drop, arith,
}
use personal_productivity_ai.Cursor.{slice}

module _ {ℓ} {A : Type ℓ} where
  drop-drop : (m n : ℕ) (xs : List A) → drop m (drop n xs) ≡ drop (n + m) xs
  drop-drop m zero xs = ap (λ k. drop k xs) {x = m} (omega arith)
  drop-drop m (suc n) [] = drop_nil m ∙ sym (drop_nil (suc n + m))
  drop-drop m (suc n) (x ∷ xs) =
      drop-drop m n xs ∙ ap (λ k. drop k (x ∷ xs)) {x = suc (n + m)} (omega arith)

  pub slice-append-drop :
      (lo hi : ℕ) (xs : List A) → lo ≤ hi → slice xs lo hi ++ drop hi xs ≡ drop lo xs
  unfolding slice
  slice-append-drop lo hi xs h =
      ap (λ t. take (hi - lo) (drop lo xs) ++ t)
        (ap (λ k. drop k xs) {x = hi} {y = lo + (hi - lo)} (omega arith)
          ∙ sym (drop-drop (hi - lo) lo xs))
      ∙ take-append-drop (hi - lo) (drop lo xs)

  pub length-slice :
      (lo hi : ℕ) (xs : List A) → lo ≤ hi → hi ≤ length xs → length (slice xs lo hi) ≡ hi - lo
  unfolding slice
  length-slice lo hi xs h k = omega (arith, length-take (hi - lo) (drop lo xs), length-drop lo xs)

  pub slice_end : (lo : ℕ) (xs : List A) → slice xs lo (length xs) ≡ drop lo xs
  unfolding slice
  slice_end lo xs = take_all (length xs - lo) (drop lo xs) (omega (arith, length-drop lo xs))
