-- ===== src/Document/Toggle.antt =====
-- What `apply_task_toggle` of src/app/markdown/document.rs changes of a text.
use personal_productivity_ai.Common.{
  ℕ, suc, ◌+◌, ◌-◌, ◌≡◌, refl, ap, ◌∙◌, inl, inr, Bool, true, false, Option, none, some, List, [],
  ◌∷◌, ◌++◌, length, take, drop, get_elem?, leb, length-append, length-take, length-drop, arith,
  Bool-cases, Option-cases, leb→le, le→leb,
}
use personal_productivity_ai.Common.Text.{Text}
use personal_productivity_ai.Document.{
  find_char, toggle_found, or_else, marker, replace_marker, toggle_at, apply_task_toggle,
}

length-marker : (c : Bool) → length (marker c) ≡ 3
length-marker true = refl
length-marker false = refl

length-replace_marker :
    (md : Text) (c : Bool) (start : ℕ) → length (replace_marker md c start) ≡ length md
unfolding replace_marker
length-replace_marker md c start = elim (Bool-cases (leb (start + 3) (length md))) [
  | inl e ↦ rw e (
      omega (
        arith,
        leb→le _ _ e,
        length-append (take start md) (marker c ++ drop (start + 3) md),
        length-append (marker c) (drop (start + 3) md),
        length-marker c,
        length-take start md,
        length-drop (start + 3) md,
      ))
  | inr e ↦ rw e
]

length-toggle_at :
    (md : Text) (c : Bool) (range : ℕ × ℕ) → length (toggle_at md c range) ≡ length md
unfolding toggle_at
length-toggle_at md c (start, end) =
    at (
      or_else (find_char b'[' (take (end - start) (drop start md)))
        (find_char b'[' (drop start md)))
  where
    at : (o : Option ℕ) → length (toggle_found md c start o) ≡ length md
    at none = refl
    at (some off) = length-replace_marker md c (start + off)

drop-append_length : (x y : Text) → drop (length x) (x ++ y) ≡ y
drop-append_length [] y = refl
drop-append_length (c ∷ x) y = drop-append_length x y

take-append_length : (x y : Text) → take (length x) (x ++ y) ≡ x
take-append_length [] y = refl
take-append_length (c ∷ x) y = ap (λ (t : Text). c ∷ t) (take-append_length x y)

drop_three : (x y : Text) (a b c : ℕ) → drop (length x + 3) (x ++ (a ∷ b ∷ c ∷ y)) ≡ y
drop_three [] y a b c = refl
drop_three (d ∷ x) y a b c =
    ap (λ n. drop n (d ∷ (x ++ (a ∷ b ∷ c ∷ y)))) {y = suc (length x + 3)} (omega arith)
    ∙ drop_three x y a b c

replace_marker_lem :
    (x y : Text) (a b c : ℕ) (checked : Bool)
    → replace_marker (x ++ (a ∷ b ∷ c ∷ y)) checked (length x) ≡ x ++ (marker checked ++ y)
unfolding replace_marker
replace_marker_lem x y a b c checked =
    let t = a ∷ b ∷ c ∷ y in
    let e : leb (length x + 3) (length (x ++ t)) ≡ true =
      le→leb _ _ (omega (arith, length-append x t)) in
    rw (e, take-append_length x t, drop_three x y a b c)

toggle_at_lem :
    (x y : Text) (b c n : ℕ) (checked : Bool)
    → toggle_at (x ++ (b'[' ∷ b ∷ c ∷ y)) checked (length x, length x + suc n)
      ≡ x ++ (marker checked ++ y)
unfolding toggle_at
toggle_at_lem x y b c n checked =
    let e : length x + suc n - length x ≡ suc n = omega arith in
    let z : length x + 0 ≡ length x = omega arith in
    let md = x ++ (b'[' ∷ b ∷ c ∷ y) in
    let f : find_char b'[' (take (length x + suc n - length x) (drop (length x) md)) ≡ some 0 =
      ap (λ t. find_char b'[' (take (length x + suc n - length x) t))
        (drop-append_length x (b'[' ∷ b ∷ c ∷ y))
      ∙ ap (λ k. find_char b'[' (take k (b'[' ∷ b ∷ c ∷ y))) e in
    ap (λ o. toggle_found md checked (length x) (or_else o (find_char b'[' (drop (length x) md)))) f
    ∙ ap (replace_marker md checked) z
    ∙ replace_marker_lem x y b'[' b c checked

module _ (task_markers : Text → List (ℕ × ℕ)) where
  -- A toggle of any task, present or not, leaves the length of the text as it was.
  pub length-apply_task_toggle :
      (md : Text) (task_index : ℕ) (checked : Bool)
      → length (apply_task_toggle task_markers md task_index checked) ≡ length md
  unfolding apply_task_toggle
  length-apply_task_toggle md task_index checked =
      elim (Option-cases (get_elem? (task_markers md) task_index)) [
        | inl e ↦ rw (e, apply_task_toggle)
        | inr (range, e) ↦ rw (e, apply_task_toggle) (length-toggle_at md checked range)
      ]

  -- Where the parser reports the task's marker at a bracket, exactly that bracket and the two
  -- characters behind it are replaced, by the marker for the new state.
  pub apply_task_toggle_lem :
      (x y : Text) (b c n task_index : ℕ) (checked : Bool)
      → get_elem? (task_markers (x ++ (b'[' ∷ b ∷ c ∷ y))) task_index
        ≡ some (length x, length x + suc n)
      → apply_task_toggle task_markers (x ++ (b'[' ∷ b ∷ c ∷ y)) task_index checked
        ≡ x ++ (marker checked ++ y)
  unfolding apply_task_toggle
  apply_task_toggle_lem x y b c n task_index checked h =
      rw (h, apply_task_toggle) (toggle_at_lem x y b c n checked)
