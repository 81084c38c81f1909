-- ===== src/Common/Trim.antt =====
-- Rust's `char::is_whitespace` (the Unicode property White_Space) and `str::trim`.
use personal_productivity_ai.Common.Tests.{leb, ◌==◌, if◌then◌else◌, Bool-cases}
use personal_productivity_ai.Common.Lists.{All}
use personal_productivity_ai.Common.Text.{Text}
use Prim.Native.Nat.{ℕ}
use mathlib.Core.Bool.{Bool, true, false, ◌&&◌, ◌||◌}
use mathlib.Core.Path.{◌≡◌, refl, sym, ap, ◌∙◌, subst}
use mathlib.Core.Logic.{inl, inr}
use mathlib.Core.List.{List, [], ◌∷◌, ◌++◌, reverse, reverse-reverse, reverse-append}

unfoldable pub is_whitespace : ℕ → Bool
is_whitespace c =
    (leb 9 c && leb c 13)
    || c == 32
    || c == 0x85
    || c == 0xa0
    || c == 0x1680
    || (leb 0x2000 c && leb c 0x200a)
    || c == 0x2028
    || c == 0x2029
    || c == 0x202f
    || c == 0x205f
    || c == 0x3000

unfoldable pub trim_start : Text → Text
unfolding is_whitespace
trim_start [] = []
trim_start (c ∷ s) = if is_whitespace c then trim_start s else c ∷ s

unfoldable pub trim_end : Text → Text
unfolding trim_start
trim_end s = reverse (trim_start (reverse s))

unfoldable pub trim : Text → Text
unfolding trim_end
trim s = trim_end (trim_start s)

unfoldable pub is_empty : Text → Bool
is_empty [] = true
is_empty (c ∷ s) = false

abbrev pub IsBlank : Text → Type 0
IsBlank = All (λ c. is_whitespace c ≡ true)

All-append {ℓ κ} :
    {A : Type ℓ} (P : A → Type κ) (xs ys : List A) → All P xs → All P ys → All P (xs ++ ys)
All-append P [] ys h k = k
All-append P (x ∷ xs) ys h k = (h.0, All-append P xs ys h.1 k)

All-reverse {ℓ κ} : {A : Type ℓ} (P : A → Type κ) (xs : List A) → All P xs → All P (reverse xs)
All-reverse P [] h = tt
All-reverse P (x ∷ xs) h =
    rw (reverse-append (x ∷ []) xs)
      (All-append P (reverse xs) (x ∷ []) (All-reverse P xs h.1) (h.0, tt))

IsBlank-of_trim_start : (s : Text) → IsBlank (trim_start s) → IsBlank s
unfolding trim_start
IsBlank-of_trim_start [] h = tt
IsBlank-of_trim_start (c ∷ s) h = elim (Bool-cases (is_whitespace c)) [
  | inl e ↦ (e, IsBlank-of_trim_start s (rw e at h))
  | inr e ↦ rw e at h
]

IsBlank-of_trim_end : (s : Text) → trim_end s ≡ [] → IsBlank s
unfolding trim_end
IsBlank-of_trim_end s h =
    let e : trim_start (reverse s) ≡ [] = sym (reverse-reverse _) ∙ ap reverse h in
    let b : IsBlank (reverse s) = IsBlank-of_trim_start (reverse s) (subst IsBlank (sym e) tt) in
    subst IsBlank (reverse-reverse s) (All-reverse _ (reverse s) b)

-- A text that trims to nothing is all white space.
pub IsBlank-of_trim : (s : Text) → trim s ≡ [] → IsBlank s
unfolding trim
IsBlank-of_trim s h = IsBlank-of_trim_start s (IsBlank-of_trim_end (trim_start s) h)

pub eq_nil_of_is_empty : (s : Text) → is_empty s ≡ true → s ≡ []
unfolding is_empty
eq_nil_of_is_empty [] h = refl
eq_nil_of_is_empty (c ∷ s) h = cc
