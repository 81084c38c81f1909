-- ===== src/Common/Split.antt =====
-- Rust's `str::split_once` by a text: the parts before and after the first occurrence.
use personal_productivity_ai.Common.Tests.{◌==◌, if◌then◌else◌, Bool-cases}
use personal_productivity_ai.Common.Lists.{length, drop, drop_nil}
use personal_productivity_ai.Common.Text.{Text, is_prefix}
use Prim.Native.Nat.{ℕ, ◌≤◌}
use mathlib.Core.Bool.{true, false, ◌&&◌}
use mathlib.Core.Logic.{inl, inr}
use mathlib.Core.Option.{Option, none, some}
use mathlib.Core.Path.{◌≡◌, refl, sym, ap, subst, ◌∙◌}
use mathlib.Core.List.{[], ◌∷◌, ◌++◌, append_assoc}
use native.Mathlib.Omega.{arith}

abbrev cons_first : ℕ → Option (Text × Text) → Option (Text × Text)
cons_first c none = none
cons_first c (some (a, b)) = some (c ∷ a, b)

unfoldable pub split_once : Text → Text → Option (Text × Text)
unfolding is_prefix
split_once sep [] = if is_prefix sep [] then some ([], []) else none
split_once sep (c ∷ s) =
    if is_prefix sep (c ∷ s)
    then some ([], drop (length sep) (c ∷ s))
    else cons_first c (split_once sep s)

is_prefix-append-drop : (p s : Text) → is_prefix p s ≡ true → p ++ drop (length p) s ≡ s
unfolding is_prefix
is_prefix-append-drop [] s h = refl
is_prefix-append-drop (c ∷ p) [] h = cc
is_prefix-append-drop (c ∷ p) (d ∷ s) h = ground (arith, is_prefix-append-drop p s)

pub cons_first-some :
    (c : ℕ) (o : Option (Text × Text)) (x y : Text)
    → cons_first c o ≡ some (x, y)
    → (a : Text) × (x ≡ c ∷ a) × (o ≡ some (a, y))
cons_first-some c none x y h = cc
cons_first-some c (some (a, b)) x y h = (a, ground arith, ground arith)

pub split_once-append : (sep s a b : Text) → split_once sep s ≡ some (a, b) → s ≡ a ++ (sep ++ b)
unfolding split_once
split_once-append sep [] a b h = elim (Bool-cases (is_prefix sep [])) [
  | inl e ↦ ground (arith, is_prefix-append-drop sep [], drop_nil {A = ℕ} (length sep))
  | inr e ↦ absurd (ground (arith, e))
]
split_once-append sep (c ∷ s) a b h = elim (Bool-cases (is_prefix sep (c ∷ s))) [
  | inl e ↦ ground (arith, e, is_prefix-append-drop sep (c ∷ s))
  | inr e ↦
      let (x, p, q) = cons_first-some c (split_once sep s) a b (ground (arith, e)) in
      rw p (ap (λ (t : Text). c ∷ t) (split_once-append sep s x b q))
]

-- A text has its prefix or not by its first characters alone.
is_prefix-append :
    (p x s t : Text) → length p ≤ length x → is_prefix p (x ++ s) ≡ is_prefix p (x ++ t)
unfolding is_prefix
is_prefix-append [] x s t h = refl
is_prefix-append (c ∷ p) [] s t h = absurd (omega arith)
is_prefix-append (c ∷ p) (d ∷ x) s t h =
    ap (λ r. (c == d) && r) (is_prefix-append p x s t (omega arith))

length-le-append : (x y : Text) → length y ≤ length (x ++ y)
length-le-append [] y = omega arith
length-le-append (c ∷ x) y = omega (arith, length-le-append x y)

pub is_prefix_self : (p t : Text) → is_prefix p (p ++ t) ≡ true
unfolding is_prefix
is_prefix_self [] t = refl
is_prefix_self (c ∷ p) t = ground (arith, is_prefix_self p t)

drop-length-append : (p t : Text) → drop (length p) (p ++ t) ≡ t
drop-length-append [] t = refl
drop-length-append (c ∷ p) t = drop-length-append p t

pub split_once_self : (d : ℕ) (p t : Text) → split_once (d ∷ p) ((d ∷ p) ++ t) ≡ some ([], t)
unfolding split_once
split_once_self d p t = ground (arith, is_prefix_self (d ∷ p) t, drop-length-append (d ∷ p) t)

-- With `c` before the first occurrence, what stands behind it does not make one at `c`.
no_prefix_before :
    (sep a b t : Text) (c : ℕ)
    → is_prefix sep (c ∷ (a ++ (sep ++ b))) ≡ false
    → is_prefix sep (c ∷ (a ++ (sep ++ t))) ≡ false
no_prefix_before sep a b t c h =
    ap (λ x. is_prefix sep (c ∷ x)) (sym (append_assoc a sep t))
    ∙ is_prefix-append sep (c ∷ (a ++ sep)) t b (omega (arith, length-le-append (c ∷ a) sep))
    ∙ ap (λ x. is_prefix sep (c ∷ x)) (append_assoc a sep b)
    ∙ h

-- What stands behind the separator has no part in where the text is split.
pub split_once_tail :
    (d : ℕ) (p s a b t : Text)
    → split_once (d ∷ p) s ≡ some (a, b)
    → split_once (d ∷ p) (a ++ ((d ∷ p) ++ t)) ≡ some (a, t)
unfolding split_once
split_once_tail d p [] a b t h = cc
split_once_tail d p (c ∷ s) a b t h = elim (Bool-cases (is_prefix (d ∷ p) (c ∷ s))) [
  | inl e ↦
      subst (λ (x : Text). split_once (d ∷ p) (x ++ ((d ∷ p) ++ t)) ≡ some (x, t)) {x = []}
        (ground (arith, e)) (split_once_self d p t)
  | inr e ↦
      let (x, q, r) = cons_first-some c (split_once (d ∷ p) s) a b (ground (arith, e)) in
      let s-eq = split_once-append (d ∷ p) s x b r in
      let f =
        no_prefix_before (d ∷ p) x b t c
          (subst (λ (y : Text). is_prefix (d ∷ p) (c ∷ y) ≡ false) s-eq e) in
      rw (q, f, split_once_tail d p s x b t r)
]
