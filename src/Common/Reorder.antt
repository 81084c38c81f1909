-- ===== src/Common/Reorder.antt =====
-- The orders in which the items of a list can come.
use mathlib.Core.List.{List, [], ◌∷◌, ◌++◌, map}
use mathlib.Core.Path.{◌≡◌, refl, ap, sym}
use native.Mathlib.Omega.{arith}
use personal_productivity_ai.Common.Lists.{length}

-- The second list has the items of the first, in any order.
pub data Reordering {ℓ} {A : Type ℓ} : List A → List A → Type ℓ where
  nil : Reordering [] []
  cons : {a b : A} {xs ys : List A} → a ≡ b → Reordering xs ys → Reordering (a ∷ xs) (b ∷ ys)
  swap :
      {a b c d : A} {xs ys : List A}
      → a ≡ d
      → b ≡ c
      → xs ≡ ys
      → Reordering (a ∷ b ∷ xs) (c ∷ d ∷ ys)
  trans : {xs ys zs : List A} → Reordering xs ys → Reordering ys zs → Reordering xs zs

module _ {ℓ} {A : Type ℓ} where
  pub reorder_refl : (xs : List A) → Reordering xs xs
  reorder_refl [] = nil
  reorder_refl (x ∷ xs) = cons refl (reorder_refl xs)

  pub reorder_sym : {xs ys : List A} → Reordering xs ys → Reordering ys xs
  reorder_sym nil = nil
  reorder_sym (cons e p) = cons (sym e) (reorder_sym p)
  reorder_sym (swap e f g) = swap (sym f) (sym e) (sym g)
  reorder_sym (trans p q) = trans (reorder_sym q) (reorder_sym p)

  pub reorder-append_right :
      {xs ys : List A} (zs : List A) → Reordering xs ys → Reordering (xs ++ zs) (ys ++ zs)
  reorder-append_right zs nil = reorder_refl zs
  reorder-append_right zs (cons e p) = cons e (reorder-append_right zs p)
  reorder-append_right zs (swap e f g) = swap e f (ap (λ l. l ++ zs) g)
  reorder-append_right zs (trans p q) =
      trans (reorder-append_right zs p) (reorder-append_right zs q)

  pub length-reorder : {xs ys : List A} → Reordering xs ys → length xs ≡ length ys
  length-reorder nil = refl
  length-reorder (cons e p) = omega (arith, length-reorder p)
  length-reorder (swap e f g) = omega (arith, ap length g)
  length-reorder (trans p q) = omega (arith, length-reorder p, length-reorder q)

  -- An item that is moved in front.
  pub reorder_middle : (x : A) (xs ys : List A) → Reordering (xs ++ (x ∷ ys)) (x ∷ (xs ++ ys))
  reorder_middle x [] ys = reorder_refl (x ∷ ys)
  reorder_middle x (z ∷ xs) ys = trans (cons refl (reorder_middle x xs ys)) (swap refl refl refl)

module _ {ℓ κ} {A : Type ℓ} {B : Type κ} where
  pub map-reorder :
      (f : A → B) {xs ys : List A} → Reordering xs ys → Reordering (map f xs) (map f ys)
  map-reorder f nil = nil
  map-reorder f (cons e p) = cons (ap f e) (map-reorder f p)
  map-reorder f (swap e g h) = swap (ap f e) (ap f g) (ap (map f) h)
  map-reorder f (trans p q) = trans (map-reorder f p) (map-reorder f q)
