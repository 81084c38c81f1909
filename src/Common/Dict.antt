-- ===== src/Common/Dict.antt =====
-- Rust's `HashMap` with text keys, as an association list: a key that is written again keeps its
-- place. The program never relies on the order of a map's entries.
use mathlib.Core.Bool.{Bool, true, false}
use mathlib.Core.List.{List, [], ◌∷◌}
use mathlib.Core.Option.{Option, none, some}
use mathlib.Core.Path.{◌≡◌, refl, ap, ◌∙◌}
use native.Mathlib.Omega.{arith}
use personal_productivity_ai.Common.Tests.{if◌then◌else◌}
use personal_productivity_ai.Common.Text.{Text, text_eq, text_eq_iff}

module _ {ℓ} where
  abbrev pub Dict : Type ℓ → Type ℓ
  Dict V = List (Text × V)

module _ {ℓ} {V : Type ℓ} where
  -- `map.get(k)`
  unfoldable pub lookup : Text → Dict V → Option V
  unfolding text_eq
  lookup k [] = none
  lookup k ((j, v) ∷ m) = if text_eq j k then some v else lookup k m

  -- `map.insert(k, v)`
  unfoldable pub insert : Text → V → Dict V → Dict V
  unfolding text_eq
  insert k v [] = (k, v) ∷ []
  insert k v ((j, w) ∷ m) = if text_eq j k then (k, v) ∷ m else (j, w) ∷ insert k v m

  -- `map.remove(k)`
  unfoldable pub remove : Text → Dict V → Dict V
  unfolding text_eq
  remove k [] = []
  remove k ((j, v) ∷ m) = let rest = remove k m in if text_eq j k then rest else (j, v) ∷ rest

  -- `map.retain(|_, v| p(v))`
  unfoldable pub retain : (V → Bool) → Dict V → Dict V
  retain p [] = []
  retain p ((j, v) ∷ m) = let rest = retain p m in if p v then (j, v) ∷ rest else rest

  -- `map.contains_key(k)`
  unfoldable pub has_key : Text → Dict V → Bool
  unfolding text_eq
  has_key k [] = false
  has_key k ((j, v) ∷ m) = if text_eq j k then true else has_key k m

  -- No key stands twice, as in any hash map.
  abbrev pub IsMap : Dict V → Type 0
  IsMap [] = Unit
  IsMap ((k, v) ∷ m) = (has_key k m ≡ false) × IsMap m

  abbrev pub filter_option : (V → Bool) → Option V → Option V
  filter_option p none = none
  filter_option p (some v) = if p v then some v else none

module _ {ℓ} {V : Type ℓ} where
  pub lookup-insert :
      (k j : Text) (v : V) (m : Dict V)
      → lookup j (insert k v m) ≡ (if text_eq k j then some v else lookup j m)
  unfolding lookup insert
  lookup-insert k j v [] = refl
  lookup-insert k j v ((i, w) ∷ m) =
      ground (arith, text_eq_iff k j, text_eq_iff i k, text_eq_iff i j, lookup-insert k j v m)

  pub lookup-insert_other :
      (k j : Text) (v : V) (m : Dict V) → text_eq k j ≡ false → lookup j (insert k v m) ≡ lookup j m
  lookup-insert_other k j v m h =
      lookup-insert k j v m ∙ ap (λ b. if b then some v else lookup j m) h

  pub lookup-remove :
      (k j : Text) (m : Dict V) → lookup j (remove k m) ≡ (if text_eq k j then none else lookup j m)
  unfolding lookup remove
  lookup-remove k j [] = ground arith
  lookup-remove k j ((i, w) ∷ m) =
      ground (arith, text_eq_iff k j, text_eq_iff i k, text_eq_iff i j, lookup-remove k j m)

  pub lookup-has_key : (k : Text) (m : Dict V) → has_key k m ≡ false → lookup k m ≡ none
  unfolding lookup has_key
  lookup-has_key k [] h = refl
  lookup-has_key k ((j, v) ∷ m) h = ground (arith, lookup-has_key k m)

  pub has_key-retain :
      (p : V → Bool) (k : Text) (m : Dict V) → has_key k m ≡ false → has_key k (retain p m) ≡ false
  unfolding has_key retain
  has_key-retain p k [] h = refl
  has_key-retain p k ((j, v) ∷ m) h = ground (arith, has_key-retain p k m)

  pub lookup-retain :
      (p : V → Bool) (k : Text) (m : Dict V)
      → IsMap m
      → lookup k (retain p m) ≡ filter_option p (lookup k m)
  unfolding lookup retain
  lookup-retain p k [] h = refl
  lookup-retain p k ((j, v) ∷ m) h = ground (
    arith,
    lookup-retain p k m h.1,
    lookup-has_key j m h.0,
    lookup-has_key j (retain p m) (has_key-retain p j m h.0),
    text_eq_iff j k,
  )

  pub has_key-insert :
      (k j : Text) (v : V) (m : Dict V)
      → has_key j (insert k v m) ≡ (if text_eq k j then true else has_key j m)
  unfolding has_key insert
  has_key-insert k j v [] = refl
  has_key-insert k j v ((i, w) ∷ m) =
      ground (arith, text_eq_iff k j, text_eq_iff i k, text_eq_iff i j, has_key-insert k j v m)

  pub IsMap-insert : (k : Text) (v : V) (m : Dict V) → IsMap m → IsMap (insert k v m)
  unfolding insert has_key
  IsMap-insert k v [] h = (refl, tt)
  IsMap-insert k v ((j, w) ∷ m) h =
      ground
        (arith, text_eq_iff j k, text_eq_iff k j, IsMap-insert k v m h.1, has_key-insert k j v m)

  pub IsMap-retain : (p : V → Bool) (m : Dict V) → IsMap m → IsMap (retain p m)
  unfolding retain
  IsMap-retain p [] h = tt
  IsMap-retain p ((j, v) ∷ m) h = ground (arith, IsMap-retain p m h.1, has_key-retain p j m h.0)
