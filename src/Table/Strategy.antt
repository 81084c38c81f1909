-- ===== src/Table/Strategy.antt =====
-- The strategies and their names in the configuration: lines 47 to 116 of
-- src/app/markdown/table_width/mod.rs
use personal_productivity_ai.Common.{◌≡◌, refl, Bool, false, ◌||◌, List, [], ◌∷◌, if◌then◌else◌}
use personal_productivity_ai.Common.Text.{Text, codes, text_eq}

pub data DeficitStrategy : Type 0 where
  proportional_to_slack breakpoint_water_fill water_fill_ratio lagrange_penalty
        hybrid_min_penalty_water_fill :
      DeficitStrategy

abbrev is_one_of : Text → List Text → Bool
is_one_of s [] = false
is_one_of s (t ∷ ts) = text_eq s t || is_one_of s ts

unfoldable pub from_config : Text → DeficitStrategy
unfolding text_eq
from_config s =
    if is_one_of s (codes "proportional" ∷ codes "prop" ∷ [])
    then proportional_to_slack
    else if is_one_of s
        (codes "waterfill" ∷ codes "water-fill" ∷ codes "water_fill" ∷ codes "wf" ∷ [])
    then breakpoint_water_fill
    else if is_one_of s (codes "ratio" ∷ codes "waterfill-ratio" ∷ codes "waterfill_ratio" ∷ [])
    then water_fill_ratio
    else if is_one_of s
        (codes "lagrange" ∷ codes "lagrange-penalty" ∷ codes "lagrange_penalty" ∷ codes "lp" ∷ [])
    then lagrange_penalty
    else if is_one_of s (
        codes "hybrid" ∷ codes "hybrid-min-penalty" ∷ codes "hybrid_min_penalty" ∷ codes "hmp" ∷ [])
    then hybrid_min_penalty_water_fill
    else hybrid_min_penalty_water_fill

unfoldable pub to_config : DeficitStrategy → Text
to_config proportional_to_slack = codes "proportional"
to_config breakpoint_water_fill = codes "waterfill"
to_config water_fill_ratio = codes "ratio"
to_config lagrange_penalty = codes "lagrange"
to_config hybrid_min_penalty_water_fill = codes "hybrid"

-- A strategy that is written to the configuration is read back as the same.
pub from_config-to_config : (s : DeficitStrategy) → from_config (to_config s) ≡ s
unfolding from_config to_config text_eq
from_config-to_config proportional_to_slack = refl
from_config-to_config breakpoint_water_fill = refl
from_config-to_config water_fill_ratio = refl
from_config-to_config lagrange_penalty = refl
from_config-to_config hybrid_min_penalty_water_fill = refl
