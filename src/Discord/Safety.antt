-- ===== src/Discord/Safety.antt =====
-- src/app/integrations/discord/safety.rs
-- `to_lowercase` of the standard library is a parameter.
pub mod Blocked
use personal_productivity_ai.Common.{Bool, true, false, List, [], ◌∷◌, ◌++◌, if◌then◌else◌}
use personal_productivity_ai.Common.Text.{Text, contains_text}

pub record SafetyFilter : Type 0 where
  pub blocked_patterns : List Text

-- A blocked content comes with the pattern that its reason names.
pub data SafetyResult : Type 0 where
  safe : SafetyResult
  blocked : Text → SafetyResult

unfoldable pub new : SafetyFilter
new = record { blocked_patterns = [] }

unfoldable pub with_patterns : List Text → SafetyFilter
with_patterns patterns = record { blocked_patterns = patterns }

unfoldable pub add_pattern : Text → SafetyFilter → SafetyFilter
add_pattern pattern f = record { blocked_patterns = f.blocked_patterns ++ pattern ∷ [] }

unfoldable pub set_patterns : List Text → SafetyFilter → SafetyFilter
set_patterns patterns f = record { blocked_patterns = patterns }

unfoldable pub is_safe_result : SafetyResult → Bool
is_safe_result safe = true
is_safe_result (blocked pattern) = false

module _ (to_lowercase : Text → Text) where
  -- The first pattern that the content contains blocks it.
  unfoldable pub first_match : Text → List Text → SafetyResult
  unfolding contains_text
  first_match content_lower [] = safe
  first_match content_lower (pattern ∷ patterns) =
      if contains_text (to_lowercase pattern) content_lower
      then blocked pattern
      else first_match content_lower patterns

  unfoldable pub is_safe : Text → SafetyFilter → SafetyResult
  unfolding first_match
  is_safe content f = first_match (to_lowercase content) (f.blocked_patterns)
