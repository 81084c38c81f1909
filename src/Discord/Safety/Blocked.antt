-- ===== src/Discord/Safety/Blocked.antt =====
-- What a pattern added to the filter of src/app/integrations/discord/safety.rs changes.
use personal_productivity_ai.Common.{
  ◌≡◌, refl, inl, inr, List, [], ◌∷◌, ◌++◌, Bool-cases, if◌then◌else◌,
}
use personal_productivity_ai.Common.Text.{Text, contains_text}
use personal_productivity_ai.Discord.Safety.{
  SafetyFilter, SafetyResult, safe, blocked, add_pattern, is_safe, first_match,
}

module _ (to_lowercase : Text → Text) where
  -- The result where a further pattern follows.
  abbrev pub or_else : SafetyResult → SafetyResult → SafetyResult
  or_else safe next = next
  or_else (blocked p) next = blocked p

  first_match-append :
      (content : Text) (ps qs : List Text)
      → first_match to_lowercase content (ps ++ qs)
        ≡ or_else (first_match to_lowercase content ps) (first_match to_lowercase content qs)
  unfolding first_match
  first_match-append content [] qs = refl
  first_match-append content (p ∷ ps) qs =
      elim (Bool-cases (contains_text (to_lowercase p) content)) [
        | inl e ↦ rw e refl
        | inr e ↦ rw e (first_match-append content ps qs)
      ]

  -- A pattern added at runtime leaves every content that was blocked blocked for the same reason, and
  -- of the others blocks those that contain it, upper and lower case being taken as the same.
  pub is_safe-add_pattern :
      (content pattern : Text) (f : SafetyFilter)
      → is_safe to_lowercase content (add_pattern pattern f)
        ≡ or_else (is_safe to_lowercase content f) (
            if contains_text (to_lowercase pattern) (to_lowercase content)
            then blocked pattern
            else safe)
  unfolding is_safe add_pattern first_match
  is_safe-add_pattern content pattern f =
      first_match-append (to_lowercase content) (f.blocked_patterns) (pattern ∷ [])
