-- ===== src/Document/Tests.antt =====
-- Runs of src/app/markdown/document.rs, with a YAML parser that takes every text.
use personal_productivity_ai.Common.{ℕ, ◌≡◌, refl, inl, true, Option, some, List, [], ◌∷◌, ◌++◌}
use personal_productivity_ai.Common.Text.{Text, codes, is_prefix}
use personal_productivity_ai.Document.{to_string, parse, Parsers, new, updates, rewrites, toggles}
use personal_productivity_ai.Document.RoundTrip.{IsSkipped, parse-to_string, to_string-parse}
use personal_productivity_ai.Document.Revisions.{IsParsed, updates-new}

abbrev any_yaml : Text → Option Text
any_yaml = some

abbrev one_marker : Text → List (ℕ × ℕ)
one_marker md = (2, 5) ∷ []

abbrev parsers : Parsers Text Text
parsers = record { from_str = any_yaml; parse_events = λ t. t; task_markers = one_marker }

parse-to_string_example :
    (m : Text) × (codes "\n---\na: 1\n---\nbody"
      ≡ m ++ to_string (parse any_yaml (codes "\n---\na: 1\n---\nbody")))
    × IsSkipped m
parse-to_string_example = parse-to_string any_yaml (codes "\n---\na: 1\n---\nbody")

to_string-parse_example :
    to_string (parse any_yaml (codes "---\na: 1\n---\nbody")) ≡ codes "---\na: 1\n---\nbody"
unfolding is_prefix
to_string-parse_example = to_string-parse any_yaml (codes "---\na: 1\n---\nbody") (inl refl)

updates-new_example : IsParsed parsers (
    updates parsers
      (new parsers (codes "---\na\n---\n- [ ] milk"))
      (toggles 0 true ∷ rewrites (codes "x") ∷ []))
updates-new_example =
    updates-new parsers (codes "---\na\n---\n- [ ] milk")
      (toggles 0 true ∷ rewrites (codes "x") ∷ [])

-- The blank line before the block is lost.
leading_line : to_string (parse any_yaml (codes "\n---\na\n---\nb")) ≡ codes "---\na\n---\nb"
unfolding to_string parse
leading_line = refl
