-- ===== src/Agent/Datamark.antt =====
-- The marks around untrusted text: src/agent/datamark.rs
use personal_productivity_ai.Common.{Bool, false, [], ◌∷◌, ◌++◌, ◌==◌, if◌then◌else◌}
use personal_productivity_ai.Common.Text.{Text, codes}

abbrev pub external_data_start : Text
external_data_start = codes "<<<EXTERNAL_DATA>>>"

abbrev pub external_data_end : Text
external_data_end = codes "<<<END_EXTERNAL_DATA>>>"

pub data Trust : Type 0 where
  untrusted : Trust

unfoldable pub as_str : Trust → Text
as_str untrusted = codes "untrusted"

pub data Provenance : Type 0 where
  tool : Text → Provenance
  user_md : Text → Provenance

unfoldable pub header_line : Provenance → Text
header_line (tool name) = codes "provenance=tool:" ++ name
header_line (user_md library) = codes "provenance=user_md library=" ++ library

abbrev pub ends_with_break : Text → Bool
ends_with_break [] = false
ends_with_break (c ∷ []) = c == 10
ends_with_break (c ∷ d ∷ s) = ends_with_break (d ∷ s)

unfoldable pub wrap : Provenance → Text → Text
unfolding header_line as_str
wrap provenance content =
    external_data_start
    ++ (codes "\n"
        ++ (header_line provenance
            ++ (codes " trust="
                ++ (as_str untrusted
                    ++ (codes "\n"
                        ++ (content
                            ++ ((if ends_with_break content then [] else codes "\n")
                                ++ external_data_end)))))))

unfoldable pub wrap_tool_result : Text → Text → Text
unfolding wrap
wrap_tool_result tool_name content = wrap (tool tool_name) content

unfoldable pub wrap_user_md : Text → Text → Text
unfolding wrap
wrap_user_md library content = wrap (user_md library) content
