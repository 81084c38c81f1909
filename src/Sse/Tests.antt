-- ===== src/Sse/Tests.antt =====
-- Two events of a stream, read by src/agent/lib/mcp/sse.rs.
use personal_productivity_ai.Common.{◌≡◌, refl, none, List, [], ◌∷◌, ◌++◌, All}
use personal_productivity_ai.Common.Text.{Text, codes}
use personal_productivity_ai.Sse.{strip_return, parse_sse_body}
use personal_productivity_ai.Sse.Reading.{
  IsLine, has_break, print_data, joined, parse_sse_body-print_data,
}

abbrev more : List Text
more = codes "b" ∷ []

are_lines : All IsLine (codes "a" ∷ more)
unfolding has_break strip_return
are_lines = ((refl, refl), ((refl, refl), tt))

parse_sse_body-print_data_example :
    parse_sse_body (print_data (codes "a" ∷ more) (codes "\n" ++ codes "data: c\n"))
    ≡ record { event = none; id = none; «data» = codes "a" ++ joined more }
      ∷ parse_sse_body (codes "data: c\n")
parse_sse_body-print_data_example =
    parse_sse_body-print_data 97 [] more (codes "data: c\n") are_lines
