-- ===== src/Sse/Reading.antt =====
-- An event that a server writes is read back: src/agent/lib/mcp/sse.rs.
use personal_productivity_ai.Common.{
  ℕ, ◌≡◌, refl, ap, sym, ◌∙◌, Bool, false, ◌||◌, none, List, [], ◌∷◌, ◌++◌, append_assoc,
  append-nil, ◌==◌, All, arith, if◌then◌else◌,
}
use personal_productivity_ai.Common.Text.{Text, codes}
use personal_productivity_ai.Common.Trim.{is_empty}
use personal_productivity_ai.Sse.{
  SseEvent, default_event, is_empty_event, cons_line, lines, strip_return, read_line, read_lines,
  parse_sse_body, set_field,
}

-- Whether the text has a line break.
unfoldable pub has_break : Text → Bool
has_break [] = false
has_break (c ∷ s) = c == 10 || has_break s

-- A text that stands on a line of its own: without a line break, and without a return at its end.
abbrev pub IsLine : Text → Type 0
IsLine s = (has_break s ≡ false) × (strip_return s ≡ s)

lines-append :
    (s rest : Text) → has_break s ≡ false → lines (s ++ (codes "\n" ++ rest)) ≡ s ∷ lines rest
unfolding lines has_break
lines-append [] rest h = refl
lines-append (c ∷ s) rest h =
    let n : (c == 10) ≡ false = ground (arith, h) in
    let m : has_break s ≡ false = ground (arith, h) in
    rw n (ap (cons_line c) (lines-append s rest m))

-- The lines of an event with these lines of data.
unfoldable pub print_data : List Text → Text → Text
print_data [] rest = rest
print_data (d ∷ ds) rest = codes "data: " ++ (d ++ (codes "\n" ++ print_data ds rest))

unfoldable pub joined : List Text → Text
joined [] = []
joined (d ∷ ds) = codes "\n" ++ (d ++ joined ds)

strip_return-data :
    (d : Text) → strip_return d ≡ d → strip_return (codes "data: " ++ d) ≡ codes "data: " ++ d
unfolding strip_return
strip_return-data [] h = refl
strip_return-data (c ∷ d) h = ap (λ (t : Text). codes "data: " ++ t) h

read_lines-data :
    (d : Text) (rest : List Text) (current : SseEvent)
    → strip_return d ≡ d
    → read_lines ((codes "data: " ++ d) ∷ rest) current
      ≡ read_lines rest (set_field (codes "data") d current)
unfolding read_lines
read_lines-data d rest current h =
    ap
      (λ (line : Text).
        if is_empty line
        then (if is_empty_event current
            then read_lines rest current
            else current ∷ read_lines rest default_event)
        else read_lines rest (read_line line current))
      (strip_return-data d h)

-- A line of data before the rest of a body.
read_body-data :
    (d rest : Text) (current : SseEvent)
    → IsLine d
    → read_lines (lines (codes "data: " ++ (d ++ (codes "\n" ++ rest)))) current
      ≡ read_lines (lines rest) (set_field (codes "data") d current)
unfolding has_break
read_body-data d rest current (b, r) =
    ap (λ ls. read_lines ls current) (lines-append (codes "data: " ++ d) rest b)
    ∙ read_lines-data d (lines rest) current r

-- The event of these data.
abbrev data_event : Text → SseEvent
data_event text = record { event = none; id = none; «data» = text }

read_body-more :
    (ds : List Text) (rest : Text) (c : ℕ) (text : Text)
    → All IsLine ds
    → read_lines (lines (print_data ds (codes "\n" ++ rest))) (data_event (c ∷ text))
      ≡ data_event ((c ∷ text) ++ joined ds) ∷ parse_sse_body rest
unfolding print_data joined parse_sse_body read_lines set_field
read_body-more [] rest c text h =
    ap (λ (t : Text). data_event (c ∷ t) ∷ parse_sse_body rest) (sym (append-nil text))
read_body-more (d ∷ ds) rest c text h =
    read_body-data d (print_data ds (codes "\n" ++ rest)) (data_event (c ∷ text)) (h.0)
    ∙ read_body-more ds rest c (text ++ (codes "\n" ++ d)) (h.1)
    ∙ ap (λ (t : Text). data_event (c ∷ t) ∷ parse_sse_body rest)
        (append_assoc text (codes "\n" ++ d) (joined ds))

-- An event that is written as lines of data, the first of which is not empty, and a blank line, is
-- read as one event whose data are these lines with line breaks between them, and what follows is
-- read as a body of its own.
pub parse_sse_body-print_data :
    (c : ℕ) (d : Text) (ds : List Text) (rest : Text)
    → All IsLine ((c ∷ d) ∷ ds)
    → parse_sse_body (print_data ((c ∷ d) ∷ ds) (codes "\n" ++ rest))
      ≡ record { event = none; id = none; «data» = (c ∷ d) ++ joined ds } ∷ parse_sse_body rest
unfolding parse_sse_body print_data set_field
parse_sse_body-print_data c d ds rest h =
    read_body-data (c ∷ d) (print_data ds (codes "\n" ++ rest)) default_event (h.0)
    ∙ read_body-more ds rest c d (h.1)
