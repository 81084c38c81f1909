-- ===== src/Sse.antt =====
-- The parser of server-sent events: src/agent/lib/mcp/sse.rs.
pub mod Reading
mod Tests
use personal_productivity_ai.Common.{
  ℕ, Bool, true, false, ◌&&◌, Option, none, some, List, [], ◌∷◌, ◌++◌, ◌==◌, if◌then◌else◌,
}
use personal_productivity_ai.Common.Text.{Text, codes, text_eq}
use personal_productivity_ai.Common.Trim.{is_empty}
use personal_productivity_ai.Common.Split.{split_once}

pub record SseEvent : Type 0 where
  pub event : Option Text
  pub id : Option Text
  pub «data» : Text

abbrev pub default_event : SseEvent
default_event = record { event = none; id = none; «data» = [] }

abbrev pub is_none : Option Text → Bool
is_none none = true
is_none (some s) = false

-- `SseEvent::is_empty`
unfoldable pub is_empty_event : SseEvent → Bool
is_empty_event e = is_empty (e.«data») && (is_none (e.event) && is_none (e.id))

abbrev pub cons_line : ℕ → List Text → List Text
cons_line c [] = (c ∷ []) ∷ []
cons_line c (l ∷ ls) = (c ∷ l) ∷ ls

-- `body.split('\n')`
unfoldable pub lines : Text → List Text
lines [] = [] ∷ []
lines (c ∷ s) = if c == 10 then [] ∷ lines s else cons_line c (lines s)

-- `strip_suffix('\r')`, or the line itself.
unfoldable pub strip_return : Text → Text
strip_return [] = []
strip_return (c ∷ []) = if c == 13 then [] else c ∷ []
strip_return (c ∷ d ∷ s) = c ∷ strip_return (d ∷ s)

abbrev pub strip_space : Text → Text
strip_space [] = []
strip_space (c ∷ s) = if c == b' ' then s else c ∷ s

abbrev pub add_data : Text → Text → Text
add_data [] value = value
add_data (c ∷ before) value = (c ∷ before) ++ (codes "\n" ++ value)

unfoldable pub set_field : Text → Text → SseEvent → SseEvent
unfolding text_eq
set_field name value current =
    if text_eq name (codes "event")
    then record current { event = some value }
    else if text_eq name (codes "id")
    then record current { id = some value }
    else if text_eq name (codes "data")
    then record current { «data» = add_data (current.«data») value }
    else current

abbrev pub set_parts : Option (Text × Text) → SseEvent → SseEvent
set_parts none current = current
set_parts (some (name, value)) current = set_field name (strip_space value) current

abbrev pub is_comment : Text → Bool
is_comment [] = false
is_comment (c ∷ s) = c == b':'

-- A line that is not blank: a comment, a field or neither.
unfoldable pub read_line : Text → SseEvent → SseEvent
unfolding split_once set_field
read_line line current =
    if is_comment line then current else set_parts (split_once (codes ":") line) current

-- The loop over the lines, and the last event.
unfoldable pub read_lines : List Text → SseEvent → List SseEvent
unfolding is_empty_event strip_return read_line is_empty
read_lines [] current = if is_empty_event current then [] else current ∷ []
read_lines (raw_line ∷ rest) current =
    let line = strip_return raw_line in
    let skipped = read_lines rest current in
    let pushed = current ∷ read_lines rest default_event in
    let extended = read_lines rest (read_line line current) in
    if is_empty line then (if is_empty_event current then skipped else pushed) else extended

unfoldable pub parse_sse_body : Text → List SseEvent
unfolding lines read_lines
parse_sse_body body = read_lines (lines body) default_event
