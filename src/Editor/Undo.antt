-- ===== src/Editor/Undo.antt =====
-- `Cursor`, `Selection` and `UndoStack` of src/app/ui/text_buffer.rs.
pub mod Bounds
pub mod History
mod Tests
use personal_productivity_ai.Common.{
  ℕ, ◌+◌, ◌-◌, max, Bool, true, false, ◌&&◌, Option, none, some, List, [], ◌∷◌, ◌++◌, length, take,
  drop, set, get_elem?, ltb, leb, ◌==◌, if◌then◌else◌,
}
use personal_productivity_ai.Common.Text.{Text, text_eq}

pub record Cursor : Type 0 where
  pub line : ℕ
  pub column : ℕ
  pub char_index : ℕ

abbrev pub at_start : Cursor
at_start = record { line = 0; column = 0; char_index = 0 }

pub record Selection : Type 0 where
  pub anchor : Cursor
  pub head : Cursor

abbrev pub collapsed : Cursor → Selection
collapsed at = record { anchor = at; head = at }

pub record UndoEntry : Type 0 where
  pub content : Text
  pub cursor : Cursor
  pub selection : Selection

pub record UndoStack : Type 0 where
  pub entries : List UndoEntry
  pub position : Option ℕ
  pub capacity : ℕ

abbrev pub default_undo_capacity : ℕ
default_undo_capacity = 64

unfoldable pub with_capacity : ℕ → UndoStack
with_capacity capacity = record { entries = []; position = none; capacity = max capacity 1 }

unfoldable pub new : UndoStack
unfolding with_capacity
new = with_capacity default_undo_capacity

-- The entry at the position, if there is one.
abbrev pub entry_at : List UndoEntry → Option ℕ → Option UndoEntry
entry_at entries none = none
entry_at entries (some pos) = get_elem? entries pos

abbrev pub current : UndoStack → Option UndoEntry
current s = entry_at s.entries s.position

-- `self.entries.truncate(pos + 1)`, if there is a position.
abbrev pub without_redo : List UndoEntry → Option ℕ → List UndoEntry
without_redo entries none = entries
without_redo entries (some pos) = take (pos + 1) entries

-- The oldest entries are drained when there are more than `capacity`.
pub evict : ℕ → List UndoEntry → List UndoEntry
evict capacity es = if ltb capacity (length es) then drop (length es - capacity) es else es

-- `push` behind the test for unchanged content.
pub push_entry : UndoStack → UndoEntry → UndoStack
unfolding evict
push_entry s e =
    let kept = evict s.capacity (without_redo s.entries s.position ++ e ∷ []) in
    record s { entries = kept; position = some (length kept - 1) }

-- The test `current.content == content`; on success the entry at `pos` takes the cursor.
pub push_over : UndoStack → UndoEntry → Option ℕ → Option UndoEntry → UndoStack
unfolding push_entry text_eq
push_over s e (some pos) (some c) =
    if text_eq c.content e.content
    then record s {
      entries = set s.entries pos (record c { cursor = e.cursor; selection = e.selection });
    }
    else push_entry s e
push_over s e _ _ = push_entry s e

pub push : UndoStack → UndoEntry → UndoStack
unfolding push_over
push s e = push_over s e s.position (current s)

abbrev undo_possible : Option ℕ → Bool
undo_possible none = false
undo_possible (some pos) = ltb 0 pos

pub can_undo : UndoStack → Bool
can_undo s = undo_possible s.position

abbrev redo_possible : ℕ → Option ℕ → Bool
redo_possible n none = false
redo_possible n (some pos) = ltb (pos + 1) n

pub can_redo : UndoStack → Bool
can_redo s = redo_possible (length s.entries) s.position

undo_from : UndoStack → Option ℕ → UndoStack × Option UndoEntry
undo_from s none = (s, none)
undo_from s (some pos) =
    if pos == 0
    then (s, none)
    else (record s { position = some (pos - 1) }, get_elem? s.entries (pos - 1))

-- The stack after the move, and the entry that the buffer is to restore.
pub undo : UndoStack → UndoStack × Option UndoEntry
unfolding undo_from
undo s = undo_from s s.position

redo_from : UndoStack → Option ℕ → UndoStack × Option UndoEntry
redo_from s none = (s, none)
redo_from s (some pos) =
    if leb (length s.entries) (pos + 1)
    then (s, none)
    else (record s { position = some (pos + 1) }, get_elem? s.entries (pos + 1))

pub redo : UndoStack → UndoStack × Option UndoEntry
unfolding redo_from
redo s = redo_from s s.position

unfoldable pub clear : UndoStack → UndoStack
clear s = record s { entries = []; position = none }

-- What the editor asks of its history.
pub data Edit : Type 0 where
  pushes : UndoEntry → Edit
  undoes redoes clears : Edit

pub edit : UndoStack → Edit → UndoStack
unfolding push undo redo clear
edit s (pushes e) = push s e
edit s undoes = (undo s).0
edit s redoes = (redo s).0
edit s clears = clear s

pub edits : UndoStack → List Edit → UndoStack
unfolding edit
edits s [] = s
edits s (x ∷ xs) = edits (edit s x) xs
