-- ===== src/Editor/Undo/Tests.antt =====
-- Runs of the undo stack of src/app/ui/text_buffer.rs.
use personal_productivity_ai.Common.{◌≡◌, refl, some, [], ◌∷◌, arith}
use personal_productivity_ai.Common.Text.{codes}
use personal_productivity_ai.Editor.Undo.{
  UndoEntry, UndoStack, at_start, collapsed, with_capacity, push, undo, redo, edits, pushes, undoes,
  redoes,
}
use personal_productivity_ai.Editor.Undo.Bounds.{IsHistory, edits-with_capacity}
use personal_productivity_ai.Editor.Undo.History.{redo-undo}

abbrev first : UndoEntry
first = record { content = codes "a"; cursor = at_start; selection = collapsed at_start }

abbrev second : UndoEntry
second = record { content = codes "ab"; cursor = at_start; selection = collapsed at_start }

abbrev third : UndoEntry
third = record { content = codes "abc"; cursor = at_start; selection = collapsed at_start }

abbrev full : UndoStack
full = record { entries = first ∷ second ∷ []; position = some 1; capacity = 2 }

full-IsHistory : IsHistory full
full-IsHistory = omega arith

edits-with_capacity_example :
    IsHistory (edits (with_capacity 0) (pushes first ∷ pushes second ∷ undoes ∷ redoes ∷ []))
edits-with_capacity_example =
    edits-with_capacity 0 (pushes first ∷ pushes second ∷ undoes ∷ redoes ∷ [])

redo-undo_example : redo (record full { position = some 0 }) ≡ (full, some second)
unfolding undo
redo-undo_example = redo-undo full (record full { position = some 0 }) first full-IsHistory refl

evicts : push full third ≡ record full { entries = second ∷ third ∷ [] }
unfolding push
evicts = refl
