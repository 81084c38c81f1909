-- ===== src/Editor/Undo/Bounds.antt =====
-- The undo stack of src/app/ui/text_buffer.rs stays within its capacity and points at an entry.
use personal_productivity_ai.Common.{
  ℕ, ◌+◌, ◌-◌, ◌≤◌, ◌<◌, ◌≡◌, refl, inl, inr, Option, none, some, List, [], ◌∷◌, ◌++◌, length,
  length-append, length-take, length-drop, length-set, arith, Bool-cases,
}
use personal_productivity_ai.Common.Text.{text_eq}
use personal_productivity_ai.Editor.Undo.{
  UndoEntry, UndoStack, with_capacity, current, without_redo, push_entry, push_over, push, undo,
  redo, Edit, pushes, undoes, redoes, clears, edit, edits,
}

-- A position names an entry; with no position there are no entries.
abbrev pub Placed : ℕ → Option ℕ → Type 0
Placed n none = n ≡ 0
Placed n (some pos) = pos < n

pub record IsHistory (s : UndoStack) : Type 0 where
  pub room : 1 ≤ s.capacity
  pub bounded : length s.entries ≤ s.capacity
  pub placed : Placed (length s.entries) s.position

length-without_redo : (es : List UndoEntry) (p : Option ℕ) → length (without_redo es p) ≤ length es
length-without_redo es none = omega arith
length-without_redo es (some pos) = omega (arith, length-take (pos + 1) es)

push_entry-IsHistory : (s : UndoStack) (e : UndoEntry) → 1 ≤ s.capacity → IsHistory (push_entry s e)
unfolding push_entry
push_entry-IsHistory s e r =
    let pushed = without_redo s.entries s.position ++ e ∷ [] in
    ground (
      arith,
      length-drop (length pushed - s.capacity) pushed,
      length-append (without_redo s.entries s.position) (e ∷ []),
    )

pub push-IsHistory : (s : UndoStack) (e : UndoEntry) → IsHistory s → IsHistory (push s e)
unfolding push
push-IsHistory s e v = over s.position (current s) refl
  where
    over : (p : Option ℕ) (c : Option UndoEntry) → s.position ≡ p → IsHistory (push_over s e p c)
    over none c h = push_entry-IsHistory s e v.room
    over (some pos) none h = push_entry-IsHistory s e v.room
    over (some pos) (some c) h = elim (Bool-cases (text_eq c.content e.content)) [
      | inl same ↦ rw same (
          let n = length-set s.entries pos (record e { content = c.content }) in
          record {
            room = v.room;
            bounded = omega (arith, n, v.bounded);
            placed = rw (n, h) (rw h at v.placed);
          })
      | inr differs ↦ rw differs (push_entry-IsHistory s e v.room)
    ]

undo-IsHistory : (s : UndoStack) → IsHistory s → IsHistory (undo s).0
unfolding undo
undo-IsHistory s v = ground arith

redo-IsHistory : (s : UndoStack) → IsHistory s → IsHistory (redo s).0
unfolding redo
redo-IsHistory s v = ground arith

edit-IsHistory : (s : UndoStack) (x : Edit) → IsHistory s → IsHistory (edit s x)
unfolding edit
edit-IsHistory s (pushes e) v = push-IsHistory s e v
edit-IsHistory s undoes v = undo-IsHistory s v
edit-IsHistory s redoes v = redo-IsHistory s v
edit-IsHistory s clears v = ground arith

edits-IsHistory : (s : UndoStack) (xs : List Edit) → IsHistory s → IsHistory (edits s xs)
unfolding edits
edits-IsHistory s [] v = v
edits-IsHistory s (x ∷ xs) v = edits-IsHistory (edit s x) xs (edit-IsHistory s x v)

-- Whatever is pushed, undone, redone or cleared on a fresh stack, for any capacity asked for: it
-- never holds more entries than its capacity, and its position names one of them, or it is empty.
pub edits-with_capacity : (n : ℕ) (xs : List Edit) → IsHistory (edits (with_capacity n) xs)
unfolding with_capacity
edits-with_capacity n xs = edits-IsHistory _ xs (omega arith)
