-- ===== src/Editor/Buffer.antt =====
-- `TextBuffer` of src/app/ui/text_buffer.rs. The file system and the event bus are what the calls
-- return: `save` lists its effects, and the outcome of `fs::write` is an argument, as are the two
-- tests for a PDF behind the file.
pub mod Save
pub mod Positions
mod Tests
use personal_productivity_ai.Common.{
  ℕ, zero, suc, ◌+◌, Bool, true, false, Option, none, some, List, [], ◌∷◌, ◌++◌, ltb, ◌==◌,
  if◌then◌else◌,
}
use personal_productivity_ai.Common.Text.{Text, codes}
use personal_productivity_ai.Document.{DocumentContent, parse, to_string}
use personal_productivity_ai.Editor.Undo.{Cursor, Selection, UndoStack, at_start, collapsed, clear}
use personal_productivity_ai.Editor.Undo

pub record TextBuffer : Type 0 where
  pub is_open : Bool
  pub content : Text
  pub front_matter : Option Text
  pub file_path : Text
  pub error_message : Option Text
  pub cursor : Cursor
  pub selection : Selection
  pub undo_stack : UndoStack

pub new : TextBuffer
unfolding Undo.new
new = record {
  is_open = false;
  content = [];
  front_matter = none;
  file_path = [];
  error_message = none;
  cursor = at_start;
  selection = collapsed at_start;
  undo_stack = Undo.new;
}

abbrev pub pdf_backed_error : Text
pdf_backed_error =
    codes
      "This file is auto-generated from a PDF and cannot be edited directly. Use write_yaml_header to modify front-matter."

-- `pdf_backing.map(..).unwrap_or_else(..)`
abbrev pub is_pdf_backed : Option (Text → Bool) → (Text → Bool) → Text → Bool
is_pdf_backed (some tracker) has_pdf_backing path = tracker path
is_pdf_backed none has_pdf_backing path = has_pdf_backing path

module _ {Yaml : Type 0} (from_str : Text → Option Yaml) (has_pdf_backing : Text → Bool) where
  pub open_file : TextBuffer → Text → Text → Option (Text → Bool) → TextBuffer
  unfolding parse clear
  open_file b file_path raw_content pdf_backing =
      let doc = parse from_str raw_content in
      if is_pdf_backed pdf_backing has_pdf_backing file_path
      then record b { error_message = some pdf_backed_error }
      else record {
        is_open = true;
        content = doc.body;
        front_matter = doc.front_matter;
        file_path = file_path;
        error_message = none;
        cursor = at_start;
        selection = collapsed at_start;
        undo_stack = clear b.undo_stack;
      }

pub close : TextBuffer → TextBuffer
unfolding clear
close b = record {
  is_open = false;
  content = [];
  front_matter = none;
  file_path = [];
  error_message = none;
  cursor = at_start;
  selection = collapsed at_start;
  undo_stack = clear b.undo_stack;
}

-- What a save does outside the buffer, in order.
pub data Effect : Type 0 where
  wrote : Text → Text → Effect
  published_updated : Text → Effect

pub data SaveResult : Type 0 where
  saved : SaveResult
  failed : Text → SaveResult

abbrev pub save_error : Text → Text
save_error e = codes "Failed to save: " ++ e

-- `failure` is the error of `fs::write`, if it returns one; what a failed write leaves in the file
-- is not modelled.
pub save : TextBuffer → Option Text → TextBuffer × List Effect × SaveResult
unfolding to_string close
save b (some e) = (record b { error_message = some (save_error e) }, [], failed (save_error e))
save b none =
    let full_text = to_string (record { front_matter = b.front_matter; body = b.content }) in
    (close b, wrote b.file_path full_text ∷ published_updated b.file_path ∷ [], saved)

pub set_cursor : TextBuffer → ℕ → ℕ → ℕ → TextBuffer
set_cursor b line column char_index = record b {
  cursor = record { line = line; column = column; char_index = char_index };
}

-- `char::len_utf8`
unfoldable pub len_utf8 : ℕ → ℕ
len_utf8 c = if ltb c 0x80 then 1 else if ltb c 0x800 then 2 else if ltb c 0x10000 then 3 else 4

-- `content.len()`, in bytes.
unfoldable pub byte_len : Text → ℕ
unfolding len_utf8
byte_len [] = 0
byte_len (c ∷ s) = len_utf8 c + byte_len s

-- `content.char_indices().nth(n).map(|(i, _)| i)`, from the byte offset `i` on.
nth_offset : ℕ → ℕ → Text → Option ℕ
unfolding len_utf8
nth_offset i n [] = none
nth_offset i zero (c ∷ s) = some i
nth_offset i (suc n) (c ∷ s) = nth_offset (i + len_utf8 c) n s

abbrev or_len : ℕ → Option ℕ → ℕ
or_len n none = n
or_len n (some i) = i

pub byte_index : Text → ℕ → ℕ
unfolding nth_offset byte_len
byte_index content char_index = or_len (byte_len content) (nth_offset 0 char_index content)

unfoldable pub count_newlines : Text → ℕ
count_newlines [] = 0
count_newlines (c ∷ s) = (if c == b'\n' then 1 else 0) + count_newlines s

pub line_count : Text → ℕ
unfolding count_newlines
line_count [] = 0
line_count (c ∷ s) = count_newlines (c ∷ s) + 1
