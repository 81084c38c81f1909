-- ===== src/Editor/Buffer/Save.antt =====
-- Opening and saving a file in src/app/ui/text_buffer.rs.
use personal_productivity_ai.Common.{
  ◌≡◌, refl, Bool, true, false, Option, none, some, [], ◌∷◌, ◌++◌,
}
use personal_productivity_ai.Common.Text.{Text}
use personal_productivity_ai.Document.{parse, to_string}
use personal_productivity_ai.Document.RoundTrip.{IsSkipped, parse-to_string}
use personal_productivity_ai.Editor.Buffer.{
  TextBuffer, is_pdf_backed, open_file, close, save, wrote, published_updated, saved,
}

module _ {Yaml : Type 0} (from_str : Text → Option Yaml) (has_pdf_backing : Text → Bool) where
  -- A file that has no PDF behind it and is saved as it was opened is written once, at its path,
  -- with its old text less a prefix of byte order marks and white space; one update is published
  -- for it after the write, and the editor is closed and empty.
  pub save-open_file :
      (b : TextBuffer) (path raw : Text) (tracker : Option (Text → Bool))
      → is_pdf_backed tracker has_pdf_backing path ≡ false
      → (m t : Text) × (raw ≡ m ++ t)
        × IsSkipped m
        × (save (open_file from_str has_pdf_backing b path raw tracker) none
            ≡ (close b, wrote path t ∷ published_updated path ∷ [], saved))
  unfolding save open_file close
  save-open_file b path raw tracker h =
      let (m, e, s) = parse-to_string from_str raw in
      (m, to_string (parse from_str raw), e, s, rw h)

  -- While a PDF stands behind a file, opening it changes nothing but the error, so that a buffer
  -- with another file open still saves that file.
  pub save-open_file_refused :
      (b : TextBuffer) (path raw : Text) (tracker : Option (Text → Bool)) (failure : Option Text)
      → is_pdf_backed tracker has_pdf_backing path ≡ true
      → (save (open_file from_str has_pdf_backing b path raw tracker) failure).1
        ≡ (save b failure).1
  unfolding save open_file
  save-open_file_refused b path raw tracker none h = rw h
  save-open_file_refused b path raw tracker (some e) h = refl

-- A failed write loses nothing: nothing is published, the buffer is as before but for the error,
-- and a second try that succeeds writes what the first would have written.
pub save_retry :
    (b : TextBuffer) (e : Text)
    → ((save b (some e)).1 ≡ []) × (save (save b (some e)).0 none ≡ save b none)
unfolding save close
save_retry b e = (refl, refl)
