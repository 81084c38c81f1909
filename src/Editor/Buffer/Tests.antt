-- ===== src/Editor/Buffer/Tests.antt =====
-- Runs of the text buffer of src/app/ui/text_buffer.rs.
use personal_productivity_ai.Common.{◌≡◌, refl, false, Option, none, some, [], ◌∷◌, ◌++◌}
use personal_productivity_ai.Common.Text.{Text, codes}
use personal_productivity_ai.Document.RoundTrip.{IsSkipped}
use personal_productivity_ai.Editor.Buffer.{
  new, open_file, close, save, wrote, published_updated, saved, byte_index, line_count,
}
use personal_productivity_ai.Editor.Buffer.Save.{save-open_file}

abbrev any_yaml : Text → Option Text
any_yaml = some

abbrev note : Text
note = codes "---\na\n---\nbody"

save-open_file_example :
    (m t : Text) × (note ≡ m ++ t)
    × IsSkipped m
    × (save (open_file any_yaml (λ _. false) new (codes "a.md") note none) none
        ≡ (close new, wrote (codes "a.md") t ∷ published_updated (codes "a.md") ∷ [], saved))
save-open_file_example = save-open_file any_yaml (λ _. false) new (codes "a.md") note none refl

after_accent : (byte_index (codes "aé b") 2 ≡ 3) × (line_count (codes "a\nb") ≡ 2)
unfolding byte_index line_count
after_accent = (refl, refl)
