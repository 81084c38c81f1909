-- ===== src/VirtualPath/Tests.antt =====
-- Paths resolved by src/agent/vfs/behaviour.rs in one writable library.
use personal_productivity_ai.Common.{◌≡◌, refl, true, false, List, [], ◌∷◌}
use personal_productivity_ai.Common.Text.{codes}
use personal_productivity_ai.Common.Int.{pos}
use personal_productivity_ai.VirtualPath.{
  ok, VirtualPath, ContentLibrary, parse, find_library, resolved, resolve_virtual_path,
}

abbrev notes : ContentLibrary
notes = record {
  root_folder = codes "/home/ada/notes";
  name = codes "Notes";
  kind = codes "text";
  readonly = false;
  priority = pos 0;
}

abbrev libraries : List ContentLibrary
libraries = notes ∷ []

abbrev plan : VirtualPath
plan = record { library = codes "Notes"; sub_path = codes "a/plan.md" }

parsed : parse (codes "Notes\\a/plan.md") ≡ ok plan
unfolding parse
parsed = refl

notes_found : find_library (codes "Notes") libraries ≡ ok notes
unfolding find_library
notes_found = refl

-- The doubled slash of a path reaches `resolve` as an absolute sub-path.
outside :
    resolve_virtual_path (codes "Notes//etc/passwd") true libraries
    ≡ resolved (record { path = codes "/etc/passwd"; readonly = false })
unfolding resolve_virtual_path
outside = refl
