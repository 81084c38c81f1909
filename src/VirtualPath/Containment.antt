-- ===== src/VirtualPath/Containment.antt =====
-- What src/agent/vfs/virtual_path.rs keeps inside a library.
use personal_productivity_ai.Common.{◌≡◌, refl, Bool, false, ◌&&◌, ◌⊎◌, List, ◌++◌}
use personal_productivity_ai.Common.Text.{Text, codes}
use personal_productivity_ai.VirtualPath.{
  ok, VirtualPath, ContentLibrary, has_parent, join, find_library, resolve, ResolvedVirtualPath,
}
use personal_productivity_ai.VirtualPath.Parts.{IsFirst, has_slash, IsFileOf}

-- A sub-path that begins with a slash, in a library that exists, is resolved to itself, wherever the
-- library lies.
pub resolve_absolute :
    (libraries : List ContentLibrary) (l : ContentLibrary) (lib sub : Text)
    → find_library lib libraries ≡ ok l
    → resolve libraries (record { library = lib; sub_path = codes "/" ++ sub })
      ≡ ok (codes "/" ++ sub)
unfolding resolve join
resolve_absolute libraries l lib sub h = rw h refl

-- The library and the path that a virtual path stands for. It is the name of the library alone, and the
-- path is the library's root; or it is the name, which has no slash, with a slash and a sub-path behind
-- it, and the path is that of the file, where no component of the sub-path is `..`.
abbrev pub Stands : Text → List ContentLibrary → ContentLibrary → Text → Type 0
Stands trimmed libraries l path =
    (IsFirst trimmed libraries l × (path ≡ l.root_folder))
    ⊎ ((name sub : Text) × (trimmed ≡ name ++ (codes "/" ++ sub))
        × (has_slash name ≡ false)
        × IsFirst name libraries l
        × (has_parent sub ≡ false)
        × IsFileOf (l.root_folder) sub path)

-- The library of a resolved path is not read-only where a write is meant.
abbrev pub Belongs : Text → Bool → List ContentLibrary → ResolvedVirtualPath → Type 0
Belongs trimmed allow_write libraries r =
    (l : ContentLibrary) × (r.readonly ≡ l.readonly)
    × ((allow_write && l.readonly) ≡ false)
    × Stands trimmed libraries l (r.path)
