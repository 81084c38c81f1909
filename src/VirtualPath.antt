-- ===== src/VirtualPath.antt =====
-- Virtual paths: src/agent/vfs/virtual_path.rs, with `resolve` and `is_writable` of a content library
-- from src/agent/config.rs, and `resolve` and
-- `resolve_writable` of src/agent/vfs/behaviour.rs. Paths are Unix paths: `Path::components` splits at slashes, and `join`
-- with an absolute path drops the path before it.
pub mod Parts
pub mod Containment
mod Tests
use personal_productivity_ai.Common.{
  ℕ, Bool, true, false, not, ◌||◌, ◌&&◌, Option, none, some, List, [], ◌∷◌, ◌++◌, ◌==◌,
  if◌then◌else◌,
}
use personal_productivity_ai.Common.Text.{Text, codes, text_eq}
use personal_productivity_ai.Common.Int.{ℤ}
use personal_productivity_ai.Common.Trim.{is_empty}
use personal_productivity_ai.Common.Split.{split_once}

pub data Error : Type 0 where
  empty_path traversal_detected library_empty sub_path_empty separator_missing : Error
  library_not_found : Text → Error

pub data Result {ℓ} (A : Type ℓ) : Type ℓ where
  ok : A → Result A
  err : Error → Result A

pub record VirtualPath : Type 0 where
  pub library : Text
  pub sub_path : Text

pub record ContentLibrary : Type 0 where
  pub root_folder : Text
  pub name : Text
  pub kind : Text
  pub readonly : Bool
  pub priority : ℤ

-- `vpath.replace('\\', "/")`
unfoldable pub normalized : Text → Text
normalized [] = []
normalized (c ∷ s) = (if c == b'\\' then b'/' else c) ∷ normalized s

-- The first component of a path, and the others.
unfoldable pub components : Text → Text × List Text
components [] = ([], [])
components (c ∷ s) =
    let (first, rest) = components s in if c == b'/' then ([], first ∷ rest) else (c ∷ first, rest)

unfoldable pub any_parent : List Text → Bool
unfolding text_eq
any_parent [] = false
any_parent (c ∷ cs) = text_eq c (codes "..") || any_parent cs

-- Whether a component of the path is `..`.
unfoldable pub has_parent : Text → Bool
unfolding components any_parent
has_parent path = let (first, rest) = components path in any_parent (first ∷ rest)

-- The two parts of the path at its first slash.
abbrev pub split_parts : Option (Text × Text) → Result VirtualPath
split_parts none = err separator_missing
split_parts (some ([], sub)) = err library_empty
split_parts (some (c ∷ lib, [])) = err sub_path_empty
split_parts (some (c ∷ lib, d ∷ sub)) = ok (record { library = c ∷ lib; sub_path = d ∷ sub })

unfoldable pub parse : Text → Result VirtualPath
unfolding is_empty normalized has_parent split_once
parse vpath =
    if is_empty vpath
    then err empty_path
    else if has_parent (normalized vpath)
    then err traversal_detected
    else split_parts (split_once (codes "/") (normalized vpath))

abbrev pub is_absolute : Text → Bool
is_absolute [] = false
is_absolute (c ∷ s) = c == b'/'

abbrev pub ends_with_slash : Text → Bool
ends_with_slash [] = false
ends_with_slash (c ∷ []) = c == b'/'
ends_with_slash (c ∷ d ∷ s) = ends_with_slash (d ∷ s)

-- `Path::join`
unfoldable pub join : Text → Text → Text
join root sub =
    if is_absolute sub
    then sub
    else if is_empty root || ends_with_slash root
    then root ++ sub
    else root ++ (codes "/" ++ sub)

unfoldable pub find_library : Text → List ContentLibrary → Result ContentLibrary
unfolding text_eq
find_library name [] = err (library_not_found name)
find_library name (l ∷ libraries) =
    if text_eq (l.name) name then ok l else find_library name libraries

abbrev pub resolve_in : Text → Result ContentLibrary → Result Text
resolve_in sub (ok l) = ok (join (l.root_folder) sub)
resolve_in sub (err e) = err e

unfoldable pub resolve : List ContentLibrary → VirtualPath → Result Text
unfolding find_library join
resolve libraries v = resolve_in (v.sub_path) (find_library (v.library) libraries)

abbrev pub writable_in : Result ContentLibrary → Result Bool
writable_in (ok l) = ok (not (l.readonly))
writable_in (err e) = err e

unfoldable pub is_writable : List ContentLibrary → VirtualPath → Result Bool
unfolding find_library
is_writable libraries v = writable_in (find_library (v.library) libraries)

-- `trim_matches('/')`
unfoldable pub trim_slashes_end : Text → Text
trim_slashes_end [] = []
trim_slashes_end (c ∷ s) =
    let rest = trim_slashes_end s in if is_empty rest && c == b'/' then [] else c ∷ rest

unfoldable pub trim_slashes_start : Text → Text
trim_slashes_start [] = []
trim_slashes_start (c ∷ s) = let rest = trim_slashes_start s in if c == b'/' then rest else c ∷ s

unfoldable pub trim_slashes : Text → Text
unfolding trim_slashes_start trim_slashes_end
trim_slashes s = trim_slashes_end (trim_slashes_start s)

-- The errors of src/agent/vfs/behaviour.rs, the first with the library's name and the path.
pub data ResolveError : Type 0 where
  unknown_library : Text → Text → ResolveError
  read_only_library virtual_root : ResolveError
  bad_path : Error → ResolveError

pub record ResolvedVirtualPath : Type 0 where
  pub path : Text
  pub readonly : Bool

pub data Resolved : Type 0 where
  at_root : Resolved
  resolved : ResolvedVirtualPath → Resolved
  refused : ResolveError → Resolved

-- A library is taken, unless a write is meant and it is read-only.
unfoldable pub open_library : Bool → ContentLibrary → Text → Resolved
open_library allow_write l path =
    if allow_write && l.readonly
    then refused read_only_library
    else resolved (record { path = path; readonly = l.readonly })

unfoldable pub library_root : Bool → Text → Text → Result ContentLibrary → Resolved
unfolding open_library
library_root allow_write vpath trimmed (ok l) = open_library allow_write l (l.root_folder)
library_root allow_write vpath trimmed (err e) = refused (unknown_library trimmed vpath)

unfoldable pub library_file : Bool → Text → VirtualPath → Result ContentLibrary → Resolved
unfolding open_library join
library_file allow_write vpath v (ok l) =
    open_library allow_write l (join (l.root_folder) (v.sub_path))
library_file allow_write vpath v (err e) = refused (unknown_library (v.library) vpath)

unfoldable pub resolve_parsed :
    Bool → Text → Text → List ContentLibrary → Result VirtualPath → Resolved
unfolding find_library library_root library_file
resolve_parsed allow_write vpath trimmed libraries (ok v) =
    library_file allow_write vpath v (find_library (v.library) libraries)
resolve_parsed allow_write vpath trimmed libraries (err library_empty) =
    library_root allow_write vpath trimmed (find_library trimmed libraries)
resolve_parsed allow_write vpath trimmed libraries (err sub_path_empty) =
    library_root allow_write vpath trimmed (find_library trimmed libraries)
resolve_parsed allow_write vpath trimmed libraries (err separator_missing) =
    library_root allow_write vpath trimmed (find_library trimmed libraries)
resolve_parsed allow_write vpath trimmed libraries (err e) = refused (bad_path e)

-- `behaviour::resolve`
unfoldable pub resolve_virtual_path : Text → Bool → List ContentLibrary → Resolved
unfolding normalized trim_slashes is_empty text_eq parse resolve_parsed
resolve_virtual_path vpath allow_write libraries =
    let trimmed = trim_slashes (normalized vpath) in
    if is_empty trimmed || text_eq trimmed (codes ".")
    then at_root
    else resolve_parsed allow_write vpath trimmed libraries (parse trimmed)

abbrev pub writable_path : Resolved → Resolved
writable_path at_root = refused virtual_root
writable_path r = r

unfoldable pub resolve_writable : Text → List ContentLibrary → Resolved
unfolding resolve_virtual_path
resolve_writable vpath libraries = writable_path (resolve_virtual_path vpath true libraries)
