-- ===== src/Workspace/Directories.antt =====
-- The known directories: src/app/workspace/watcher/directory_tracker.rs
pub mod Known
use personal_productivity_ai.Common.{
  Bool, true, false, Option, none, some, List, [], ◌∷◌, ◌++◌, if◌then◌else◌, ◌||◌,
}
use personal_productivity_ai.Workspace.{
  PathBuf, path_eq, starts_with, parent, contains, insert, FileEventKind, FileEvent, discovered,
  updated, removed, dir_discovered, dir_removed,
}

pub record DirectoryTracker : Type 0 where
  pub pending : List FileEvent
  pub dirs : List PathBuf

-- What `remove_dir_and_descendants` leaves, and whether it removed a directory.
unfoldable pub remove_dir_and_descendants : PathBuf → List PathBuf → Bool × List PathBuf
unfolding path_eq starts_with
remove_dir_and_descendants base [] = (false, [])
remove_dir_and_descendants base (p ∷ dirs) =
    let (changed, rest) = remove_dir_and_descendants base dirs in
    if path_eq p base || starts_with p base then (true, rest) else (changed, p ∷ rest)

unfoldable pub insert_all : List PathBuf → List PathBuf → Bool × List PathBuf
unfolding insert
insert_all [] dirs = (false, dirs)
insert_all (p ∷ paths) dirs =
    let (fresh, dirs') = insert p dirs in
    let (more, dirs'') = insert_all paths dirs' in (fresh || more, dirs'')

unfoldable pub remove_all : List PathBuf → List PathBuf → Bool × List PathBuf
unfolding remove_dir_and_descendants
remove_all [] dirs = (false, dirs)
remove_all (p ∷ paths) dirs =
    let (gone, dirs') = remove_dir_and_descendants p dirs in
    let (more, dirs'') = remove_all paths dirs' in (gone || more, dirs'')

-- The parents of the paths that have one.
unfoldable pub parents : List PathBuf → List PathBuf
unfolding parent
parents [] = []
parents (p ∷ paths) =
    let rest = parents paths in elim (parent p) [ none ↦ rest | some d ↦ d ∷ rest ]

-- One event, and whether it changes the directories.
unfoldable pub process_event : FileEventKind → List PathBuf → List PathBuf → Bool × List PathBuf
unfolding insert_all remove_all parents
process_event dir_discovered paths dirs = insert_all paths dirs
process_event dir_removed paths dirs = remove_all paths dirs
process_event discovered paths dirs = insert_all (parents paths) dirs
process_event removed paths dirs = (false, dirs)
process_event updated paths dirs = (false, dirs)

unfoldable pub drain : List FileEvent → List PathBuf → Bool × List PathBuf
unfolding process_event
drain [] dirs = (false, dirs)
drain (event ∷ events) dirs =
    let (changed, dirs') = process_event (event.kind) (event.paths) dirs in
    let (more, dirs'') = drain events dirs' in (changed || more, dirs'')

unfoldable pub process_events : DirectoryTracker → Bool × DirectoryTracker
unfolding drain
process_events s =
    let (changed, dirs) = drain (s.pending) (s.dirs) in
    (changed, record { pending = []; dirs = dirs })
