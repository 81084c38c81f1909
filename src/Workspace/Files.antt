-- ===== src/Workspace/Files.antt =====
-- The known files: src/app/workspace/watcher/file_processor.rs
-- The pending events are what `try_recv` of the reader yields. The getters of the sorted lists are left out.
pub mod Known
pub mod Mirror
use personal_productivity_ai.Common.{Bool, true, false, List, [], ◌∷◌, ◌++◌, if◌then◌else◌, ◌||◌}
use personal_productivity_ai.Workspace.{
  PathBuf, contains, insert, without, FileEventKind, FileEvent, discovered, updated, removed,
  dir_discovered, dir_removed,
}

pub record FileEventProcessor : Type 0 where
  pub pending : List FileEvent
  pub all_files : List PathBuf
  pub all_files_set : List PathBuf
  pub all_dirs : List PathBuf
  pub all_dirs_set : List PathBuf
  pub indexing_finished : Bool
  pub indexing_finished_handled : Bool

unfoldable pub new : List FileEvent → FileEventProcessor
new pending = record {
  pending = pending;
  all_files = [];
  all_files_set = [];
  all_dirs = [];
  all_dirs_set = [];
  indexing_finished = false;
  indexing_finished_handled = false;
}

unfoldable pub add_file : PathBuf → FileEventProcessor → Bool × FileEventProcessor
unfolding insert
add_file path s =
    let (fresh, files) = insert path (s.all_files_set) in
    if fresh
    then (true, record s { all_files = s.all_files ++ path ∷ []; all_files_set = files })
    else (false, record s { all_files_set = files })

unfoldable pub add_dir : PathBuf → FileEventProcessor → Bool × FileEventProcessor
unfolding insert
add_dir path s =
    let (fresh, dirs) = insert path (s.all_dirs_set) in
    if fresh
    then (true, record s { all_dirs = s.all_dirs ++ path ∷ []; all_dirs_set = dirs })
    else (false, record s { all_dirs_set = dirs })

unfoldable pub remove_file : PathBuf → FileEventProcessor → Bool × FileEventProcessor
unfolding contains without
remove_file path s =
    if contains (s.all_files_set) path
    then (
      true,
      record s {
        all_files = without path (s.all_files);
        all_files_set = without path (s.all_files_set);
      },
    )
    else (false, s)

unfoldable pub remove_dir : PathBuf → FileEventProcessor → Bool × FileEventProcessor
unfolding contains without
remove_dir path s =
    if contains (s.all_dirs_set) path
    then (
      true,
      record s {
        all_dirs = without path (s.all_dirs);
        all_dirs_set = without path (s.all_dirs_set);
      },
    )
    else (false, s)

unfoldable pub contains_file : PathBuf → FileEventProcessor → Bool
unfolding contains
contains_file path s = contains (s.all_files_set) path

-- The files of a `Discovered` event, and whether one of them is new.
unfoldable pub add_files : List PathBuf → FileEventProcessor → Bool × FileEventProcessor
unfolding add_file
add_files [] s = (false, s)
add_files (p ∷ paths) s =
    let (fresh, s') = add_file p s in let (more, s'') = add_files paths s' in (fresh || more, s'')

-- The files of a `Removed` event.
unfoldable pub remove_files : List PathBuf → FileEventProcessor → FileEventProcessor
unfolding remove_file
remove_files [] s = s
remove_files (p ∷ paths) s = remove_files paths ((remove_file p s).1)

-- One event, and whether it makes a reload necessary.
unfoldable pub process_event :
    FileEventKind → List PathBuf → FileEventProcessor → Bool × FileEventProcessor
unfolding add_files remove_files
process_event discovered paths s = add_files paths s
process_event updated paths s = (true, s)
process_event removed paths s = (true, remove_files paths s)
process_event dir_discovered paths s = (false, s)
process_event dir_removed paths s = (false, s)

unfoldable pub drain : List FileEvent → FileEventProcessor → Bool × FileEventProcessor
unfolding process_event
drain [] s = (false, s)
drain (event ∷ events) s =
    let (reload, s') = process_event (event.kind) (event.paths) s in
    let (more, s'') = drain events s' in (reload || more, s'')

unfoldable pub process_events : FileEventProcessor → Bool × FileEventProcessor
unfolding drain
process_events s = drain (s.pending) (record s { pending = [] })
