-- ===== src/Workspace/Tests.antt =====
-- Runs of the watchers and of the tag index of src/app/workspace/.
use personal_productivity_ai.Common.{◌≡◌, true, List, [], ◌∷◌}
use personal_productivity_ai.Common.Text.{Text, codes}
use personal_productivity_ai.Workspace.{
  PathBuf, contains, FileEvent, discovered, updated, removed, dir_removed,
}
use personal_productivity_ai.Workspace.Files.{FileEventProcessor, new, contains_file}
use personal_productivity_ai.Workspace.Files as Files
use personal_productivity_ai.Workspace.Files.Known as FilesKnown
use personal_productivity_ai.Workspace.Files.Known.{process_events-known_files}
use personal_productivity_ai.Workspace.Directories.{DirectoryTracker}
use personal_productivity_ai.Workspace.Directories as Directories
use personal_productivity_ai.Workspace.Directories.Known as DirectoriesKnown
use personal_productivity_ai.Workspace.Directories.Known.{
  process_events-known_dirs, process_events-unchanged,
}
use personal_productivity_ai.Workspace.Tags.{FileTags, holds, is_prompt, tags_at, rebuild}
use personal_productivity_ai.Workspace.Tags as Index
use personal_productivity_ai.Workspace.Tags.Index.{is_marked, is_used}
use personal_productivity_ai.Workspace.Tags.Calls.{Call, add, remove, calls, calls-rebuild}

abbrev note : PathBuf
note = codes "/" ∷ codes "lib" ∷ codes "a.md" ∷ []

abbrev task : PathBuf
task = codes "/" ∷ codes "lib" ∷ codes "todo" ∷ codes "b.md" ∷ []

abbrev events : List FileEvent
events =
    record { kind = discovered; paths = note ∷ task ∷ note ∷ [] }
    ∷ record { kind = updated; paths = task ∷ [] }
    ∷ record { kind = removed; paths = note ∷ [] }
    ∷ []

process_events-known_files_example :
    contains_file task ((Files.process_events (new events)).1)
    ≡ FilesKnown.after_events ((new events).pending) (λ p. contains_file p (new events)) task
process_events-known_files_example = process_events-known_files (new events) task

-- A tracker that knows two directories, and is told that the upper one is gone.
abbrev tracker : DirectoryTracker
tracker = record {
  pending = record { kind = dir_removed; paths = (codes "/" ∷ codes "lib" ∷ []) ∷ [] } ∷ [];
  dirs = (codes "/" ∷ codes "lib" ∷ []) ∷ (codes "/" ∷ codes "lib" ∷ codes "todo" ∷ []) ∷ [];
}

process_events-known_dirs_example :
    contains
      ((Directories.process_events tracker).1.dirs)
      (codes "/" ∷ codes "lib" ∷ codes "todo" ∷ [])
    ≡ DirectoriesKnown.after_events
        (tracker.pending)
        (contains (tracker.dirs))
        (codes "/" ∷ codes "lib" ∷ codes "todo" ∷ [])
process_events-known_dirs_example =
    process_events-known_dirs tracker (codes "/" ∷ codes "lib" ∷ codes "todo" ∷ [])

-- A note loses its tag, and a file is removed.
abbrev tag_calls : List Call
tag_calls =
    add note (codes "Prompt" ∷ codes "rust" ∷ [])
    ∷ add task (codes "todo" ∷ [])
    ∷ add note (codes "rust" ∷ [])
    ∷ remove task
    ∷ []

calls-rebuild_example :
    ((q : PathBuf)
      → contains ((calls tag_calls Index.new).prompt_paths) q
        ≡ is_marked (tags_at ((calls tag_calls Index.new).file_tags) q))
    × ((u : Text)
        → is_used ((calls tag_calls Index.new).file_tags) u ≡ true
        → holds ((calls tag_calls Index.new).all_tags) u ≡ true)
    × ((u : Text)
        → holds ((rebuild (calls tag_calls Index.new)).all_tags) u
          ≡ is_used ((calls tag_calls Index.new).file_tags) u)
calls-rebuild_example = calls-rebuild tag_calls

abbrev tagged : FileTags
tagged = (note, codes "rust" ∷ codes "ui" ∷ []) ∷ (task, codes "rust" ∷ []) ∷ []
