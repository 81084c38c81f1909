-- ===== src/Workspace/Files/Mirror.antt =====
-- That the list and the set of the known files agree: src/app/workspace/watcher/file_processor.rs
use personal_productivity_ai.Common.{
  ◌≡◌, refl, sym, ◌∙◌, false, List, [], ◌∷◌, ◌++◌, arith, Bool-cases, inl, inr,
}
use personal_productivity_ai.Workspace.{
  PathBuf, path_eq, path_eq_iff, contains, insert, without, contains-without, contains-append,
  FileEventKind, FileEvent, discovered, updated, removed, dir_discovered, dir_removed,
}
use personal_productivity_ai.Workspace.Files.{
  FileEventProcessor, add_file, remove_file, add_files, remove_files, process_event, drain,
  process_events,
}

-- No path stands twice.
abbrev pub IsDistinct : List PathBuf → Type 0
IsDistinct [] = Unit
IsDistinct (p ∷ paths) = (contains paths p ≡ false) × IsDistinct paths

-- The list of the files has each path of the set, once.
unfoldable pub IsMirrored : FileEventProcessor → Type 0
IsMirrored s =
    ((q : PathBuf) → contains (s.all_files) q ≡ contains (s.all_files_set) q)
    × IsDistinct (s.all_files)

IsDistinct-append :
    (p : PathBuf) (paths : List PathBuf)
    → contains paths p ≡ false
    → IsDistinct paths
    → IsDistinct (paths ++ p ∷ [])
unfolding contains
IsDistinct-append p [] h d = (refl, tt)
IsDistinct-append p (q ∷ paths) h d = (
  contains-append paths (p ∷ []) q ∙ ground (arith, h, d.0, path_eq_iff p q, path_eq_iff q p),
  IsDistinct-append p paths (ground (arith, h)) (d.1),
)

IsDistinct-without :
    (p : PathBuf) (paths : List PathBuf) → IsDistinct paths → IsDistinct (without p paths)
unfolding without
IsDistinct-without p [] d = d
IsDistinct-without p (q ∷ paths) d = elim (Bool-cases (path_eq q p)) [
  | inl e ↦ rw e (IsDistinct-without p paths (d.1))
  | inr e ↦
      rw e (contains-without p q paths ∙ ground (arith, d.0), IsDistinct-without p paths (d.1))
]

add_file-IsMirrored :
    (p : PathBuf) (s : FileEventProcessor) → IsMirrored s → IsMirrored ((add_file p s).1)
unfolding add_file insert IsMirrored contains
add_file-IsMirrored p s (h, d) = elim (Bool-cases (contains (s.all_files_set) p)) [
  | inl e ↦ rw e (h, d)
  | inr e ↦ rw e (
    λ q. contains-append (s.all_files) (p ∷ []) q ∙ ground (arith, h q),
    IsDistinct-append p (s.all_files) (h p ∙ e) d,
  )
]

remove_file-IsMirrored :
    (p : PathBuf) (s : FileEventProcessor) → IsMirrored s → IsMirrored ((remove_file p s).1)
unfolding remove_file IsMirrored
remove_file-IsMirrored p s (h, d) = elim (Bool-cases (contains (s.all_files_set) p)) [
  | inl e ↦ rw e (
    λ q.
        contains-without p q (s.all_files)
        ∙ rw (h q) (sym (contains-without p q (s.all_files_set))),
    IsDistinct-without p (s.all_files) d,
  )
  | inr e ↦ rw e (h, d)
]

add_files-IsMirrored :
    (paths : List PathBuf) (s : FileEventProcessor)
    → IsMirrored s
    → IsMirrored ((add_files paths s).1)
unfolding add_files
add_files-IsMirrored [] s h = h
add_files-IsMirrored (p ∷ paths) s h =
    add_files-IsMirrored paths ((add_file p s).1) (add_file-IsMirrored p s h)

remove_files-IsMirrored :
    (paths : List PathBuf) (s : FileEventProcessor)
    → IsMirrored s
    → IsMirrored (remove_files paths s)
unfolding remove_files
remove_files-IsMirrored [] s h = h
remove_files-IsMirrored (p ∷ paths) s h =
    remove_files-IsMirrored paths ((remove_file p s).1) (remove_file-IsMirrored p s h)

process_event-IsMirrored :
    (kind : FileEventKind) (paths : List PathBuf) (s : FileEventProcessor)
    → IsMirrored s
    → IsMirrored ((process_event kind paths s).1)
unfolding process_event
process_event-IsMirrored discovered paths s h = add_files-IsMirrored paths s h
process_event-IsMirrored removed paths s h = remove_files-IsMirrored paths s h
process_event-IsMirrored updated paths s h = h
process_event-IsMirrored dir_discovered paths s h = h
process_event-IsMirrored dir_removed paths s h = h

drain-IsMirrored :
    (events : List FileEvent) (s : FileEventProcessor)
    → IsMirrored s
    → IsMirrored ((drain events s).1)
unfolding drain
drain-IsMirrored [] s h = h
drain-IsMirrored (event ∷ events) s h =
    drain-IsMirrored events ((process_event (event.kind) (event.paths) s).1)
      (process_event-IsMirrored (event.kind) (event.paths) s h)

-- Draining the events keeps the list and the set of the files in agreement: the list has each path of
-- the set once, and no other.
pub process_events-IsMirrored :
    (s : FileEventProcessor) → IsMirrored s → IsMirrored ((process_events s).1)
unfolding process_events IsMirrored
process_events-IsMirrored s h = drain-IsMirrored (s.pending) (record s { pending = [] }) h
