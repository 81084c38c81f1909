-- ===== src/Workspace/Files/Known.antt =====
-- Which files are known after the events: src/app/workspace/watcher/file_processor.rs
use personal_productivity_ai.Common.{
  ◌≡◌, refl, ap, ◌∙◌, Bool, not, ◌&&◌, ◌||◌, List, [], ◌∷◌, arith, Bool-cases, inl, inr,
}
use personal_productivity_ai.Workspace.{
  PathBuf, path_eq, path_eq_iff, contains, insert, contains-without, FileEventKind, FileEvent,
  discovered, updated, removed, dir_discovered, dir_removed,
}
use personal_productivity_ai.Workspace.Files.{
  FileEventProcessor, add_file, remove_file, contains_file, add_files, remove_files, process_event,
  drain, process_events,
}

-- The specification: a set of paths, as its test, and what an event does to it.
abbrev pub after_event : FileEventKind → List PathBuf → (PathBuf → Bool) → PathBuf → Bool
after_event discovered paths known q = contains paths q || known q
after_event removed paths known q = not (contains paths q) && known q
after_event updated paths known q = known q
after_event dir_discovered paths known q = known q
after_event dir_removed paths known q = known q

unfoldable pub after_events : List FileEvent → (PathBuf → Bool) → PathBuf → Bool
after_events [] known = known
after_events (event ∷ events) known =
    after_events events (after_event (event.kind) (event.paths) known)

add_file-known :
    (p q : PathBuf) (s : FileEventProcessor)
    → contains_file q ((add_file p s).1) ≡ (path_eq p q || contains_file q s)
unfolding add_file contains_file insert
add_file-known p q s = elim (Bool-cases (contains (s.all_files_set) p)) [
  | inl e ↦ rw e (ground (arith, path_eq_iff p q, ap (contains (s.all_files_set))))
  | inr e ↦ rw e refl
]

remove_file-known :
    (p q : PathBuf) (s : FileEventProcessor)
    → contains_file q ((remove_file p s).1) ≡ (not (path_eq p q) && contains_file q s)
unfolding remove_file contains_file
remove_file-known p q s = elim (Bool-cases (contains (s.all_files_set) p)) [
  | inl e ↦ rw e (contains-without p q (s.all_files_set))
  | inr e ↦ rw e (ground (arith, path_eq_iff p q, ap (contains (s.all_files_set))))
]

add_files-known :
    (paths : List PathBuf) (q : PathBuf) (s : FileEventProcessor)
    → contains_file q ((add_files paths s).1) ≡ (contains paths q || contains_file q s)
unfolding add_files contains
add_files-known [] q s = refl
add_files-known (p ∷ paths) q s =
    ground (arith, add_files-known paths q ((add_file p s).1), add_file-known p q s)

remove_files-known :
    (paths : List PathBuf) (q : PathBuf) (s : FileEventProcessor)
    → contains_file q (remove_files paths s) ≡ (not (contains paths q) && contains_file q s)
unfolding remove_files contains
remove_files-known [] q s = refl
remove_files-known (p ∷ paths) q s =
    ground (arith, remove_files-known paths q ((remove_file p s).1), remove_file-known p q s)

process_event-known :
    (kind : FileEventKind) (paths : List PathBuf) (q : PathBuf) (s : FileEventProcessor)
    → contains_file q ((process_event kind paths s).1)
      ≡ after_event kind paths (λ p. contains_file p s) q
unfolding process_event
process_event-known discovered paths q s = add_files-known paths q s
process_event-known removed paths q s = remove_files-known paths q s
process_event-known updated paths q s = refl
process_event-known dir_discovered paths q s = refl
process_event-known dir_removed paths q s = refl

after_event-same :
    (kind : FileEventKind) (paths : List PathBuf) (f g : PathBuf → Bool)
    → ((q : PathBuf) → f q ≡ g q)
    → (q : PathBuf) → after_event kind paths f q ≡ after_event kind paths g q
after_event-same discovered paths f g h q = ap (λ b. contains paths q || b) (h q)
after_event-same removed paths f g h q = ap (λ b. not (contains paths q) && b) (h q)
after_event-same updated paths f g h q = h q
after_event-same dir_discovered paths f g h q = h q
after_event-same dir_removed paths f g h q = h q

after_events-same :
    (events : List FileEvent) (f g : PathBuf → Bool)
    → ((q : PathBuf) → f q ≡ g q)
    → (q : PathBuf) → after_events events f q ≡ after_events events g q
unfolding after_events
after_events-same [] f g h q = h q
after_events-same (event ∷ events) f g h q =
    after_events-same events (after_event (event.kind) (event.paths) f)
      (after_event (event.kind) (event.paths) g) (after_event-same (event.kind) (event.paths) f g h)
      q

drain-known :
    (events : List FileEvent) (q : PathBuf) (s : FileEventProcessor)
    → contains_file q ((drain events s).1) ≡ after_events events (λ p. contains_file p s) q
unfolding drain after_events
drain-known [] q s = refl
drain-known (event ∷ events) q s =
    let s' = (process_event (event.kind) (event.paths) s).1 in
    drain-known events q s'
    ∙ after_events-same events (λ p. contains_file p s')
        (after_event (event.kind) (event.paths) (λ p. contains_file p s))
        (λ p. process_event-known (event.kind) (event.paths) p s) q

-- The processor implements a set of paths: after the pending events it knows the files that the
-- specification gives from those it knew.
pub process_events-known_files :
    (s : FileEventProcessor) (q : PathBuf)
    → contains_file q ((process_events s).1) ≡ after_events (s.pending) (λ p. contains_file p s) q
unfolding process_events contains_file
process_events-known_files s q = drain-known (s.pending) q (record s { pending = [] })
