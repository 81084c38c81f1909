-- ===== src/Workspace/Directories/Known.antt =====
-- Which directories are known after the events: src/app/workspace/watcher/directory_tracker.rs
use personal_productivity_ai.Common.{
  ◌≡◌, refl, ap, ◌∙◌, Bool, true, false, not, ◌&&◌, ◌||◌, List, [], ◌∷◌, arith, Bool-cases, inl,
  inr,
}
use personal_productivity_ai.Common.Text.{text_eq_self}
use personal_productivity_ai.Workspace.{
  PathBuf, path_eq, path_eq_iff, starts_with, contains, insert, contains-insert, FileEventKind,
  FileEvent, discovered, updated, removed, dir_discovered, dir_removed,
}
use personal_productivity_ai.Workspace.Directories.{
  DirectoryTracker, remove_dir_and_descendants, insert_all, remove_all, parents, process_event,
  drain, process_events,
}

-- Whether the path is one of the directories, or below one.
unfoldable pub is_under : List PathBuf → PathBuf → Bool
is_under [] q = false
is_under (base ∷ bases) q = starts_with q base || is_under bases q

-- The specification: a set of directories, as its test, and what an event does to it.
abbrev pub after_event : FileEventKind → List PathBuf → (PathBuf → Bool) → PathBuf → Bool
after_event dir_discovered paths known q = contains paths q || known q
after_event discovered paths known q = contains (parents paths) q || known q
after_event dir_removed paths known q = not (is_under paths q) && known q
after_event updated paths known q = known q
after_event removed paths known q = known q

unfoldable pub after_events : List FileEvent → (PathBuf → Bool) → PathBuf → Bool
after_events [] known = known
after_events (event ∷ events) known =
    after_events events (after_event (event.kind) (event.paths) known)

starts_with_self : (p : PathBuf) → starts_with p p ≡ true
unfolding starts_with
starts_with_self [] = refl
starts_with_self (c ∷ p) = ground (arith, text_eq_self c, starts_with_self p)

remove_dir_and_descendants-known :
    (base : PathBuf) (dirs : List PathBuf) (q : PathBuf)
    → contains ((remove_dir_and_descendants base dirs).1) q
      ≡ (not (starts_with q base) && contains dirs q)
unfolding remove_dir_and_descendants contains
remove_dir_and_descendants-known base [] q = ground arith
remove_dir_and_descendants-known base (p ∷ dirs) q =
    let ih = remove_dir_and_descendants-known base dirs q in
    elim (Bool-cases (path_eq p q)) [
      | inl e ↦
          let h : p ≡ q = (path_eq_iff p q).0 e in
          ground (
            arith,
            ih,
            e,
            ap (λ r. starts_with r base) h,
            path_eq_iff p base,
            ap (λ b. starts_with p b),
            starts_with_self p,
          )
      | inr e ↦ ground (arith, ih, e)
    ]

insert_all-known :
    (paths dirs : List PathBuf) (q : PathBuf)
    → contains ((insert_all paths dirs).1) q ≡ (contains paths q || contains dirs q)
unfolding insert_all contains
insert_all-known [] dirs q = refl
insert_all-known (p ∷ paths) dirs q =
    ground (arith, insert_all-known paths ((insert p dirs).1) q, contains-insert p q dirs)

remove_all-known :
    (paths dirs : List PathBuf) (q : PathBuf)
    → contains ((remove_all paths dirs).1) q ≡ (not (is_under paths q) && contains dirs q)
unfolding remove_all is_under
remove_all-known [] dirs q = refl
remove_all-known (p ∷ paths) dirs q = ground (
  arith,
  remove_all-known paths ((remove_dir_and_descendants p dirs).1) q,
  remove_dir_and_descendants-known p dirs q,
)

process_event-known :
    (kind : FileEventKind) (paths dirs : List PathBuf) (q : PathBuf)
    → contains ((process_event kind paths dirs).1) q ≡ after_event kind paths (contains dirs) q
unfolding process_event
process_event-known dir_discovered paths dirs q = insert_all-known paths dirs q
process_event-known discovered paths dirs q = insert_all-known (parents paths) dirs q
process_event-known dir_removed paths dirs q = remove_all-known paths dirs q
process_event-known updated paths dirs q = refl
process_event-known removed paths dirs q = refl

after_event-same :
    (kind : FileEventKind) (paths : List PathBuf) (f g : PathBuf → Bool)
    → ((q : PathBuf) → f q ≡ g q)
    → (q : PathBuf) → after_event kind paths f q ≡ after_event kind paths g q
after_event-same dir_discovered paths f g h q = ap (λ b. contains paths q || b) (h q)
after_event-same discovered paths f g h q = ap (λ b. contains (parents paths) q || b) (h q)
after_event-same dir_removed paths f g h q = ap (λ b. not (is_under paths q) && b) (h q)
after_event-same updated paths f g h q = h q
after_event-same removed paths f g h q = h q

after_events-same :
    (events : List FileEvent) (f g : PathBuf → Bool)
    → ((q : PathBuf) → f q ≡ g q)
    → (q : PathBuf) → after_events events f q ≡ after_events events g q
unfolding after_events
after_events-same [] f g h q = h q
after_events-same (event ∷ events) f g h q =
    after_events-same events (after_event (event.kind) (event.paths) f)
      (after_event (event.kind) (event.paths) g) (after_event-same (event.kind) (event.paths) f g h)
      q

drain-known :
    (events : List FileEvent) (dirs : List PathBuf) (q : PathBuf)
    → contains ((drain events dirs).1) q ≡ after_events events (contains dirs) q
unfolding drain after_events
drain-known [] dirs q = refl
drain-known (event ∷ events) dirs q =
    let dirs' = (process_event (event.kind) (event.paths) dirs).1 in
    drain-known events dirs' q
    ∙ after_events-same events (contains dirs')
        (after_event (event.kind) (event.paths) (contains dirs))
        (λ p. process_event-known (event.kind) (event.paths) dirs p) q

-- The tracker implements a set of directories: after the pending events it knows those that the
-- specification gives from those it knew, where a removed directory takes along all that are below it.
pub process_events-known_dirs :
    (s : DirectoryTracker) (q : PathBuf)
    → contains ((process_events s).1.dirs) q ≡ after_events (s.pending) (contains (s.dirs)) q
unfolding process_events
process_events-known_dirs s q = drain-known (s.pending) (s.dirs) q

insert-unchanged :
    (p : PathBuf) (dirs : List PathBuf) → (insert p dirs).0 ≡ false → (insert p dirs).1 ≡ dirs
unfolding insert
insert-unchanged p dirs h = elim (Bool-cases (contains dirs p)) [
  | inl e ↦ rw e refl
  | inr e ↦ ground (arith, h, e)
]

insert_all-unchanged :
    (paths dirs : List PathBuf)
    → (insert_all paths dirs).0 ≡ false
    → (insert_all paths dirs).1 ≡ dirs
unfolding insert_all
insert_all-unchanged [] dirs h = refl
insert_all-unchanged (p ∷ paths) dirs h =
    insert_all-unchanged paths ((insert p dirs).1) (ground (arith, h))
    ∙ insert-unchanged p dirs (ground (arith, h))

remove_dir-unchanged :
    (base : PathBuf) (dirs : List PathBuf)
    → (remove_dir_and_descendants base dirs).0 ≡ false
    → (remove_dir_and_descendants base dirs).1 ≡ dirs
unfolding remove_dir_and_descendants
remove_dir-unchanged base [] h = refl
remove_dir-unchanged base (p ∷ dirs) h = elim (Bool-cases (path_eq p base || starts_with p base)) [
  | inl e ↦ absurd (ground (arith, h, e))
  | inr e ↦ rw e (ap (λ l. p ∷ l) (remove_dir-unchanged base dirs (ground (arith, h, e))))
]

remove_all-unchanged :
    (paths dirs : List PathBuf)
    → (remove_all paths dirs).0 ≡ false
    → (remove_all paths dirs).1 ≡ dirs
unfolding remove_all
remove_all-unchanged [] dirs h = refl
remove_all-unchanged (p ∷ paths) dirs h =
    remove_all-unchanged paths ((remove_dir_and_descendants p dirs).1) (ground (arith, h))
    ∙ remove_dir-unchanged p dirs (ground (arith, h))

process_event-unchanged :
    (kind : FileEventKind) (paths dirs : List PathBuf)
    → (process_event kind paths dirs).0 ≡ false
    → (process_event kind paths dirs).1 ≡ dirs
unfolding process_event
process_event-unchanged dir_discovered paths dirs h = insert_all-unchanged paths dirs h
process_event-unchanged discovered paths dirs h = insert_all-unchanged (parents paths) dirs h
process_event-unchanged dir_removed paths dirs h = remove_all-unchanged paths dirs h
process_event-unchanged updated paths dirs h = refl
process_event-unchanged removed paths dirs h = refl

drain-unchanged :
    (events : List FileEvent) (dirs : List PathBuf)
    → (drain events dirs).0 ≡ false
    → (drain events dirs).1 ≡ dirs
unfolding drain
drain-unchanged [] dirs h = refl
drain-unchanged (event ∷ events) dirs h =
    drain-unchanged events ((process_event (event.kind) (event.paths) dirs).1) (ground (arith, h))
    ∙ process_event-unchanged (event.kind) (event.paths) dirs (ground (arith, h))

-- Where the events are said to have changed nothing, the known directories are those from before.
pub process_events-unchanged :
    (s : DirectoryTracker) → (process_events s).0 ≡ false → (process_events s).1.dirs ≡ s.dirs
unfolding process_events
process_events-unchanged s h = drain-unchanged (s.pending) (s.dirs) h
