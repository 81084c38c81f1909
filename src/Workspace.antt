-- ===== src/Workspace.antt =====
-- The files and the directories of the workspace: src/app/workspace/watcher, src/app/bus/events/file.rs
-- A path is the list of its components, as `PathBuf` compares it; a root is the component `/`. A hash
-- set is a list without repetitions, whose order nothing reads. What a reader of the bus yields before
-- its `try_recv` says that there is nothing is a list of events.
pub mod Files
pub mod Directories
pub mod Tags
mod Tests
use personal_productivity_ai.Common.{
  ℕ, ◌≡◌, refl, ap, sym, ◌∙◌, ◌↔◌, Bool, true, false, not, ◌&&◌, ◌||◌, Option, none, some, List, [],
  ◌∷◌, ◌++◌, if◌then◌else◌, arith, Bool-cases, inl, inr,
}
use personal_productivity_ai.Common.Text.{
  Text, codes, text_eq, text_eq→eq, text_eq_self, text_eq_iff,
}

abbrev pub PathBuf : Type 0
PathBuf = List Text

unfoldable pub path_eq : PathBuf → PathBuf → Bool
unfolding text_eq
path_eq [] [] = true
path_eq [] (d ∷ q) = false
path_eq (c ∷ p) [] = false
path_eq (c ∷ p) (d ∷ q) = text_eq c d && path_eq p q

pub path_eq_iff : (p q : PathBuf) → (path_eq p q ≡ true) ↔ (p ≡ q)
unfolding path_eq
path_eq_iff p q = (to_eq p q, λ e. rw e (self q))
  where
    self : (p : PathBuf) → path_eq p p ≡ true
    self [] = refl
    self (c ∷ p) = ground (arith, text_eq_self c, self p)

    to_eq : (p q : PathBuf) → path_eq p q ≡ true → p ≡ q
    to_eq [] [] h = refl
    to_eq [] (d ∷ q) h = cc
    to_eq (c ∷ p) [] h = cc
    to_eq (c ∷ p) (d ∷ q) h =
        rw (text_eq→eq c d (ground (arith, h)), to_eq p q (ground (arith, h))) refl

-- `path.starts_with(base)`, which compares whole components.
unfoldable pub starts_with : PathBuf → PathBuf → Bool
unfolding text_eq
starts_with p [] = true
starts_with [] (d ∷ base) = false
starts_with (c ∷ p) (d ∷ base) = text_eq c d && starts_with p base

-- `path.parent()`: none of the empty path and of a root.
unfoldable pub parent : PathBuf → Option PathBuf
unfolding text_eq
parent [] = none
parent (c ∷ []) = if text_eq c (codes "/") then none else some []
parent (c ∷ d ∷ p) = elim (parent (d ∷ p)) [ none ↦ none | some q ↦ some (c ∷ q) ]

-- `contains` of a set, and of a vector.
unfoldable pub contains : List PathBuf → PathBuf → Bool
unfolding path_eq
contains [] p = false
contains (q ∷ paths) p = path_eq q p || contains paths p

-- `insert` of a set, which says whether the path is new.
unfoldable pub insert : PathBuf → List PathBuf → Bool × List PathBuf
unfolding contains
insert p paths = if contains paths p then (false, paths) else (true, p ∷ paths)

-- The paths but one: `retain` of a vector, and what `remove` leaves of a set.
unfoldable pub without : PathBuf → List PathBuf → List PathBuf
unfolding path_eq
without p [] = []
without p (q ∷ paths) = let rest = without p paths in if path_eq q p then rest else q ∷ rest

pub contains-insert :
    (p q : PathBuf) (paths : List PathBuf)
    → contains ((insert p paths).1) q ≡ (path_eq p q || contains paths q)
unfolding insert contains
contains-insert p q paths = elim (Bool-cases (contains paths p)) [
  | inl e ↦ ground (arith, path_eq_iff p q, ap (contains paths))
  | inr e ↦ rw e refl
]

pub contains-without :
    (p q : PathBuf) (paths : List PathBuf)
    → contains (without p paths) q ≡ (not (path_eq p q) && contains paths q)
unfolding without contains
contains-without p q [] = ground arith
contains-without p q (r ∷ paths) =
    ground (arith, contains-without p q paths, path_eq_iff p q, path_eq_iff r q, path_eq_iff r p)

pub contains-append :
    (xs ys : List PathBuf) (q : PathBuf) → contains (xs ++ ys) q ≡ (contains xs q || contains ys q)
unfolding contains
contains-append [] ys q = refl
contains-append (x ∷ xs) ys q = ground (arith, contains-append xs ys q)

pub data FileEventKind : Type 0 where
  discovered updated removed dir_discovered dir_removed : FileEventKind

pub record FileEvent : Type 0 where
  pub kind : FileEventKind
  pub paths : List PathBuf
