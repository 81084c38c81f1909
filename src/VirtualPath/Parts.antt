-- ===== src/VirtualPath/Parts.antt =====
-- The parts of a virtual path and of the path of a file: src/agent/vfs/virtual_path.rs
use personal_productivity_ai.Common.{
  ◌≡◌, refl, sym, ap, ◌∙◌, subst, inl, inr, Bool, true, false, ◌==◌, All, ◌||◌, ◌⊎◌, Option, none,
  some, List, [], ◌∷◌, ◌++◌, arith, Bool-cases,
}
use personal_productivity_ai.Common.Text.{Text, codes, text_eq, text_eq_iff, is_prefix}
use personal_productivity_ai.Common.Trim.{is_empty}
use personal_productivity_ai.Common.Split.{split_once, cons_first-some, split_once-append}
use personal_productivity_ai.VirtualPath.{
  Result, ok, VirtualPath, ContentLibrary, normalized, components, any_parent, has_parent,
  split_parts, parse, is_absolute, ends_with_slash, trim_slashes_start, trim_slashes_end, join,
  find_library, trim_slashes,
}

-- The components behind the first.
later_parent :
    (a b : Text) → any_parent ((components (a ++ (b'/' ∷ b))).1) ≡ false → has_parent b ≡ false
unfolding components has_parent any_parent
later_parent [] b h = h
later_parent (c ∷ a) b h = ground (arith, later_parent a b, h)

rest_of_has_parent : (s : Text) → has_parent s ≡ false → any_parent ((components s).1) ≡ false
unfolding has_parent any_parent
rest_of_has_parent s h = ground (arith, h)

eq_of_ok : {A : Type 0} {a b : A} → Path (Result A) (ok a) (ok b) → a ≡ b
eq_of_ok h = cc

split_parts-ok :
    (o : Option (Text × Text)) (v : VirtualPath)
    → split_parts o ≡ ok v
    → o ≡ some (v.library, v.sub_path)
split_parts-ok none v h = absurd cc
split_parts-ok (some ([], sub)) v h = absurd cc
split_parts-ok (some (c ∷ lib, [])) v h = absurd cc
split_parts-ok (some (c ∷ lib, d ∷ sub)) v h =
    ap (λ (w : VirtualPath). some (w.library, w.sub_path)) (eq_of_ok h)

-- A path that is parsed is, with slashes for backslashes, the library's name, a slash and the
-- sub-path, and no component of the sub-path is `..`.
pub parse-ok :
    (vpath : Text) (v : VirtualPath)
    → parse vpath ≡ ok v
    → (normalized vpath ≡ v.library ++ (codes "/" ++ v.sub_path))
      × (has_parent (v.sub_path) ≡ false)
unfolding parse has_parent any_parent
parse-ok vpath v h = elim (Bool-cases (is_empty vpath)) [
  | inl e ↦ absurd (cc (rw (e, parse) at h))
  | inr e ↦ elim (Bool-cases (has_parent (normalized vpath))) [
    | inl p ↦ absurd (cc (rw (e, p, parse) at h))
    | inr p ↦
        let q : split_parts (split_once (codes "/") (normalized vpath)) ≡ ok v =
          rw (e, p, parse) at h in
        let n =
          split_once-append (codes "/") (normalized vpath) (v.library) (v.sub_path)
            (split_parts-ok _ v q) in
        (
          n,
          later_parent (v.library) (v.sub_path) (
              rest_of_has_parent (v.library ++ (codes "/" ++ v.sub_path))
                (subst (λ (x : Text). has_parent x ≡ false) n p)),
        )
  ]
]

-- Texts without a backslash stay as they are.
unfoldable has_backslash : Text → Bool
has_backslash [] = false
has_backslash (c ∷ s) = c == b'\\' || has_backslash s

normalized_plain : (s : Text) → has_backslash s ≡ false → normalized s ≡ s
unfolding normalized has_backslash
normalized_plain [] h = refl
normalized_plain (c ∷ s) h = ground (arith, h, normalized_plain s)

has_backslash-normalized : (s : Text) → has_backslash (normalized s) ≡ false
unfolding normalized has_backslash
has_backslash-normalized [] = refl
has_backslash-normalized (c ∷ s) = ground (arith, has_backslash-normalized s)

has_backslash-trim_slashes_start :
    (s : Text) → has_backslash s ≡ false → has_backslash (trim_slashes_start s) ≡ false
unfolding trim_slashes_start has_backslash
has_backslash-trim_slashes_start [] h = refl
has_backslash-trim_slashes_start (c ∷ s) h = ground (arith, h, has_backslash-trim_slashes_start s)

has_backslash-trim_slashes_end :
    (s : Text) → has_backslash s ≡ false → has_backslash (trim_slashes_end s) ≡ false
unfolding trim_slashes_end has_backslash
has_backslash-trim_slashes_end [] h = refl
has_backslash-trim_slashes_end (c ∷ s) h = ground (arith, h, has_backslash-trim_slashes_end s)

-- The virtual path, with slashes for backslashes and without the slashes at its ends.
unfoldable pub trimmed_path : Text → Text
trimmed_path vpath = trim_slashes (normalized vpath)

pub normalized-trimmed_path : (vpath : Text) → normalized (trimmed_path vpath) ≡ trimmed_path vpath
unfolding trimmed_path trim_slashes
normalized-trimmed_path vpath = normalized_plain (trimmed_path vpath) (
    has_backslash-trim_slashes_end (trim_slashes_start (normalized vpath))
      (has_backslash-trim_slashes_start (normalized vpath) (has_backslash-normalized vpath)))

-- The first library of that name.
abbrev pub IsFirst : Text → List ContentLibrary → ContentLibrary → Type 0
IsFirst name libraries l =
    (before after : List ContentLibrary) × (libraries ≡ before ++ l ∷ after)
    × (l.name ≡ name)
    × All (λ (k : ContentLibrary). text_eq (k.name) name ≡ false) before

pub find_library-IsFirst :
    (name : Text) (libraries : List ContentLibrary) (l : ContentLibrary)
    → find_library name libraries ≡ ok l
    → IsFirst name libraries l
unfolding find_library
find_library-IsFirst name [] l h = absurd cc
find_library-IsFirst name (k ∷ libraries) l h = elim (Bool-cases (text_eq (k.name) name)) [
  | inl e ↦
      let g : k ≡ l = eq_of_ok (rw e at h) in
      (
        [],
        libraries,
        ap (λ k. k ∷ libraries) g,
        ap (λ (k : ContentLibrary). k.name) (sym g) ∙ (text_eq_iff (k.name) name).0 e,
        _,
      )
  | inr e ↦
      let (before, after, p, q, n) = find_library-IsFirst name libraries l (rw e at h) in
      (k ∷ before, after, ap (λ ls. k ∷ ls) p, q, (e, n))
]

unfoldable pub has_slash : Text → Bool
has_slash [] = false
has_slash (c ∷ s) = c == b'/' || has_slash s

split_once-has_slash : (s a b : Text) → split_once (codes "/") s ≡ some (a, b) → has_slash a ≡ false
unfolding split_once has_slash is_prefix
split_once-has_slash [] a b h = absurd cc
split_once-has_slash (c ∷ s) a b h = elim (Bool-cases (c == b'/')) [
  | inl e ↦ ground (arith, e)
  | inr e ↦
      let (x, p, q) = cons_first-some c (split_once (codes "/") s) a b (ground (arith, e)) in
      rw (p, e) (split_once-has_slash s x b q)
]

pub parse-has_slash :
    (vpath : Text) (v : VirtualPath) → parse vpath ≡ ok v → has_slash (v.library) ≡ false
unfolding parse
parse-has_slash vpath v h = elim (Bool-cases (is_empty vpath)) [
  | inl e ↦ absurd (cc (rw (e, parse) at h))
  | inr e ↦ elim (Bool-cases (has_parent (normalized vpath))) [
    | inl p ↦ absurd (cc (rw (e, p, parse) at h))
    | inr p ↦
        let q : split_parts (split_once (codes "/") (normalized vpath)) ≡ ok v =
          rw (e, p, parse) at h in
        split_once-has_slash (normalized vpath) (v.library) (v.sub_path) (split_parts-ok _ v q)
  ]
]

-- The path of a file of a library: under its root by the sub-path, with a slash between them unless the
-- root has one at its end. A sub-path that begins with a slash is the path itself.
abbrev pub IsFileOf : Text → Text → Text → Type 0
IsFileOf root sub path =
    ((is_absolute sub ≡ true) × (path ≡ sub))
    ⊎ ((is_absolute sub ≡ false)
        × ((path ≡ root ++ (codes "/" ++ sub))
            ⊎ (((is_empty root || ends_with_slash root) ≡ true) × (path ≡ root ++ sub))))

pub join-IsFileOf : (root sub : Text) → IsFileOf root sub (join root sub)
unfolding join
join-IsFileOf root sub = elim (Bool-cases (is_absolute sub)) [
  | inl e ↦ inl (e, rw e refl)
  | inr e ↦ inr (
    e,
    elim (Bool-cases (is_empty root || ends_with_slash root)) [
      | inl f ↦ inr (f, rw (e, f) refl)
      | inr f ↦ inl (rw (e, f) refl)
    ],
  )
]
