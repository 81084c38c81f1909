-- ===== src/Workspace/Tags/Scan.antt =====
-- The index after a scan of the files: src/app/workspace/tags.rs
use personal_productivity_ai.Common.{
  ◌≡◌, refl, ap, sym, ◌∙◌, subst, none, List, [], ◌∷◌, arith, Bool-cases, inl, inr,
}
use personal_productivity_ai.Common.Text.{Text}
use personal_productivity_ai.Workspace.{PathBuf, path_eq_iff}
use personal_productivity_ai.Workspace.Tags.{
  FileTags, Tags, insert_tags, tags_at, holds, insert_all, is_prompt, new, add_tags, rebuild,
}
use personal_productivity_ai.Workspace.Tags.Index.{
  holds-insert_all, tags_at-insert_tags, IsKeyed, is_used, is_used-insert_new,
}
use personal_productivity_ai.Workspace.Tags.Calls.{holds-rebuild}

-- The scan of the files: each is added once.
unfoldable pub scan : List (PathBuf × List Text) → Tags → Tags
unfolding add_tags
scan [] t = t
scan ((p, tags) ∷ files) t = scan files (add_tags p tags t)

-- The paths of the files are not in the map.
abbrev IsNew : FileTags → FileTags → Type 0
IsNew m [] = Unit
IsNew m ((p, tags) ∷ files) = (tags_at m p ≡ none) × IsNew m files

IsNew-insert_tags :
    (p : PathBuf) (tags : List Text) (m files : FileTags)
    → tags_at files p ≡ none
    → IsNew m files
    → IsNew (insert_tags p tags m) files
unfolding tags_at
IsNew-insert_tags p tags m [] e h = tt
IsNew-insert_tags p tags m ((q, ts) ∷ files) e h = (
  tags_at-insert_tags p q tags m ∙ ground (arith, e, h.0, path_eq_iff p q, path_eq_iff q p),
  IsNew-insert_tags p tags m files (ground (arith, e)) (h.1),
)

file_tags-add_tags :
    (p : PathBuf) (tags : List Text) (t : Tags)
    → (add_tags p tags t).file_tags ≡ insert_tags p tags (t.file_tags)
unfolding add_tags
file_tags-add_tags p tags t = elim (Bool-cases (is_prompt tags)) [
  | inl e ↦ rw e refl
  | inr e ↦ rw e refl
]

all_tags-add_tags :
    (p : PathBuf) (tags : List Text) (t : Tags)
    → (add_tags p tags t).all_tags ≡ insert_all tags (t.all_tags)
unfolding add_tags
all_tags-add_tags p tags t = elim (Bool-cases (is_prompt tags)) [
  | inl e ↦ rw e refl
  | inr e ↦ rw e refl
]

scan-exact :
    (files : FileTags) (t : Tags)
    → IsKeyed files
    → IsNew (t.file_tags) files
    → ((u : Text) → holds (t.all_tags) u ≡ is_used (t.file_tags) u)
    → (u : Text) → holds ((scan files t).all_tags) u ≡ is_used ((scan files t).file_tags) u
unfolding scan
scan-exact [] t k n h u = h u
scan-exact ((p, tags) ∷ files) t k n h u =
    let f = file_tags-add_tags p tags t in
    scan-exact files (add_tags p tags t) (k.1)
      (subst (λ m. IsNew m files) (sym f)
        (IsNew-insert_tags p tags (t.file_tags) files (k.0) (n.1)))
      (λ v.
        ap (λ l. holds l v) (all_tags-add_tags p tags t)
        ∙ holds-insert_all tags (t.all_tags) v
        ∙ rw (f, is_used-insert_new p tags (t.file_tags) v (n.0), h v) refl)
      u

IsNew-nil : (files : FileTags) → IsNew [] files
unfolding tags_at
IsNew-nil [] = tt
IsNew-nil ((p, tags) ∷ files) = (refl, IsNew-nil files)

-- After a scan that adds each file once, the tags are those that a rebuild would give.
pub scan-rebuild :
    (files : FileTags) (u : Text)
    → IsKeyed files
    → holds ((scan files new).all_tags) u ≡ holds ((rebuild (scan files new)).all_tags) u
unfolding new holds is_used
scan-rebuild files u k =
    scan-exact files new k (IsNew-nil files) (λ v. refl) u ∙ sym (holds-rebuild (scan files new) u)
