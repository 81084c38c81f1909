-- ===== src/Workspace/Tags/Index.antt =====
-- That the sets of tags and of prompts agree with the files: src/app/workspace/tags.rs
use personal_productivity_ai.Common.{
  ◌≡◌, refl, ap, ◌∙◌, subst, Bool, true, false, ◌&&◌, ◌||◌, Option, none, some, List, [], ◌∷◌,
  if◌then◌else◌, arith, Bool-cases, inl, inr,
}
use personal_productivity_ai.Common.Text.{Text, text_eq, text_eq_iff}
use personal_productivity_ai.Workspace.{PathBuf, path_eq, path_eq_iff, contains, contains-insert}
use personal_productivity_ai.Workspace.Tags.{
  FileTags, Tags, insert_tags, remove_tags, tags_at, holds, insert_tag, insert_all, is_prompt, new,
  rebuild_one, rebuild_from,
}

pub holds-insert_tag :
    (t u : Text) (tags : List Text) → holds (insert_tag t tags) u ≡ (text_eq t u || holds tags u)
unfolding insert_tag holds
holds-insert_tag t u tags = elim (Bool-cases (holds tags t)) [
  | inl e ↦ ground (arith, text_eq_iff t u, ap (holds tags))
  | inr e ↦ rw e refl
]

pub holds-insert_all :
    (new tags : List Text) (u : Text)
    → holds (insert_all new tags) u ≡ (holds new u || holds tags u)
unfolding insert_all holds
holds-insert_all [] tags u = refl
holds-insert_all (t ∷ new) tags u =
    ground (arith, holds-insert_all new (insert_tag t tags) u, holds-insert_tag t u tags)

pub tags_at-insert_tags :
    (p q : PathBuf) (tags : List Text) (m : FileTags)
    → tags_at (insert_tags p tags m) q ≡ (if path_eq p q then some tags else tags_at m q)
unfolding tags_at insert_tags
tags_at-insert_tags p q tags [] = refl
tags_at-insert_tags p q tags ((r, ts) ∷ m) =
    ground
      (arith, tags_at-insert_tags p q tags m, path_eq_iff r p, path_eq_iff p q, path_eq_iff r q)

pub tags_at-remove_tags :
    (p q : PathBuf) (m : FileTags)
    → tags_at (remove_tags p m) q ≡ (if path_eq p q then none else tags_at m q)
unfolding tags_at remove_tags
tags_at-remove_tags p q [] = ground arith
tags_at-remove_tags p q ((r, ts) ∷ m) =
    ground (arith, tags_at-remove_tags p q m, path_eq_iff r p, path_eq_iff p q, path_eq_iff r q)

-- No path stands twice in the map.
abbrev pub IsKeyed : FileTags → Type 0
IsKeyed [] = Unit
IsKeyed ((p, tags) ∷ m) = (tags_at m p ≡ none) × IsKeyed m

pub insert_tags-IsKeyed :
    (p : PathBuf) (tags : List Text) (m : FileTags) → IsKeyed m → IsKeyed (insert_tags p tags m)
unfolding insert_tags tags_at
insert_tags-IsKeyed p tags [] h = (refl, tt)
insert_tags-IsKeyed p tags ((q, ts) ∷ m) h = elim (Bool-cases (path_eq q p)) [
  | inl e ↦ rw e (subst (λ r. tags_at m r ≡ none) ((path_eq_iff q p).0 e) (h.0), h.1)
  | inr e ↦ rw e (
    tags_at-insert_tags p q tags m ∙ ground (arith, h.0, e, path_eq_iff p q, path_eq_iff q p),
    insert_tags-IsKeyed p tags m (h.1),
  )
]

pub remove_tags-IsKeyed : (p : PathBuf) (m : FileTags) → IsKeyed m → IsKeyed (remove_tags p m)
unfolding remove_tags
remove_tags-IsKeyed p [] h = h
remove_tags-IsKeyed p ((q, ts) ∷ m) h = elim (Bool-cases (path_eq q p)) [
  | inl e ↦ rw e (remove_tags-IsKeyed p m (h.1))
  | inr e ↦ rw e (tags_at-remove_tags p q m ∙ ground (arith, h.0), remove_tags-IsKeyed p m (h.1))
]

-- Whether the tags of a file make it a prompt.
abbrev pub is_marked : Option (List Text) → Bool
is_marked none = false
is_marked (some tags) = is_prompt tags

-- Whether a file has the tag.
unfoldable pub is_used : FileTags → Text → Bool
is_used [] u = false
is_used ((p, tags) ∷ m) u = holds tags u || is_used m u

pub is_used-insert_new :
    (p : PathBuf) (tags : List Text) (m : FileTags) (u : Text)
    → tags_at m p ≡ none
    → is_used (insert_tags p tags m) u ≡ (holds tags u || is_used m u)
unfolding is_used insert_tags tags_at
is_used-insert_new p tags [] u h = refl
is_used-insert_new p tags ((q, ts) ∷ m) u h = elim (Bool-cases (path_eq q p)) [
  | inl e ↦ ground (arith, h, e)
  | inr e ↦ rw e (ground (arith, is_used-insert_new p tags m u (ground (arith, h, e))))
]

pub is_used-insert :
    (p : PathBuf) (tags : List Text) (m : FileTags) (u : Text)
    → is_used (insert_tags p tags m) u ≡ true
    → (holds tags u || is_used m u) ≡ true
unfolding is_used insert_tags
is_used-insert p tags [] u h = h
is_used-insert p tags ((q, ts) ∷ m) u h = ground (arith, h, is_used-insert p tags m u)

pub is_used-remove :
    (p : PathBuf) (m : FileTags) (u : Text)
    → is_used (remove_tags p m) u ≡ true
    → is_used m u ≡ true
unfolding is_used remove_tags
is_used-remove p [] u h = h
is_used-remove p ((q, ts) ∷ m) u h = ground (arith, h, is_used-remove p m u)

pub rebuild_one-tags :
    (p : PathBuf) (tags : List Text) (t : Tags)
    → (rebuild_one p tags t).all_tags ≡ insert_all tags (t.all_tags)
unfolding rebuild_one
rebuild_one-tags p tags t = elim (Bool-cases (is_prompt tags)) [
  | inl e ↦ rw e refl
  | inr e ↦ rw e refl
]

pub rebuild_one-prompts :
    (p q : PathBuf) (tags : List Text) (t : Tags)
    → contains ((rebuild_one p tags t).prompt_paths) q
      ≡ ((is_prompt tags && path_eq p q) || contains (t.prompt_paths) q)
unfolding rebuild_one
rebuild_one-prompts p q tags t = elim (Bool-cases (is_prompt tags)) [
  | inl e ↦ rw e (contains-insert p q (t.prompt_paths))
  | inr e ↦ rw e refl
]

pub rebuild_from-tags :
    (m : FileTags) (t : Tags) (u : Text)
    → holds ((rebuild_from m t).all_tags) u ≡ (is_used m u || holds (t.all_tags) u)
unfolding rebuild_from is_used
rebuild_from-tags [] t u = refl
rebuild_from-tags ((p, tags) ∷ m) t u =
    rebuild_from-tags m (rebuild_one p tags t) u
    ∙ ap (λ l. is_used m u || holds l u) (rebuild_one-tags p tags t)
    ∙ ground (arith, holds-insert_all tags (t.all_tags) u)

pub rebuild_from-prompts :
    (m : FileTags) (t : Tags) (q : PathBuf)
    → IsKeyed m
    → contains ((rebuild_from m t).prompt_paths) q
      ≡ (is_marked (tags_at m q) || contains (t.prompt_paths) q)
unfolding rebuild_from tags_at
rebuild_from-prompts [] t q h = refl
rebuild_from-prompts ((p, tags) ∷ m) t q h =
    rebuild_from-prompts m (rebuild_one p tags t) q (h.1)
    ∙ ap (λ b. is_marked (tags_at m q) || b) (rebuild_one-prompts p q tags t)
    ∙ elim (Bool-cases (path_eq p q)) [
      | inl e ↦
          let n : tags_at m q ≡ none =
            subst (λ r. tags_at m r ≡ none) ((path_eq_iff p q).0 e) (h.0) in
          rw (e, n) (ground arith)
      | inr e ↦ rw e (ground arith)
    ]
