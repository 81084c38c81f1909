-- ===== src/Workspace/Tags/Calls.antt =====
-- The index after any calls: src/app/workspace/tags.rs
use personal_productivity_ai.Common.{
  ◌≡◌, refl, ap, sym, ◌∙◌, subst, true, not, ◌&&◌, List, [], ◌∷◌, if◌then◌else◌, arith, Bool-cases,
  inl, inr,
}
use personal_productivity_ai.Common.Text.{Text}
use personal_productivity_ai.Workspace.{
  PathBuf, path_eq, contains, contains-insert, contains-without,
}
use personal_productivity_ai.Workspace.Tags.{
  FileTags, Tags, insert_tags, remove_tags, tags_at, holds, insert_all, is_prompt, new, add_tags,
  remove_file, rebuild_one, rebuild_from, rebuild,
}
use personal_productivity_ai.Workspace.Tags.Index.{
  holds-insert_all, tags_at-insert_tags, tags_at-remove_tags, IsKeyed, insert_tags-IsKeyed,
  remove_tags-IsKeyed, is_marked, is_used, is_used-insert, is_used-remove, rebuild_from-tags,
  rebuild_from-prompts,
}

-- The files are kept once each, the prompts are the files tagged `prompt`, and no tag is missing.
unfoldable pub IsIndexed : Tags → Type 0
IsIndexed t =
    IsKeyed (t.file_tags)
    × ((q : PathBuf) → contains (t.prompt_paths) q ≡ is_marked (tags_at (t.file_tags) q))
    × ((u : Text) → is_used (t.file_tags) u ≡ true → holds (t.all_tags) u ≡ true)

-- The calls of the index.
pub data Call : Type 0 where
  add : PathBuf → List Text → Call
  remove : PathBuf → Call
  rebuild_all : Call

abbrev pub call : Call → Tags → Tags
unfolding add_tags remove_file rebuild
call (add path tags) t = add_tags path tags t
call (remove path) t = remove_file path t
call rebuild_all t = rebuild t

unfoldable pub calls : List Call → Tags → Tags
unfolding call
calls [] t = t
calls (c ∷ cs) t = calls cs (call c t)

is_marked-insert_tags :
    (p q : PathBuf) (tags : List Text) (m : FileTags)
    → is_marked (tags_at (insert_tags p tags m) q)
      ≡ (if path_eq p q then is_prompt tags else is_marked (tags_at m q))
is_marked-insert_tags p q tags m =
    ap is_marked (tags_at-insert_tags p q tags m)
    ∙ elim (Bool-cases (path_eq p q)) [ inl e ↦ rw e refl | inr e ↦ rw e refl ]

is_marked-remove_tags :
    (p q : PathBuf) (m : FileTags)
    → is_marked (tags_at (remove_tags p m) q) ≡ (not (path_eq p q) && is_marked (tags_at m q))
is_marked-remove_tags p q m =
    ap is_marked (tags_at-remove_tags p q m)
    ∙ elim (Bool-cases (path_eq p q)) [ inl e ↦ rw e refl | inr e ↦ rw e refl ]

add_tags-IsIndexed :
    (p : PathBuf) (tags : List Text) (t : Tags) → IsIndexed t → IsIndexed (add_tags p tags t)
unfolding add_tags IsIndexed
add_tags-IsIndexed p tags t (k, h, g) =
    let k' = insert_tags-IsKeyed p tags (t.file_tags) k in
    let g' : (u : Text)
        → is_used (insert_tags p tags (t.file_tags)) u ≡ true
        → holds (insert_all tags (t.all_tags)) u ≡ true =
      λ u e. ground (
        arith,
        holds-insert_all tags (t.all_tags) u,
        is_used-insert p tags (t.file_tags) u e,
        g u,
      ) in
    elim (Bool-cases (is_prompt tags)) [
      | inl e ↦ rw e (
        k',
        λ q.
            contains-insert p q (t.prompt_paths)
            ∙ ground (arith, e, h q, is_marked-insert_tags p q tags (t.file_tags)),
        g',
      )
      | inr e ↦ rw e (
        k',
        λ q.
            contains-without p q (t.prompt_paths)
            ∙ ground (arith, e, h q, is_marked-insert_tags p q tags (t.file_tags)),
        g',
      )
    ]

remove_file-IsIndexed : (p : PathBuf) (t : Tags) → IsIndexed t → IsIndexed (remove_file p t)
unfolding remove_file IsIndexed
remove_file-IsIndexed p t (k, h, g) = (
  remove_tags-IsKeyed p (t.file_tags) k,
  λ q.
      contains-without p q (t.prompt_paths)
      ∙ rw (h q) (sym (is_marked-remove_tags p q (t.file_tags))),
  λ u e. g u (is_used-remove p (t.file_tags) u e),
)

file_tags-rebuild_from : (m : FileTags) (t : Tags) → (rebuild_from m t).file_tags ≡ t.file_tags
unfolding rebuild_from rebuild_one
file_tags-rebuild_from [] t = refl
file_tags-rebuild_from ((p, tags) ∷ m) t =
    file_tags-rebuild_from m (rebuild_one p tags t)
    ∙ elim (Bool-cases (is_prompt tags)) [ inl e ↦ rw e refl | inr e ↦ rw e refl ]

pub holds-rebuild : (t : Tags) (u : Text) → holds ((rebuild t).all_tags) u ≡ is_used (t.file_tags) u
unfolding rebuild holds
holds-rebuild t u =
    rebuild_from-tags (t.file_tags) (record t { all_tags = []; prompt_paths = [] }) u ∙ ground arith

rebuild-IsIndexed : (t : Tags) → IsIndexed t → IsIndexed (rebuild t)
unfolding rebuild IsIndexed contains
rebuild-IsIndexed t (k, h, g) =
    let t0 : Tags = record t { all_tags = []; prompt_paths = [] } in
    let f : (rebuild t).file_tags ≡ t.file_tags = file_tags-rebuild_from (t.file_tags) t0 in
    (
      subst IsKeyed (sym f) k,
      λ q. rebuild_from-prompts (t.file_tags) t0 q k ∙ rw f (ground arith),
      λ u e. holds-rebuild t u ∙ subst (λ m. is_used m u ≡ true) f e,
    )

call-IsIndexed : (c : Call) (t : Tags) → IsIndexed t → IsIndexed (call c t)
unfolding call
call-IsIndexed (add path tags) t h = add_tags-IsIndexed path tags t h
call-IsIndexed (remove path) t h = remove_file-IsIndexed path t h
call-IsIndexed rebuild_all t h = rebuild-IsIndexed t h

calls-IsIndexed : (cs : List Call) (t : Tags) → IsIndexed t → IsIndexed (calls cs t)
unfolding calls
calls-IsIndexed [] t h = h
calls-IsIndexed (c ∷ cs) t h = calls-IsIndexed cs (call c t) (call-IsIndexed c t h)

-- After any calls on a new index, the prompts are exactly the files tagged `prompt`, upper or lower
-- case, and a rebuild makes the tags exactly those that a file has, of which none was missing before.
pub calls-rebuild :
    (cs : List Call)
    → let t = calls cs new in
      ((q : PathBuf) → contains (t.prompt_paths) q ≡ is_marked (tags_at (t.file_tags) q))
      × ((u : Text) → is_used (t.file_tags) u ≡ true → holds (t.all_tags) u ≡ true)
      × ((u : Text) → holds ((rebuild t).all_tags) u ≡ is_used (t.file_tags) u)
unfolding IsIndexed new contains is_used tags_at
calls-rebuild cs =
    let (k, h, g) = calls-IsIndexed cs new (tt, λ q. refl, λ u e. cc) in
    (h, g, holds-rebuild (calls cs new))
