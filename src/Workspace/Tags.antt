-- ===== src/Workspace/Tags.antt =====
-- The tags of the files: src/app/workspace/tags.rs
-- The map from paths to tags is an association list without repetitions, and the sets are lists, whose
-- order nothing here reads.
pub mod Index
pub mod Calls
pub mod Scan
use personal_productivity_ai.Common.{
  ℕ, ◌+◌, Bool, true, false, ◌&&◌, ◌||◌, Option, none, some, List, [], ◌∷◌, map, if◌then◌else◌, leb,
}
use personal_productivity_ai.Common.Text.{Text, codes, text_eq}
use personal_productivity_ai.Workspace.{PathBuf, path_eq, contains, insert, without}

abbrev pub FileTags : Type 0
FileTags = List (PathBuf × List Text)

-- `insert`, `remove` and `get` of the map.
unfoldable pub insert_tags : PathBuf → List Text → FileTags → FileTags
unfolding path_eq
insert_tags p tags [] = (p, tags) ∷ []
insert_tags p tags ((q, ts) ∷ m) =
    if path_eq q p then (p, tags) ∷ m else (q, ts) ∷ insert_tags p tags m

unfoldable pub remove_tags : PathBuf → FileTags → FileTags
unfolding path_eq
remove_tags p [] = []
remove_tags p ((q, ts) ∷ m) =
    let rest = remove_tags p m in if path_eq q p then rest else (q, ts) ∷ rest

unfoldable pub tags_at : FileTags → PathBuf → Option (List Text)
unfolding path_eq
tags_at [] p = none
tags_at ((q, ts) ∷ m) p = if path_eq q p then some ts else tags_at m p

unfoldable pub holds : List Text → Text → Bool
unfolding text_eq
holds [] t = false
holds (u ∷ tags) t = text_eq u t || holds tags t

-- The set with a tag more.
unfoldable pub insert_tag : Text → List Text → List Text
unfolding holds
insert_tag t tags = if holds tags t then tags else t ∷ tags

unfoldable pub insert_all : List Text → List Text → List Text
unfolding insert_tag
insert_all [] tags = tags
insert_all (t ∷ new) tags = insert_all new (insert_tag t tags)

abbrev pub to_ascii_lowercase : ℕ → ℕ
to_ascii_lowercase c = if leb 65 c && leb c 90 then c + 32 else c

abbrev pub eq_ignore_ascii_case : Text → Text → Bool
unfolding text_eq
eq_ignore_ascii_case s t = text_eq (map to_ascii_lowercase s) (map to_ascii_lowercase t)

unfoldable pub is_prompt : List Text → Bool
unfolding eq_ignore_ascii_case
is_prompt [] = false
is_prompt (t ∷ tags) = eq_ignore_ascii_case t (codes "prompt") || is_prompt tags

pub record Tags : Type 0 where
  pub file_tags : FileTags
  pub all_tags : List Text
  pub prompt_paths : List PathBuf
  pub selected_tag : Option Text

unfoldable pub new : Tags
new = record { file_tags = []; all_tags = []; prompt_paths = []; selected_tag = none }

unfoldable pub add_tags : PathBuf → List Text → Tags → Tags
unfolding is_prompt insert_tags insert_all insert without
add_tags path tags t =
    let s = record t {
      file_tags = insert_tags path tags (t.file_tags);
      all_tags = insert_all tags (t.all_tags);
    } in
    if is_prompt tags
    then record s { prompt_paths = (insert path (t.prompt_paths)).1 }
    else record s { prompt_paths = without path (t.prompt_paths) }

unfoldable pub remove_file : PathBuf → Tags → Tags
unfolding remove_tags without
remove_file path t = record t {
  file_tags = remove_tags path (t.file_tags);
  prompt_paths = without path (t.prompt_paths);
}

-- One file of the loop of `rebuild`.
unfoldable pub rebuild_one : PathBuf → List Text → Tags → Tags
unfolding insert_all is_prompt insert
rebuild_one path tags t =
    let s = record t { all_tags = insert_all tags (t.all_tags) } in
    if is_prompt tags then record s { prompt_paths = (insert path (t.prompt_paths)).1 } else s

unfoldable pub rebuild_from : FileTags → Tags → Tags
unfolding rebuild_one
rebuild_from [] t = t
rebuild_from ((path, tags) ∷ m) t = rebuild_from m (rebuild_one path tags t)

unfoldable pub rebuild : Tags → Tags
unfolding rebuild_from
rebuild t = rebuild_from (t.file_tags) (record t { all_tags = []; prompt_paths = [] })
