-- ===== src/Tabs.antt =====
-- The open documents and their cached views: src/app/ui/tabs.rs
-- The hashes of `DefaultHasher` are parameters (`Hashes`), and so are the headings that the Markdown
-- parser finds, before their white space is trimmed. An `Arc` is its content. Fields that the application writes
-- itself are written by the calls `loads` and `writes`: `tabs` in src/app/command_executor.rs and
-- src/app/orchestrator.rs.
pub mod Strip
pub mod Headings
mod Tests
use personal_productivity_ai.Common.{
  ℕ, zero, suc, ◌+◌, ◌==◌, Bool, true, false, not, ◌||◌, Option, none, some, List, [], ◌∷◌, ◌++◌,
  map, if◌then◌else◌,
}
use personal_productivity_ai.Common.Text.{Text, codes, text_eq}
use personal_productivity_ai.Common.Trim.{trim, is_empty}
use personal_productivity_ai.Workspace.{PathBuf, contains, insert, without}

-- The file name: none of a root, of `..` and of the empty path.
unfoldable pub file_name : PathBuf → Option Text
unfolding text_eq
file_name [] = none
file_name (c ∷ []) = if text_eq c (codes "/") || text_eq c (codes "..") then none else some c
file_name (c ∷ d ∷ p) = file_name (d ∷ p)

abbrev or_empty : Option Text → Text
or_empty none = []
or_empty (some t) = t

unfoldable pub title_of : PathBuf → Text
unfolding file_name
title_of p = or_empty (file_name p)

pub record ToCEntry : Type 0 where
  pub id : Text
  pub title : Text
  pub level : ℕ

pub record TabStripCache : Type 0 where
  pub tabs_hash : ℕ
  pub valid : Bool
  pub paths : List PathBuf
  pub titles : List Text

pub record Hashes : Type 0 where
  pub hash_tabs : List PathBuf → ℕ
  pub hash_text : Text → ℕ
  pub hash_toc : List ToCEntry → ℕ
  pub headings : Text → List Text
  pub decimal : ℕ → Text

pub record Tabs (Yaml : Type 0) : Type 0 where
  pub loaded_path : Option PathBuf
  pub current_yaml : Option Yaml
  pub current_markdown : Text
  pub tabs : List PathBuf
  pub tabs_set : List PathBuf
  pub toc : List ToCEntry
  pub scroll_to_header_id : Option Text
  pub scroll_to_search : Option Text
  pub pending_task_toggles : List (ℕ × Bool)
  pub tab_strip_cache : TabStripCache
  pub heading_ids_cache : Option (ℕ × List Text)
  pub toc_cache : Option (ℕ × List ToCEntry)

-- How often a text was seen, in a map of which a missing key stands for 0.
unfoldable pub seen : List Text → Text → ℕ
unfolding text_eq
seen [] t = 0
seen (s ∷ before) t = let rest = seen before t in if text_eq s t then suc rest else rest

-- `{text}#{n}`; 35 is `#`.
unfoldable pub id_of : Hashes → Text → ℕ → Text
id_of h text zero = text
id_of h text (suc n) = text ++ 35 ∷ h.decimal (suc n)

-- The ids of the headings that are not empty; a text that was seen has its count behind it.
unfoldable pub ids_from : Hashes → List Text → List Text → List Text
unfolding seen id_of trim
ids_from h before [] = []
ids_from h before (t ∷ texts) =
    let rest = ids_from h (if is_empty (trim t) then before else trim t ∷ before) texts in
    if is_empty (trim t) then rest else id_of h (trim t) (seen before (trim t)) ∷ rest

-- What is cached under the hash, or else the value that is computed.
abbrev pub fresh_of : {A : Type 0} → ℕ → A → Option (ℕ × A) → A
fresh_of hash value none = value
fresh_of hash value (some (cached_hash, cached)) = if cached_hash == hash then cached else value

-- What the application does with the tabs.
pub data Call : Type 0 where
  opens closes : PathBuf → Call
  shows_strip asks_ids asks_toc clears drops_ids : Call
  writes : List PathBuf → Call
  loads : PathBuf → Text → List ToCEntry → Call

module _ {Yaml : Type 0} where
  unfoldable pub new : Tabs Yaml
  new = record {
    loaded_path = none;
    current_yaml = none;
    current_markdown = [];
    tabs = [];
    tabs_set = [];
    toc = [];
    scroll_to_header_id = none;
    scroll_to_search = none;
    pending_task_toggles = [];
    tab_strip_cache = record { tabs_hash = 0; valid = false; paths = []; titles = [] };
    heading_ids_cache = none;
    toc_cache = none;
  }

  unfoldable pub invalidate_tab_strip_cache : Tabs Yaml → Tabs Yaml
  invalidate_tab_strip_cache s = record s {
    tab_strip_cache = record (s.tab_strip_cache) { valid = false };
  }

  unfoldable pub open_tab : PathBuf → Tabs Yaml → Tabs Yaml
  unfolding insert invalidate_tab_strip_cache
  open_tab path s =
      let (fresh, set) = insert path (s.tabs_set) in
      if fresh
      then invalidate_tab_strip_cache (record s { tabs = s.tabs ++ path ∷ []; tabs_set = set })
      else record s { tabs_set = set }

  unfoldable pub close_tab : PathBuf → Tabs Yaml → Tabs Yaml
  unfolding contains without invalidate_tab_strip_cache
  close_tab path s =
      if contains (s.tabs_set) path
      then invalidate_tab_strip_cache
          (record s { tabs = without path (s.tabs); tabs_set = without path (s.tabs_set) })
      else s

  -- The cached strip, built again where it is invalid or another hash tells that the tabs changed.
  unfoldable pub tab_strip : Hashes → Tabs Yaml → (List PathBuf × List Text) × Tabs Yaml
  unfolding title_of
  tab_strip h s =
      let hash = h.hash_tabs (s.tabs) in
      let built : TabStripCache = record {
        tabs_hash = hash;
        valid = true;
        paths = s.tabs;
        titles = map title_of (s.tabs);
      } in
      let cache =
        if not (s.tab_strip_cache.valid) || not (s.tab_strip_cache.tabs_hash == hash)
        then built
        else s.tab_strip_cache in
      ((cache.paths, cache.titles), record s { tab_strip_cache = cache })

  unfoldable pub heading_ids : Hashes → Tabs Yaml → List Text × Tabs Yaml
  unfolding ids_from
  heading_ids h s =
      let hash = h.hash_text (s.current_markdown) in
      let ids =
        fresh_of hash (ids_from h [] (h.headings (s.current_markdown))) (s.heading_ids_cache) in
      (ids, record s { heading_ids_cache = some (hash, ids) })

  unfoldable pub invalidate_heading_ids_cache : Tabs Yaml → Tabs Yaml
  invalidate_heading_ids_cache s = record s { heading_ids_cache = none }

  unfoldable pub toc_arc : Hashes → Tabs Yaml → List ToCEntry × Tabs Yaml
  toc_arc h s =
      let hash = h.hash_toc (s.toc) in
      let toc = fresh_of hash (s.toc) (s.toc_cache) in
      (toc, record s { toc_cache = some (hash, toc) })

  unfoldable pub clear_content : Tabs Yaml → Tabs Yaml
  clear_content s = record s {
    loaded_path = none;
    current_yaml = none;
    current_markdown = [];
    toc = [];
    scroll_to_header_id = none;
    scroll_to_search = none;
    heading_ids_cache = none;
  }

  unfoldable pub call : Hashes → Call → Tabs Yaml → Tabs Yaml
  unfolding open_tab close_tab tab_strip heading_ids toc_arc clear_content
      invalidate_heading_ids_cache
  call h (opens p) s = open_tab p s
  call h (closes p) s = close_tab p s
  call h shows_strip s = (tab_strip h s).1
  call h asks_ids s = (heading_ids h s).1
  call h asks_toc s = (toc_arc h s).1
  call h clears s = clear_content s
  call h drops_ids s = invalidate_heading_ids_cache s
  call h (writes paths) s = record s { tabs = paths }
  call h (loads path text toc) s = record s {
    loaded_path = some path;
    current_markdown = text;
    toc = toc;
  }

  unfoldable pub calls : Hashes → List Call → Tabs Yaml → Tabs Yaml
  unfolding call
  calls h [] s = s
  calls h (c ∷ cs) s = calls h cs (call h c s)
