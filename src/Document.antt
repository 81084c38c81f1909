-- ===== src/Document.antt =====
-- Documents with front matter: src/app/markdown/document.rs.
-- The YAML parser (`serde_norway::from_str`) is the parameter `from_str`, the AST of
-- src/app/markdown/parser.rs the parameter `parse_events`, and the ranges of the task markers that
-- `pulldown_cmark` reports, in order, the parameter `task_markers`. A text is the list of its
-- characters and a range counts characters: a marker is ASCII, so its bytes are its characters.
pub mod RoundTrip
pub mod Toggle
pub mod Revisions
mod Tests
use mathlib.Core.Option
use personal_productivity_ai.Common.{
  ℕ, ◌+◌, ◌-◌, ◌≤◌, zero, suc, Bool, true, false, Option, none, some, List, [], ◌∷◌, ◌++◌, length,
  take, drop, get_elem?, leb, ◌==◌, if◌then◌else◌,
}
use personal_productivity_ai.Common.Text.{Text, codes, text_eq}
use personal_productivity_ai.Common.Trim.{trim, is_empty}
use personal_productivity_ai.Common.Split.{split_once}

pub record FrontMatter (Yaml : Type 0) : Type 0 where
  pub yaml : Yaml
  pub source : Text
  pub body : Text

pub record DocumentContent : Type 0 where
  pub front_matter : Option Text
  pub body : Text

abbrev pub dashes : Text
dashes = codes "---"

-- `s.strip_prefix('\u{feff}').unwrap_or(s)`
unfoldable pub strip_bom : Text → Text
strip_bom [] = []
strip_bom (c ∷ s) = if c == 0xfeff then s else c ∷ s

abbrev pub with_first : Text → Option (Text × Text) → Option (Text × Text × Text)
with_first a none = none
with_first a (some (b, c)) = some (a, b, c)

abbrev pub then_split : Option (Text × Text) → Option (Text × Text × Text)
then_split none = none
then_split (some (a, rest)) = with_first a (split_once dashes rest)

-- `content.splitn(3, "---")`, where it has three parts.
unfoldable pub split_three : Text → Option (Text × Text × Text)
unfolding split_once
split_three content = then_split (split_once dashes content)

abbrev pub with_yaml : {Yaml : Type 0} → Text → Text → Option Yaml → Option (FrontMatter Yaml)
with_yaml source body none = none
with_yaml source body (some y) = some (record { yaml = y; source = source; body = body })

module _ {Yaml : Type 0} (from_str : Text → Option Yaml) where
  -- `parse_front_matter` on the three parts.
  unfoldable pub front_matter_of : Option (Text × Text × Text) → Option (FrontMatter Yaml)
  unfolding trim is_empty
  front_matter_of none = none
  front_matter_of (some (before, source, body)) =
      if is_empty (trim before) then with_yaml source body (from_str source) else none

  unfoldable pub parse_front_matter : Text → Option (FrontMatter Yaml)
  unfolding strip_bom split_three front_matter_of
  parse_front_matter content = front_matter_of (split_three (strip_bom content))

  abbrev pub content_of : Text → Option (FrontMatter Yaml) → DocumentContent
  content_of raw (some fm) = record {
    front_matter = some (dashes ++ (fm.source ++ dashes));
    body = fm.body;
  }
  content_of raw none = record { front_matter = none; body = raw }

  -- `DocumentContent::parse`
  unfoldable pub parse : Text → DocumentContent
  unfolding parse_front_matter
  parse raw = content_of raw (parse_front_matter (strip_bom raw))

-- `Display for DocumentContent`
unfoldable pub to_string : DocumentContent → Text
to_string d = elim d.front_matter [ some fm ↦ fm ++ d.body | none ↦ d.body ]

-- `str::find` of one character.
unfoldable pub find_char : ℕ → Text → Option ℕ
find_char c [] = none
find_char c (d ∷ s) = if d == c then some 0 else Option.map suc (find_char c s)

abbrev pub or_else {ℓ} : {A : Type ℓ} → Option A → Option A → Option A
or_else none b = b
or_else (some a) b = some a

abbrev pub marker : Bool → Text
marker checked = if checked then codes "[x]" else codes "[ ]"

-- `markdown.replace_range(start..start + 3, new_marker)` behind its bounds test.
unfoldable pub replace_marker : Text → Bool → ℕ → Text
replace_marker md checked start =
    if leb (start + 3) (length md)
    then take start md ++ (marker checked ++ drop (start + 3) md)
    else md

abbrev pub toggle_found : Text → Bool → ℕ → Option ℕ → Text
toggle_found md checked start none = md
toggle_found md checked start (some off) = replace_marker md checked (start + off)

-- The body of the loop at the marker that was asked for.
unfoldable pub toggle_at : Text → Bool → ℕ × ℕ → Text
unfolding find_char replace_marker
toggle_at md checked (start, end) =
    toggle_found md checked start (
      or_else (find_char b'[' (take (end - start) (drop start md)))
        (find_char b'[' (drop start md)))

module _ (task_markers : Text → List (ℕ × ℕ)) where
  unfoldable pub apply_task_toggle : Text → ℕ → Bool → Text
  unfolding toggle_at
  apply_task_toggle md task_index checked = elim (get_elem? (task_markers md) task_index) [
    | none ↦ md
    | some range ↦ toggle_at md checked range
  ]

pub record Document (Yaml Events : Type 0) : Type 0 where
  pub source : Text
  pub front_matter : Option (FrontMatter Yaml)
  pub events : Events
  pub revision : ℕ

abbrev pub body_of : {Yaml : Type 0} → Option (FrontMatter Yaml) → Text → Text
body_of (some fm) source = fm.body
body_of none source = source

-- What a `Document` calls of the rest of the program and of its libraries.
pub record Parsers (Yaml Events : Type 0) : Type 0 where
  pub from_str : Text → Option Yaml
  pub parse_events : Text → Events
  pub task_markers : Text → List (ℕ × ℕ)

module _ {Yaml Events : Type 0} (p : Parsers Yaml Events) where
  open p use {from_str, parse_events, task_markers}

  -- `Document::new`
  pub new : Text → Document Yaml Events
  unfolding parse_front_matter
  new source =
      let fm = parse_front_matter from_str source in
      record {
        source = source;
        front_matter = fm;
        events = parse_events (body_of fm source);
        revision = 1;
      }

  pub update_source : Document Yaml Events → Text → Document Yaml Events
  unfolding parse_front_matter text_eq
  update_source d new_source =
      let fm = parse_front_matter from_str new_source in
      if text_eq d.source new_source then d else record {
        source = new_source;
        front_matter = fm;
        events = parse_events (body_of fm new_source);
        revision = d.revision + 1;
      }

  toggled : Document Yaml Events → ℕ → Bool → Option (FrontMatter Yaml) → Document Yaml Events
  unfolding apply_task_toggle
  toggled d task_index checked (some fm) =
      let body = apply_task_toggle task_markers fm.body task_index checked in
      record {
        source = dashes ++ (fm.source ++ (dashes ++ body));
        front_matter = some (record fm { body = body });
        events = parse_events body;
        revision = d.revision + 1;
      }
  toggled d task_index checked none =
      let source = apply_task_toggle task_markers d.source task_index checked in
      record {
        source = source;
        front_matter = none;
        events = parse_events source;
        revision = d.revision + 1;
      }

  pub toggle_task : Document Yaml Events → ℕ → Bool → Document Yaml Events
  unfolding toggled
  toggle_task d task_index checked = toggled d task_index checked d.front_matter

  pub body : Document Yaml Events → Text
  body d = body_of d.front_matter d.source

pub data Update : Type 0 where
  rewrites : Text → Update
  toggles : ℕ → Bool → Update

module _ {Yaml Events : Type 0} (p : Parsers Yaml Events) where
  pub update : Document Yaml Events → Update → Document Yaml Events
  unfolding update_source toggle_task
  update d (rewrites s) = update_source p d s
  update d (toggles i c) = toggle_task p d i c

  pub updates : Document Yaml Events → List Update → Document Yaml Events
  unfolding update
  updates d [] = d
  updates d (u ∷ us) = updates (update d u) us
