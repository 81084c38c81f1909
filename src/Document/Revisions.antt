-- ===== src/Document/Revisions.antt =====
-- A `Document` of src/app/markdown/document.rs under edits: its views stay those of its source.
use personal_productivity_ai.Common.{
  ℕ, ◌≡◌, refl, ap, ◌∙◌, inl, inr, Bool, Option, none, some, List, [], ◌∷◌, ◌++◌, arith, Bool-cases,
}
use personal_productivity_ai.Common.Text.{Text, text_eq}
use personal_productivity_ai.Common.Trim.{trim, is_empty}
use personal_productivity_ai.Common.Split.{split_once, split_once_tail, split_once_self}
use personal_productivity_ai.Document.{
  FrontMatter, dashes, with_first, then_split, with_yaml, strip_bom, split_three, front_matter_of,
  parse_front_matter, apply_task_toggle, Document, Parsers, new, update_source, toggled,
  toggle_task, body, Update, rewrites, toggles, update, updates,
}

with_first-some :
    (x b c : Text) (o : Option (Text × Text)) (a : Text)
    → with_first x o ≡ some (a, b, c)
    → o ≡ some (b, c)
with_first-some x b c none a h = cc
with_first-some x b c (some (y, z)) a h = ground (arith, h)

then_split-some :
    (a b c : Text) (o : Option (Text × Text))
    → then_split o ≡ some (a, b, c)
    → (rest : Text) × (split_once dashes rest ≡ some (b, c))
then_split-some a b c none h = cc
then_split-some a b c (some (x, rest)) h =
    (rest, with_first-some x b c (split_once dashes rest) a h)

with_yaml-some :
    {Yaml : Type 0} (s b : Text) (o : Option Yaml) (fm : FrontMatter Yaml)
    → with_yaml s b o ≡ some fm
    → (fm.source ≡ s) × (fm.body ≡ b) × (o ≡ some fm.yaml)
with_yaml-some s b none fm h = cc
with_yaml-some s b (some y) fm h = (ground arith, ground arith, ground arith)

module _ {Yaml : Type 0} (from_str : Text → Option Yaml) where
  front_matter_of-some :
      (o : Option (Text × Text × Text)) (fm : FrontMatter Yaml)
      → front_matter_of from_str o ≡ some fm
      → (a : Text) × (o ≡ some (a, fm.source, fm.body)) × (from_str fm.source ≡ some fm.yaml)
  unfolding front_matter_of
  front_matter_of-some none fm h = cc
  front_matter_of-some (some (a, s, b)) fm h = elim (Bool-cases (is_empty (trim a))) [
    | inl e ↦
        let (p, q, r) = with_yaml-some s b (from_str s) fm (ground (arith, e)) in
        (a, ground (arith, p, q), rw p r)
    | inr e ↦ absurd (ground (arith, e))
  ]

  stitched :
      (fm : FrontMatter Yaml) (b : Text)
      → split_once dashes (fm.source ++ (dashes ++ b)) ≡ some (fm.source, b)
      → from_str fm.source ≡ some fm.yaml
      → parse_front_matter from_str (dashes ++ (fm.source ++ (dashes ++ b)))
        ≡ some (record fm { body = b })
  unfolding parse_front_matter
  stitched fm b h y =
      ap (λ o. front_matter_of from_str (then_split o))
        (split_once_self b'-' (b'-' ∷ b'-' ∷ []) (fm.source ++ (dashes ++ b)))
      ∙ ap (λ o. front_matter_of from_str (with_first [] o)) h
      ∙ ap (with_yaml fm.source b) y

  -- The stitched source parses to the same front matter over the new body.
  parse-stitched :
      (s : Text) (fm : FrontMatter Yaml) (b : Text)
      → parse_front_matter from_str s ≡ some fm
      → parse_front_matter from_str (dashes ++ (fm.source ++ (dashes ++ b)))
        ≡ some (record fm { body = b })
  unfolding parse_front_matter split_three
  parse-stitched s fm b h =
      let (a, e, y) = front_matter_of-some (split_three (strip_bom s)) fm h in
      let (rest, r) = then_split-some a fm.source fm.body (split_once dashes (strip_bom s)) e in
      stitched fm b (split_once_tail b'-' (b'-' ∷ b'-' ∷ []) rest fm.source fm.body b r) y

module _ {Yaml Events : Type 0} (p : Parsers Yaml Events) where
  open p use {from_str, parse_events, task_markers}

  -- The events are those of the body, and front matter that is held is that of the source.
  pub record IsParsed (d : Document Yaml Events) : Type 0 where
    pub events_of : d.events ≡ parse_events (body p d)
    pub front_of :
        (fm : FrontMatter Yaml)
        → d.front_matter ≡ some fm
        → parse_front_matter from_str d.source ≡ some fm

  new-IsParsed : (s : Text) → IsParsed (new p s)
  unfolding new body
  new-IsParsed s = record { events_of = refl; front_of = λ fm h. h }

  update_source-IsParsed :
      (d : Document Yaml Events) (s : Text) → IsParsed d → IsParsed (update_source p d s)
  unfolding update_source body
  update_source-IsParsed d s v = elim (Bool-cases (text_eq d.source s)) [
    | inl e ↦ rw e v
    | inr e ↦ rw e (record { events_of = refl; front_of = λ fm h. h })
  ]

  toggle_task-IsParsed :
      (d : Document Yaml Events) (i : ℕ) (c : Bool) → IsParsed d → IsParsed (toggle_task p d i c)
  unfolding toggle_task body
  toggle_task-IsParsed d i c v = at d.front_matter (λ fm h. v.front_of fm h)
    where
      at :
          (o : Option (FrontMatter Yaml))
          → ((fm : FrontMatter Yaml) → o ≡ some fm → parse_front_matter from_str d.source ≡ some fm)
          → IsParsed (toggled p d i c o)
      at none h = record { events_of = refl; front_of = λ fm e. absurd (cc e) }
      at (some fm) h = record {
        events_of = refl;
        front_of = λ fm' e.
            parse-stitched from_str d.source fm (apply_task_toggle task_markers fm.body i c)
              (h fm refl)
            ∙ e;
      }

  update-IsParsed : (d : Document Yaml Events) (u : Update) → IsParsed d → IsParsed (update p d u)
  unfolding update
  update-IsParsed d (rewrites s) v = update_source-IsParsed d s v
  update-IsParsed d (toggles i c) v = toggle_task-IsParsed d i c v

  updates-IsParsed :
      (d : Document Yaml Events) (us : List Update) → IsParsed d → IsParsed (updates p d us)
  unfolding updates
  updates-IsParsed d [] v = v
  updates-IsParsed d (u ∷ us) v = updates-IsParsed (update p d u) us (update-IsParsed d u v)

  -- After any rewrites and task toggles of a new document, its events are those of its body, and
  -- the front matter that it holds, with the toggled body, is what its source parses to.
  pub updates-new : (s : Text) (us : List Update) → IsParsed (updates p (new p s) us)
  updates-new s us = updates-IsParsed (new p s) us (new-IsParsed s)
