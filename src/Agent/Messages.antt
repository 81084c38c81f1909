-- ===== src/Agent/Messages.antt =====
-- The messages of a request: `merge_leading_system_messages` of src/agent/llm_client.rs
pub mod Merged
use personal_productivity_ai.Common.{
  ℕ, zero, suc, Bool, true, false, Option, none, some, List, [], ◌∷◌, ◌++◌, take, drop, leb,
  if◌then◌else◌,
}
use personal_productivity_ai.Common.Text.{Text, codes, text_eq}
use personal_productivity_ai.Common.Trim.{is_empty}
use personal_productivity_ai.Agent.Json.{Json, get_str}
use personal_productivity_ai.Agent.Run.{chat_message}

module _ (j : Json) where
  open j use {J}

  -- `m.get("role").and_then(as_str) == Some("system")`
  unfoldable pub is_system : J → Bool
  unfolding text_eq
  is_system m = elim (get_str j (codes "role") m) [
    | none ↦ false
    | some role ↦ text_eq role (codes "system")
  ]

  -- The number of system messages at the beginning.
  unfoldable pub leading : List J → ℕ
  unfolding is_system
  leading [] = 0
  leading (m ∷ messages) = let n = leading messages in if is_system m then suc n else 0

  abbrev pub push_content : Text → Option Text → Text
  push_content merged none = merged
  push_content merged (some content) =
      (if is_empty merged then merged else merged ++ codes "\n\n") ++ content

  -- The contents of the messages, those that have one, with an empty line between them.
  unfoldable pub merge_contents : Text → List J → Text
  merge_contents merged [] = merged
  merge_contents merged (m ∷ messages) =
      merge_contents (push_content merged (get_str j (codes "content") m)) messages

  unfoldable pub merge_leading_system_messages : List J → List J
  unfolding leading merge_contents
  merge_leading_system_messages messages =
      let n = leading messages in
      if leb n 1
      then messages
      else chat_message j (codes "system") (merge_contents [] (take n messages)) ∷ drop n messages
