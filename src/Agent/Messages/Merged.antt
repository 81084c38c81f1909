-- ===== src/Agent/Messages/Merged.antt =====
-- What the merge of the system messages guarantees: src/agent/llm_client.rs
use personal_productivity_ai.Common.{
  ◌≤◌, ◌≡◌, refl, ap, ◌∙◌, Bool, true, false, Option, none, some, List, [], ◌∷◌, take, drop, leb,
  leb→le, arith, Bool-cases, inl, inr,
}
use personal_productivity_ai.Common.Text.{Text, codes, text_eq}
use personal_productivity_ai.Common.Dict.{lookup}
use personal_productivity_ai.Agent.Json.{Json, bind_option}
use personal_productivity_ai.Agent.Run.{chat_message}
use personal_productivity_ai.Agent.Messages.{
  is_system, leading, merge_contents, merge_leading_system_messages,
}

module _ (j : Json) where
  open j use {J}

  is_system-chat_message :
      (content : Text) → is_system j (chat_message j (codes "system") content) ≡ true
  unfolding is_system lookup text_eq
  is_system-chat_message content =
      let fields =
        (codes "role", j.string (codes "system")) ∷ (codes "content", j.string content) ∷ [] in
      ap (λ o. is_named (bind_option o (j.as_str))) (j.get-object (codes "role") fields)
      ∙ ap is_named (j.as_str-string (codes "system"))
    where
      is_named : Option Text → Bool
      is_named o = elim o [ none ↦ false | some role ↦ text_eq role (codes "system") ]

  leading-drop : (messages : List J) → leading j (drop (leading j messages) messages) ≡ 0
  unfolding leading
  leading-drop [] = refl
  leading-drop (m ∷ messages) = elim (Bool-cases (is_system j m)) [
    | inl e ↦ rw e (leading-drop messages)
    | inr e ↦ rw e (rw e refl)
  ]

  leading_one :
      (m : J) (messages : List J)
      → is_system j m ≡ true
      → leading j messages ≡ 0
      → leading j (m ∷ messages) ≡ 1
  unfolding leading
  leading_one m messages h n = rw (h, n) refl

  -- At most one system message stands at the beginning of what is sent, and behind it comes what came
  -- behind the system messages before; to merge once more changes nothing.
  pub merge_leading_system_messages-eq :
      (messages : List J)
      → let merged = merge_leading_system_messages j messages in
        (leading j merged ≤ 1)
        × (drop (leading j merged) merged ≡ drop (leading j messages) messages)
        × (merge_leading_system_messages j merged ≡ merged)
  unfolding merge_leading_system_messages
  merge_leading_system_messages-eq messages = elim (Bool-cases (leb (leading j messages) 1)) [
    | inl e ↦ rw e (leb→le (leading j messages) 1 e, refl, rw e refl)
    | inr e ↦
        let n = leading j messages in
        let first = chat_message j (codes "system") (merge_contents j [] (take n messages)) in
        let one : leading j (first ∷ drop n messages) ≡ 1 =
          leading_one first (drop n messages)
            (is_system-chat_message (merge_contents j [] (take n messages)))
            (leading-drop messages) in
        rw (e, one) (omega arith, refl, refl)
  ]
