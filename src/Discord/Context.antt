-- ===== src/Discord/Context.antt =====
-- src/app/integrations/discord/context.rs
-- A new context takes its id from the caller, who stands for the generator.
pub mod History
use personal_productivity_ai.Common.{
  ℕ, zero, suc, ◌+◌, ◌-◌, ◌/◌, Bool, true, false, Option, none, some, List, [], ◌∷◌, ◌++◌, map,
  length, drop, ltb, if◌then◌else◌,
}
use personal_productivity_ai.Common.Text.{Text}
use personal_productivity_ai.Common.Dict.{Dict, lookup, insert, retain}
use personal_productivity_ai.Editor.Buffer.{byte_len}

pub data Role : Type 0 where
  system user assistant : Role

pub record Message : Type 0 where
  pub role : Role
  pub content : Text
  pub timestamp : ℕ

pub record ConversationContext : Type 0 where
  pub id : ℕ
  pub scope_id : Text
  pub messages : List Message
  pub created_at : ℕ
  pub last_accessed : ℕ
  pub token_count : ℕ

pub record DiscordContext : Type 0 where
  pub contexts : Dict ConversationContext
  pub max_history : ℕ
  pub ttl : ℕ

unfoldable pub new : ℕ → ℕ → DiscordContext
new max_history ttl = record { contexts = []; max_history = max_history; ttl = ttl }

unfoldable pub new_context : ℕ → ℕ → Text → ConversationContext
new_context id now scope_id = record {
  id = id;
  scope_id = scope_id;
  messages = [];
  created_at = now;
  last_accessed = now;
  token_count = 0;
}

abbrev pub or_new : ConversationContext → Option ConversationContext → ConversationContext
or_new fresh none = fresh
or_new fresh (some ctx) = ctx

unfoldable pub get_or_create : ℕ → ℕ → Text → DiscordContext → DiscordContext × ConversationContext
unfolding lookup insert new_context
get_or_create id now scope_id d =
    let found = or_new (new_context id now scope_id) (lookup scope_id (d.contexts)) in
    let ctx = record found { last_accessed = now } in
    (record d { contexts = insert scope_id ctx (d.contexts) }, ctx)

-- The last `max` messages.
unfoldable pub trim_history : ℕ → List Message → List Message
trim_history max messages =
    if ltb max (length messages) then drop (length messages - max) messages else messages

unfoldable pub token_estimate : List Message → ℕ
unfolding byte_len
token_estimate [] = 0
token_estimate (m ∷ messages) = byte_len (m.content) / 4 + token_estimate messages

-- The context with one message more.
unfoldable pub push_message : ℕ → ℕ → Message → ConversationContext → ConversationContext
unfolding trim_history token_estimate
push_message max now message ctx =
    let messages = trim_history max (ctx.messages ++ message ∷ []) in
    record ctx { messages = messages; last_accessed = now; token_count = token_estimate messages }

unfoldable pub add_message : ℕ → ℕ → Text → Role → Text → DiscordContext → DiscordContext
unfolding lookup insert new_context push_message
add_message id now scope_id role content d =
    let ctx = or_new (new_context id now scope_id) (lookup scope_id (d.contexts)) in
    let message : Message = record { role = role; content = content; timestamp = now } in
    record d {
      contexts = insert scope_id (push_message (d.max_history) now message ctx) (d.contexts);
    }

abbrev pub prompt_messages : Option Text → List (Role × Text)
prompt_messages none = []
prompt_messages (some prompt) = (system, prompt) ∷ []

abbrev pub spoken : Message → Role × Text
spoken m = (m.role, m.content)

abbrev pub context_messages : Option ConversationContext → List (Role × Text)
context_messages none = []
context_messages (some ctx) = map spoken (ctx.messages)

unfoldable pub get_messages_for_llm : Text → Option Text → DiscordContext → List (Role × Text)
unfolding lookup
get_messages_for_llm scope_id system_prompt d =
    prompt_messages system_prompt ++ context_messages (lookup scope_id (d.contexts))

unfoldable pub cleanup_expired : ℕ → DiscordContext → DiscordContext
unfolding retain
cleanup_expired now d = record d {
  contexts = retain (λ ctx. ltb (now - ctx.last_accessed) (d.ttl)) (d.contexts);
}

unfoldable pub active_scopes : DiscordContext → List Text
active_scopes d = map (λ entry. entry.0) (d.contexts)

-- A message that arrives: its context's id if it is new, the instant, the scope, role and content.
pub record Arrival : Type 0 where
  pub id : ℕ
  pub now : ℕ
  pub scope_id : Text
  pub role : Role
  pub content : Text

-- A run of calls of `add_message`.
unfoldable pub add_messages : List Arrival → DiscordContext → DiscordContext
unfolding add_message
add_messages [] d = d
add_messages (a ∷ arrivals) d =
    add_messages arrivals (add_message (a.id) (a.now) (a.scope_id) (a.role) (a.content) d)
