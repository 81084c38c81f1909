-- ===== src/Agent/Handle.antt =====
-- The handle of the user interface on the agent: `AgentSession`, lines 18 to 255 of src/agent/session.rs
-- The cancel flags are a store (`flags`): a prompt that is sent and the handle share a flag by its
-- address. What goes over the channel is the list `sent`. The configuration cell and the extensions
-- are left out; `u64::MAX` is a parameter.
pub mod Cancelled
pub mod Totals
mod Tests
use personal_productivity_ai.Common.{
  ℕ, zero, suc, ◌+◌, Bool, true, false, Option, none, some, List, [], ◌∷◌, ◌++◌, length, set, ltb,
  min, if◌then◌else◌,
}
use personal_productivity_ai.Common.Text.{Text, codes}
use personal_productivity_ai.Agent.Json.{unwrap_or}
use personal_productivity_ai.Agent.Turn.{TokenUsageInfo}

pub record AgentState (J E : Type 0) : Type 0 where
  pub running : Bool
  pub status : Text
  pub thinking : Text
  pub response : Text
  pub history : Option (List J)
  pub token_usage : Option TokenUsageInfo
  pub total_usage : TokenUsageInfo
  pub pending_prompts : List Text
  pub debug_entries : List E

-- A prompt with the address of its flag; `rest` is what the handle passes on as it is.
pub record Prompt (R : Type 0) : Type 0 where
  pub session_id : Text
  pub rest : R
  pub cancel_flag : ℕ

pub record AgentSession (J E R : Type 0) : Type 0 where
  pub state : AgentState J E
  pub cancel_flag : Option ℕ
  pub current_session_id : Option Text
  pub flags : List Bool
  pub sent : List (Prompt R)

abbrev pub no_usage : TokenUsageInfo
no_usage = record {
  prompt_tokens = 0;
  completion_tokens = 0;
  total_tokens = 0;
  cached_tokens = none;
  reasoning_tokens = none;
}

-- `saturating_add`, where `limit` is the greatest value.
abbrev pub saturating_add : ℕ → ℕ → ℕ → ℕ
saturating_add limit a b = min (a + b) limit

unfoldable pub add_usage : ℕ → TokenUsageInfo → TokenUsageInfo → TokenUsageInfo
add_usage limit info total = record {
  prompt_tokens =
      if ltb (total.prompt_tokens) (info.prompt_tokens)
      then info.prompt_tokens
      else total.prompt_tokens;
  completion_tokens = saturating_add limit (total.completion_tokens) (info.completion_tokens);
  total_tokens = saturating_add limit (total.total_tokens) (info.total_tokens);
  cached_tokens =
      some (
        saturating_add limit (unwrap_or 0 (total.cached_tokens))
          (unwrap_or 0 (info.cached_tokens)));
  reasoning_tokens = some (
      saturating_add limit (unwrap_or 0 (total.reasoning_tokens))
        (unwrap_or 0 (info.reasoning_tokens)));
}

abbrev pub first_of : List Text → Option Text × List Text
first_of [] = (none, [])
first_of (p ∷ ps) = (some p, ps)

abbrev pub stored : Option ℕ → List Bool → List Bool
stored none flags = flags
stored (some address) flags = set flags address true

-- What the application does with the handle.
pub data Call (E R : Type 0) : Type 0 where
  queues : Text → Call E R
  takes drops forgets cancels : Call E R
  uses : TokenUsageInfo → Call E R
  logs : E → Call E R
  submits : Prompt R → Call E R

module _ {J E R : Type 0} where
  unfoldable pub queue_prompt : Text → AgentSession J E R → AgentSession J E R
  queue_prompt prompt s = record s {
    state = record (s.state) { pending_prompts = s.state.pending_prompts ++ prompt ∷ [] };
  }

  unfoldable pub take_next_queued_prompt : AgentSession J E R → Option Text × AgentSession J E R
  take_next_queued_prompt s =
      let (next, left) = first_of (s.state.pending_prompts) in
      (next, record s { state = record (s.state) { pending_prompts = left } })

  unfoldable pub clear_queued_prompts : AgentSession J E R → AgentSession J E R
  clear_queued_prompts s = record s { state = record (s.state) { pending_prompts = [] } }

  unfoldable pub apply_token_usage : ℕ → TokenUsageInfo → AgentSession J E R → AgentSession J E R
  unfolding add_usage
  apply_token_usage limit info s = record s {
    state = record (s.state) {
      total_usage = add_usage limit info (s.state.total_usage);
      token_usage = some info;
    };
  }

  unfoldable pub push_debug_entry : E → AgentSession J E R → AgentSession J E R
  push_debug_entry entry s = record s {
    state = record (s.state) { debug_entries = s.state.debug_entries ++ entry ∷ [] };
  }

  unfoldable pub clear_history : AgentSession J E R → AgentSession J E R
  clear_history s = record s {
    state = record (s.state) { history = none; token_usage = none; total_usage = no_usage };
    current_session_id = none;
  }

  unfoldable pub cancel : AgentSession J E R → AgentSession J E R
  cancel s = record s {
    flags = stored (s.cancel_flag) (s.flags);
    state = record (s.state) { running = false; status = codes "Aborted by user." };
  }

  -- The prompt is sent with a new flag, which the handle keeps.
  unfoldable pub submit_prompt : Prompt R → AgentSession J E R → AgentSession J E R
  submit_prompt prompt s =
      let address = length (s.flags) in
      record s {
        current_session_id = some (prompt.session_id);
        state = record (s.state) {
          running = true;
          status = codes "Initializing agent...";
          thinking = [];
          response = [];
        };
        flags = s.flags ++ false ∷ [];
        cancel_flag = some address;
        sent = s.sent ++ record prompt { cancel_flag = address } ∷ [];
      }

  -- The handle as `build` makes it.
  unfoldable pub build : AgentSession J E R
  build = record {
    state = record {
      running = false;
      status = [];
      thinking = [];
      response = [];
      history = none;
      token_usage = none;
      total_usage = no_usage;
      pending_prompts = [];
      debug_entries = [];
    };
    cancel_flag = none;
    current_session_id = none;
    flags = [];
    sent = [];
  }

  unfoldable pub call : ℕ → Call E R → AgentSession J E R → AgentSession J E R
  unfolding queue_prompt take_next_queued_prompt clear_queued_prompts clear_history cancel
      apply_token_usage push_debug_entry submit_prompt
  call limit (queues prompt) s = queue_prompt prompt s
  call limit takes s = (take_next_queued_prompt s).1
  call limit drops s = clear_queued_prompts s
  call limit forgets s = clear_history s
  call limit cancels s = cancel s
  call limit (uses info) s = apply_token_usage limit info s
  call limit (logs entry) s = push_debug_entry entry s
  call limit (submits prompt) s = submit_prompt prompt s

  unfoldable pub calls : ℕ → List (Call E R) → AgentSession J E R → AgentSession J E R
  unfolding call
  calls limit [] s = s
  calls limit (c ∷ cs) s = calls limit cs (call limit c s)
