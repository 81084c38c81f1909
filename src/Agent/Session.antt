-- ===== src/Agent/Session.antt =====
-- The sessions of the driver: `spawn_driver` of src/agent/session.rs
-- The driver takes prompts one at a time. A prompt comes here with what the world does during its run:
-- the configuration at its time, the model's replies and the cancel flag, as a script. The observer of a
-- session is the list of what it was told.
pub mod Continued
use personal_productivity_ai.Common.{
  ℕ, Bool, true, false, Option, none, some, List, [], ◌∷◌, ◌++◌, if◌then◌else◌,
}
use personal_productivity_ai.Common.Text.{Text}
use personal_productivity_ai.Common.Dict.{Dict, lookup, insert}
use personal_productivity_ai.VirtualPath.{ContentLibrary}
use personal_productivity_ai.Agent.Json.{Json, unwrap_or}
use personal_productivity_ai.Agent.Executor.{Tools, Executor}
use personal_productivity_ai.Agent.Turn.{AgentEvent, Reply, Client}
use personal_productivity_ai.Agent.Run.{AgentContext, Result, run_agent}

-- What the run of a prompt takes from the configuration.
pub record Config (J : Type 0) : Type 0 where
  pub client : Option Client
  pub key_valid : Bool
  pub config_path : Text
  pub libraries : List ContentLibrary
  pub tools_json : J

pub record AgentPrompt (J : Type 0) : Type 0 where
  pub session_id : Text
  pub text : Text
  pub system_prompts : List Text
  pub config : Config J
  pub script : List (Option (Reply J))
  pub cancelled : Bool

pub record SessionExecutionState (J : Type 0) : Type 0 where
  pub history : Option (List J)
  pub system_prompts : List Text
  pub turn_offset : ℕ
  pub observer : List (AgentEvent J)

module _ {J : Type 0} where
  -- The session of a prompt: the one that is there, or a new one.
  unfoldable pub session_of :
      AgentPrompt J → Dict (SessionExecutionState J) → SessionExecutionState J
  session_of prompt sessions =
      unwrap_or
        (record {
          history = none;
          system_prompts = prompt.system_prompts;
          turn_offset = 0;
          observer = [];
        })
        (lookup (prompt.session_id) sessions)

  abbrev pub context_of : AgentPrompt J → SessionExecutionState J → AgentContext J
  context_of prompt session = record {
    client = prompt.config.client;
    key_valid = prompt.config.key_valid;
    config_path = prompt.config.config_path;
    prompt = prompt.text;
    system_prompts = session.system_prompts;
    history = session.history;
    start_turn = session.turn_offset;
    libraries = prompt.config.libraries;
    tools_json = prompt.config.tools_json;
  }

  -- What a run that returned a history and a turn leaves of its session.
  unfoldable pub stash : List J → ℕ → SessionExecutionState J → SessionExecutionState J
  stash [] final_turn session = session
  stash (m ∷ new_history) final_turn session = record session {
    history = some (m ∷ new_history);
    turn_offset = final_turn;
  }

module _ (j : Json) (t : Tools) where
  open j use {J}

  pub record Driver : Type 0 where
    pub sessions : Dict (SessionExecutionState J)
    pub executor : Executor j t

  abbrev pub store : AgentPrompt J → SessionExecutionState J → Driver → Result j t → Driver
  store prompt session d r = record {
    sessions =
        insert (prompt.session_id)
          (stash (r.history) (r.turn_number)
            (record session { observer = session.observer ++ r.events }))
          (d.sessions);
    executor = r.executor;
  }

  abbrev pub handled :
      AgentPrompt J → SessionExecutionState J → Driver → Option (Result j t) → Option Driver
  handled prompt session d none = none
  handled prompt session d (some r) = some (store prompt session d r)

  -- One prompt; nothing where its script ends before its run does.
  unfoldable pub handle_prompt : AgentPrompt J → Driver → Option Driver
  unfolding session_of run_agent stash insert
  handle_prompt prompt d =
      let session = session_of prompt (d.sessions) in
      handled prompt session d
        (run_agent j t (context_of prompt session) (prompt.script) (prompt.cancelled) (d.executor))
