-- ===== src/Agent/Run.antt =====
-- A run of the agent: `run_agent` of src/agent/agent_impl.rs
-- What the world answers is a script: for each time that the loop begins, either the cancel flag is
-- set, or the model's reply. A run whose script ends before the loop does is unfinished.
pub mod Shown
pub mod Protocol
pub mod Returns
pub mod History
use personal_productivity_ai.Common.{
  ℕ, zero, suc, ◌+◌, Bool, true, false, not, Option, none, some, List, [], ◌∷◌, ◌++◌, if◌then◌else◌,
}
use personal_productivity_ai.Common.Text.{Text, codes}
use personal_productivity_ai.VirtualPath.{ContentLibrary}
use personal_productivity_ai.Agent.Json.{Json}
use personal_productivity_ai.Agent.Executor.{Tools, Executor}
use personal_productivity_ai.Agent.Turn.{
  AgentEvent, session_started, session_finished, status, debug_entry, failed, finished, outgoing,
  session_boundary, Turn, continue, finish, fail, Reply, Client, Run, emit, process_turn,
}

-- The texts, with a separator between them.
unfoldable pub join_texts : Text → List Text → Text
join_texts sep [] = []
join_texts sep (s ∷ []) = s
join_texts sep (s ∷ r ∷ rest) = s ++ (sep ++ join_texts sep (r ∷ rest))

-- What a run is given. `client` is the configured model, if there is one, and `key_valid` whether its
-- key is set; `config_path` is named in the message for a missing key.
pub record AgentContext (J : Type 0) : Type 0 where
  pub client : Option Client
  pub key_valid : Bool
  pub config_path : Text
  pub prompt : Text
  pub system_prompts : List Text
  pub history : Option (List J)
  pub start_turn : ℕ
  pub libraries : List ContentLibrary
  pub tools_json : J

module _ (j : Json) where
  open j use {J, string, object}

  abbrev pub chat_message : Text → Text → J
  chat_message role content =
      object ((codes "role", string role) ∷ (codes "content", string content) ∷ [])

  abbrev pub system_messages : List Text → List J
  system_messages [] = []
  system_messages (p ∷ prompts) =
      chat_message (codes "system") (join_texts (codes "\n\n") (p ∷ prompts)) ∷ []

  unfoldable pub build_messages : List Text → Text → Option (List J) → List J
  unfolding join_texts
  build_messages system_prompts prompt (some existing) =
      existing ++ chat_message (codes "user") prompt ∷ []
  build_messages system_prompts prompt none =
      system_messages system_prompts ++ chat_message (codes "user") prompt ∷ []

  -- The client of a run, or the message of the failure.
  unfoldable pub resolve_ll_client : AgentContext J → Option Client × Text
  resolve_ll_client ctx = elim (ctx.client) [
    | none ↦ (none, codes "Model configuration not found")
    | some c ↦ if ctx.key_valid then (some c, []) else (
      none,
      codes "API key not set. Configure in " ++ (ctx.config_path ++ codes " or use `/models`."),
    )
  ]

  module _ (t : Tools) where
    -- How the loop is left, and the state at that point.
    pub data Loop : Type 0 where
      done failed_turn unfinished : Run j t → Loop

    abbrev pub after_turn : (Run j t → Loop) → Run j t × Turn → Loop
    after_turn again (s, continue) = again s
    after_turn again (s, finish) = done s
    after_turn again (s, fail) = failed_turn s

    unfoldable pub run_loop :
        Client → List ContentLibrary → J → List (Option (Reply J)) → Run j t → Loop
    unfolding process_turn
    run_loop client libraries tools_json [] s = unfinished s
    run_loop client libraries tools_json (none ∷ script) s = done s
    run_loop client libraries tools_json (some reply ∷ script) s =
        after_turn (run_loop client libraries tools_json script)
          (process_turn j t client libraries tools_json reply s)

    -- What a run leaves: the history and the turn that it returns, and the last state.
    pub record Result : Type 0 where
      pub history : List J
      pub turn_number : ℕ
      pub events : List (AgentEvent J)
      pub executor : Executor j t

    abbrev pub result_of : List J → List (AgentEvent J) → Run j t → Result
    result_of history es s = record {
      history = history;
      turn_number = s.turn_number;
      events = s.events ++ es;
      executor = s.executor;
    }

    -- The end of the run, where `cancelled` is the cancel flag after the loop.
    abbrev pub end_run : Bool → Loop → Option Result
    end_run cancelled (done s) = some (
        result_of (s.messages)
          ((if not cancelled then status finished ∷ [] else [])
            ++ session_finished (s.messages) ∷ [])
          s)
    end_run cancelled (failed_turn s) = some (result_of [] (session_finished [] ∷ []) s)
    end_run cancelled (unfinished s) = none

    unfoldable pub first_state : AgentContext J → Executor j t → Run j t
    unfolding build_messages
    first_state ctx x = record {
      messages = build_messages (ctx.system_prompts) (ctx.prompt) (ctx.history);
      turn_number = ctx.start_turn;
      prev_messages_len = 0;
      events =
          debug_entry (record {
            turn = ctx.start_turn;
            kind = outgoing;
            content = none;
            row_type = session_boundary;
          })
          ∷ session_started
          ∷ [];
      executor = x;
    }

    unfoldable pub run_with :
        AgentContext J
        → List (Option (Reply J))
        → Bool
        → Executor j t
        → Option Client × Text
        → Option Result
    unfolding run_loop first_state
    run_with ctx script cancelled x (none, error) = some (record {
      history = [];
      turn_number = ctx.start_turn;
      events = failed error ∷ [];
      executor = x;
    })
    run_with ctx script cancelled x (some client, error) =
        end_run cancelled
          (run_loop client (ctx.libraries) (ctx.tools_json) script (first_state ctx x))

    -- `run_agent`: nothing where the script is too short.
    unfoldable pub run_agent :
        AgentContext J → List (Option (Reply J)) → Bool → Executor j t → Option Result
    unfolding resolve_ll_client run_with
    run_agent ctx script cancelled x = run_with ctx script cancelled x (resolve_ll_client ctx)
