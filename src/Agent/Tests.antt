-- ===== src/Agent/Tests.antt =====
-- Runs of the agent of src/agent/ with a small JSON and two tools.
use personal_productivity_ai.Common.{
  ◌≡◌, ◌≤◌, ◌⊎◌, refl, true, false, Option, none, some, List, [], ◌∷◌, map, length, take,
}
use personal_productivity_ai.Common.Text.{Text, codes, text_eq}
use personal_productivity_ai.Common.Dict.{lookup}
use personal_productivity_ai.Common.Reorder.{swap}
use personal_productivity_ai.Agent.Json.{unwrap_or}
use personal_productivity_ai.Agent.Example.{
  Value, small_json, two_tools, joined-reorder, call, response, answer, null, obj, field, end, str,
}
use personal_productivity_ai.Agent.Executor.{ToolCallRecord, Executor, execute_all}
use personal_productivity_ai.Agent.Turn.{Reply, replied, refused, Client, process_tool_results}
use personal_productivity_ai.Agent.Turn.Answers.{
  has_id, answers_to, call_ids, process_tool_results-reorder,
}
use personal_productivity_ai.Agent.Turn.Executed.{execute_all-answers}
use personal_productivity_ai.Agent.Run.{
  AgentContext, run_agent, run_loop, first_state, Result, build_messages, resolve_ll_client,
}
use personal_productivity_ai.Agent.Run.Shown.{shown, state_of, run_loop-shown}
use personal_productivity_ai.Agent.Run.Protocol.{EndsWell, EndsInFailure, run_agent-ends}
use personal_productivity_ai.Agent.Session.{
  AgentPrompt, session_of, context_of, Driver, handle_prompt,
}
use personal_productivity_ai.Agent.Session.Continued.{Continues, handle_prompt-Continues}

abbrev calls : List Value
calls = call (codes "a") (codes "write") ∷ call (codes "b") (codes "read") ∷ []

abbrev record_of : Text → Text → ToolCallRecord
record_of id name = record { call_id = id; name = name; arguments = []; result = codes "seen" }

abbrev first_record : ToolCallRecord
first_record = record_of (codes "a") (codes "write")

abbrev second_record : ToolCallRecord
second_record = record_of (codes "b") (codes "read")

process_tool_results-reorder_example :
    process_tool_results small_json (first_record ∷ second_record ∷ []) calls
    ≡ process_tool_results small_json (second_record ∷ first_record ∷ []) calls
unfolding has_id
process_tool_results-reorder_example =
    process_tool_results-reorder small_json (first_record ∷ second_record ∷ [])
      (second_record ∷ first_record ∷ []) calls (refl, (refl, tt)) (swap refl refl refl)

abbrev start : Executor small_json two_tools
start = record { world = 0; errors = [] }

execute_all-answers_example :
    map (answers_to small_json) (
      (process_tool_results small_json
        ((execute_all small_json two_tools [] calls start).0.0)
        calls).0)
    ≡ call_ids small_json calls
unfolding has_id call_ids
execute_all-answers_example =
    execute_all-answers small_json two_tools [] calls start refl (λ keys w. joined-reorder keys)
      (refl, (refl, tt))

abbrev model : Client
model = record { model_name = codes "m"; max_tokens = 100 }

abbrev context : AgentContext Value
context = record {
  client = some model;
  key_valid = true;
  config_path = [];
  prompt = codes "list the notes";
  system_prompts = codes "You help." ∷ [];
  history = none;
  start_turn = 0;
  libraries = [];
  tools_json = null;
}

-- The model asks for two calls, and then answers.
abbrev script : List (Option (Reply Value))
script = some (replied (response calls)) ∷ some (replied (answer (codes "done"))) ∷ []

run_loop-shown_example :
    let s = state_of small_json two_tools (
      run_loop small_json two_tools model [] null script
        (first_state small_json two_tools context start)) in
    (shown small_json (s.events) ≡ take (s.prev_messages_len) (s.messages))
    × (s.prev_messages_len ≤ length (s.messages))
run_loop-shown_example = run_loop-shown small_json two_tools context model script start

-- A run whose model fails after the calls.
abbrev failing : List (Option (Reply Value))
failing = some (replied (response calls)) ∷ some (refused (codes "timeout")) ∷ []

abbrev no_result : Result small_json two_tools
no_result = record { history = []; turn_number = 0; events = []; executor = start }

abbrev failed_result : Result small_json two_tools
failed_result = unwrap_or no_result (run_agent small_json two_tools context failing false start)

run_agent-ends_example :
    EndsWell small_json two_tools
      (build_messages small_json (codes "You help." ∷ []) (codes "list the notes") none)
      failed_result
    ⊎ EndsInFailure small_json two_tools failed_result
unfolding run_agent resolve_ll_client
run_agent-ends_example =
    run_agent-ends small_json two_tools context model [] failing false start failed_result refl refl

abbrev said : Text → Text → Value
said role content =
    obj (field (codes "role") (str role) (field (codes "content") (str content) end))

-- Two system messages before a prompt.
abbrev two_systems : List Value
two_systems =
    said (codes "system") (codes "You help.")
    ∷ said (codes "system") (codes "Be brief.")
    ∷ said (codes "user") (codes "list the notes")
    ∷ []

-- A session that said something before, and a prompt whose model fails after its calls.
abbrev prompt : AgentPrompt Value
prompt = record {
  session_id = codes "s";
  text = codes "list the notes";
  system_prompts = codes "You help." ∷ [];
  config = record {
    client = some model;
    key_valid = true;
    config_path = [];
    libraries = [];
    tools_json = null;
  };
  script = script;
  cancelled = false;
}

abbrev driver : Driver small_json two_tools
driver = record {
  sessions =
      (
        codes "s",
        record {
          history = some (said (codes "user") (codes "hello") ∷ []);
          system_prompts = [];
          turn_offset = 1;
          observer = [];
        },
      )
      ∷ [];
  executor = start;
}

abbrev next_driver : Driver small_json two_tools
next_driver = unwrap_or driver (handle_prompt small_json two_tools prompt driver)

handle_prompt-Continues_example :
    ((r : Result small_json two_tools) × (run_agent small_json two_tools
          (context_of prompt (session_of prompt (driver.sessions)))
          script
          false
          start
        ≡ some r)
      × Continues small_json two_tools prompt
          (session_of prompt (driver.sessions))
          (session_of prompt (next_driver.sessions))
          r)
    × ((k : Text)
        → text_eq (codes "s") k ≡ false
        → lookup k (next_driver.sessions) ≡ lookup k (driver.sessions))
unfolding handle_prompt
handle_prompt-Continues_example =
    handle_prompt-Continues small_json two_tools prompt driver next_driver refl
