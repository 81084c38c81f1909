-- ===== src/Agent/Turn.antt =====
-- One turn of the agent: `process_turn` of src/agent/agent_impl.rs, with `parse_usage_block` of
-- src/agent/llm_client.rs. What the observer is told is a list of events, the latest last. A debug
-- entry leaves out its time and its summary, which is made of the turn and of the content.
pub mod Answers
pub mod Executed
pub mod Growth
use personal_productivity_ai.Common.{
  ℕ, zero, suc, ◌+◌, ◌-◌, ◌^◌, Bool, true, false, Option, none, some, List, [], ◌∷◌, ◌++◌, map,
  length, drop, min, if◌then◌else◌,
}
use personal_productivity_ai.Common.Text.{Text, codes, text_eq}
use personal_productivity_ai.Common.Trim.{is_empty}
use personal_productivity_ai.Common.Dict.{Dict, lookup, insert, remove}
use personal_productivity_ai.VirtualPath.{ContentLibrary}
use personal_productivity_ai.Agent.Json.{Json, bind_option, unwrap_or, get_str, json_or_string}
use personal_productivity_ai.Agent.Datamark.{wrap_tool_result}
use personal_productivity_ai.Agent.Executor.{
  Tools, ToolCallRecord, ToolSideEffect, Executor, execute_all, function_name,
}

pub data AgentStatus : Type 0 where
  awaiting_llm executing_tools finished : AgentStatus

pub record TokenUsageInfo : Type 0 where
  pub prompt_tokens : ℕ
  pub completion_tokens : ℕ
  pub total_tokens : ℕ
  pub cached_tokens : Option ℕ
  pub reasoning_tokens : Option ℕ

pub data DebugEntryKind : Type 0 where
  outgoing incoming tool_results : DebugEntryKind

pub data DebugEntryRow : Type 0 where
  entry session_boundary : DebugEntryRow

pub record AgentDebugEntry (J : Type 0) : Type 0 where
  pub turn : ℕ
  pub kind : DebugEntryKind
  pub content : Option J
  pub row_type : DebugEntryRow

pub data AgentEvent (J : Type 0) : Type 0 where
  session_started : AgentEvent J
  session_finished : List J → AgentEvent J
  status : AgentStatus → AgentEvent J
  thinking content_delta : Text → AgentEvent J
  tool_call_started tool_result : Text → Text → J → AgentEvent J
  tool_side_effect : ToolSideEffect → AgentEvent J
  debug_entry : AgentDebugEntry J → AgentEvent J
  token_usage : TokenUsageInfo → AgentEvent J
  failed : Text → AgentEvent J

pub data Turn : Type 0 where
  continue finish fail : Turn

-- What `chat_completion` returns: a response, or the message of its error.
pub data Reply (J : Type 0) : Type 0 where
  replied : J → Reply J
  refused : Text → Reply J

-- The model's client, as far as the debug entries name it.
pub record Client : Type 0 where
  pub model_name : Text
  pub max_tokens : ℕ

abbrev pub is_none {ℓ} : {A : Type ℓ} → Option A → Bool
is_none none = true
is_none (some a) = false

abbrev pub or_option {ℓ} : {A : Type ℓ} → Option A → Option A → Option A
or_option none b = b
or_option (some a) b = some a

-- `u64::saturating_add`
unfoldable pub saturating_add : ℕ → ℕ → ℕ
saturating_add a b = min (a + b) (2 ^ 64 - 1)

-- The records by the ids of their calls; of two with one id, the later.
unfoldable pub record_map : Dict ToolCallRecord → List ToolCallRecord → Dict ToolCallRecord
unfolding insert
record_map m [] = m
record_map m (r ∷ results) = record_map (insert (r.call_id) r m) results

module _ (j : Json) where
  open j use {
    J, get, at, as_str, as_array, as_u64, remove_in, from_str, to_string, string, number, array,
    object,
  }

  abbrev pub get_u64 : Text → J → Option ℕ
  get_u64 key value = bind_option (get key value) as_u64

  abbrev pub usage_of : Option ℕ → Option ℕ → Option ℕ → Option ℕ → Option ℕ → Option TokenUsageInfo
  unfolding saturating_add
  usage_of none none none cached reasoning = none
  usage_of prompt completion total cached reasoning = some (record {
    prompt_tokens = unwrap_or 0 prompt;
    completion_tokens = unwrap_or 0 completion;
    total_tokens = unwrap_or (saturating_add (unwrap_or 0 prompt) (unwrap_or 0 completion)) total;
    cached_tokens = cached;
    reasoning_tokens = reasoning;
  })

  unfoldable pub parse_usage_block : J → Option TokenUsageInfo
  unfolding usage_of
  parse_usage_block usage =
      usage_of
        (or_option (get_u64 (codes "prompt_tokens") usage) (get_u64 (codes "input_tokens") usage))
        (or_option (get_u64 (codes "completion_tokens") usage)
          (get_u64 (codes "output_tokens") usage))
        (get_u64 (codes "total_tokens") usage)
        (bind_option (get (codes "prompt_tokens_details") usage) (get_u64 (codes "cached_tokens")))
        (bind_option (get (codes "completion_tokens_details") usage)
          (get_u64 (codes "reasoning_tokens")))

  unfoldable pub extract_message : J → Option J
  extract_message resp =
      bind_option (bind_option (get (codes "choices") resp) (at 0)) (get (codes "message"))

  -- `message.get("tool_calls").and_then(as_array)`, the empty list where there is none.
  unfoldable pub tool_calls_of : J → List J
  tool_calls_of message = unwrap_or [] (bind_option (get (codes "tool_calls") message) as_array)

  -- `tc.get("id")`, as a text.
  unfoldable pub call_id_of : J → Text
  call_id_of tc = unwrap_or [] (get_str j (codes "id") tc)

  abbrev pub emit_usage : Option TokenUsageInfo → List (AgentEvent J)
  emit_usage none = []
  emit_usage (some info) = token_usage info ∷ []

  abbrev pub handle_reasoning : Option Text → List (AgentEvent J)
  handle_reasoning none = []
  handle_reasoning (some r) = thinking r ∷ []

  abbrev pub handle_content : Text → List (AgentEvent J)
  handle_content content =
      if is_empty content then [] else content_delta (content ++ codes "\n\n") ∷ []

  -- The event that announces a call.
  unfoldable pub started : J → AgentEvent J
  unfolding call_id_of
  started tc = tool_call_started (call_id_of tc) (function_name j tc) (
      json_or_string j
        (unwrap_or [] (bind_option (get (codes "function") tc) (get_str j (codes "arguments")))))

  unfoldable pub strip_web_delegate_trace : Text → Text → Text
  unfolding text_eq
  strip_web_delegate_trace fn_name result =
      if text_eq fn_name (codes "web_delegate")
      then unwrap_or result (
          bind_option (from_str result)
            (λ parsed. to_string (remove_in (codes "data") (codes "tool_call_trace") parsed)))
      else result

  -- The message that answers a call.
  unfoldable pub tool_message : Text → ToolCallRecord → J
  unfolding strip_web_delegate_trace wrap_tool_result
  tool_message cid r = object (
      (codes "role", string (codes "tool"))
      ∷ (codes "tool_call_id", string cid)
      ∷ (
        codes "content",
        string (wrap_tool_result (r.name) (strip_web_delegate_trace (r.name) (r.result))),
      )
      ∷ [])

  -- What the record of a call adds to the messages and the events that answer the later calls.
  unfoldable pub answered :
      Text → Option ToolCallRecord → List J × List (AgentEvent J) → List J × List (AgentEvent J)
  unfolding tool_message
  answered cid none (messages, events) = (messages, events)
  answered cid (some r) (messages, events) = (
    tool_message cid r ∷ messages,
    tool_result cid (r.name) (json_or_string j (r.result)) ∷ events,
  )

  -- The messages and the events that answer the calls: each record answers one call.
  unfoldable pub answer_calls : Dict ToolCallRecord → List J → List J × List (AgentEvent J)
  unfolding lookup remove call_id_of answered
  answer_calls m [] = ([], [])
  answer_calls m (tc ∷ calls) =
      let cid = call_id_of tc in answered cid (lookup cid m) (answer_calls (remove cid m) calls)

  unfoldable pub process_tool_results : List ToolCallRecord → List J → List J × List (AgentEvent J)
  unfolding record_map answer_calls
  process_tool_results results tool_calls = answer_calls (record_map [] results) tool_calls

  abbrev pub debug : ℕ → DebugEntryKind → J → AgentEvent J
  debug turn kind content =
      debug_entry (record { turn = turn; kind = kind; content = some content; row_type = entry })

  -- What the debug entry of a request holds.
  unfoldable pub request_shown : Client → J → List J → J
  request_shown client tools_json new = object (
      (codes "model", string (client.model_name))
      ∷ (codes "max_tokens", number (client.max_tokens))
      ∷ (codes "tools", tools_json)
      ∷ (codes "new_messages", array new)
      ∷ [])

  abbrev pub shown_record : ToolCallRecord → J
  shown_record r = object (
      (codes "call_id", string (r.call_id))
      ∷ (codes "name", string (r.name))
      ∷ (codes "arguments", json_or_string j (r.arguments))
      ∷ (codes "result", json_or_string j (r.result))
      ∷ [])

  module _ (t : Tools) where
    pub record Run : Type 0 where
      pub messages : List J
      pub turn_number : ℕ
      pub prev_messages_len : ℕ
      pub events : List (AgentEvent J)
      pub executor : Executor j t

    abbrev pub emit : List (AgentEvent J) → Run → Run
    emit es s = record s { events = s.events ++ es }

    abbrev pub push_messages : List J → Run → Run
    push_messages ms s = record s { messages = s.messages ++ ms }

    -- The part of a turn before the request: the messages that are new since the last one are shown.
    unfoldable pub outgoing_turn : Client → J → Run → Run
    unfolding request_shown
    outgoing_turn client tools_json s =
        let turn = s.turn_number + 1 in
        emit
          (status awaiting_llm
            ∷ debug turn outgoing
                (request_shown client tools_json (drop (s.prev_messages_len) (s.messages)))
            ∷ [])
          (record s { turn_number = turn; prev_messages_len = length (s.messages) })

    -- The execution of the calls of a message.
    unfoldable pub run_tools : List ContentLibrary → List J → Run → Run
    unfolding started execute_all process_tool_results
    run_tools libraries calls s =
        let ((results, effects), x) = execute_all j t libraries calls (s.executor) in
        let (answers, events) = process_tool_results results calls in
        push_messages answers (
          emit
            (map started calls
              ++ (status executing_tools
                  ∷ (map tool_side_effect effects
                      ++ (debug (s.turn_number) tool_results (array (map shown_record results))
                          ∷ events))))
            (record s { executor = x }))

    unfoldable pub after_message : List ContentLibrary → List J → Run → Run × Turn
    unfolding run_tools
    after_message libraries [] s = (s, finish)
    after_message libraries (tc ∷ calls) s = (run_tools libraries (tc ∷ calls) s, continue)

    -- What a turn does with the message of the response.
    unfoldable pub take_message : List ContentLibrary → Option J → Run → Run × Turn
    unfolding after_message tool_calls_of
    take_message libraries none s = (emit (failed (codes "Invalid response schema") ∷ []) s, fail)
    take_message libraries (some message) s = after_message libraries (tool_calls_of message) (
        push_messages (message ∷ []) (
          emit
            (handle_reasoning (get_str j (codes "reasoning_content") message)
              ++ handle_content (unwrap_or [] (get_str j (codes "content") message)))
            s))

    unfoldable pub take_reply : List ContentLibrary → Reply J → Run → Run × Turn
    unfolding parse_usage_block extract_message take_message
    take_reply libraries (refused error) s = (emit (failed error ∷ []) s, fail)
    take_reply libraries (replied resp) s = take_message libraries (extract_message resp) (
        emit
          (debug (s.turn_number) incoming resp
            ∷ emit_usage (bind_option (get (codes "usage") resp) parse_usage_block))
          s)

    unfoldable pub process_turn : Client → List ContentLibrary → J → Reply J → Run → Run × Turn
    unfolding outgoing_turn take_reply
    process_turn client libraries tools_json reply s =
        take_reply libraries reply (outgoing_turn client tools_json s)
