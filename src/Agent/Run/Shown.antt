-- ===== src/Agent/Run/Shown.antt =====
-- What the debug log of a run shows of the conversation: src/agent/agent_impl.rs
use personal_productivity_ai.Common.{
  ◌+◌, ◌≤◌, ◌≡◌, refl, ap, sym, ◌∙◌, true, Option, none, some, List, [], ◌∷◌, ◌++◌, arith,
  append-nil, append_assoc, length, take, drop, take-append-drop, length-append,
}
use personal_productivity_ai.Common.Text.{codes}
use personal_productivity_ai.Common.Dict.{lookup}
use personal_productivity_ai.VirtualPath.{ContentLibrary}
use personal_productivity_ai.Agent.Json.{Json, unwrap_or, bind_option}
use personal_productivity_ai.Agent.Executor.{Tools, Executor}
use personal_productivity_ai.Agent.Turn.{
  AgentEvent, session_started, session_finished, status, thinking, content_delta, tool_call_started,
  tool_result, tool_side_effect, debug_entry, token_usage, failed, DebugEntryKind, outgoing,
  incoming, tool_results, Reply, Client, Run, Turn, continue, finish, fail, outgoing_turn,
  take_reply, process_turn, debug, request_shown, awaiting_llm,
}
use personal_productivity_ai.Agent.Turn.Growth.{
  is_answer, is_inner, inner, Told, take_reply-Reaches,
}
use personal_productivity_ai.Agent.Run.{
  Loop, done, failed_turn, unfinished, after_turn, run_loop, AgentContext, first_state,
}

module _ (j : Json) where
  open j use {J, get, as_array}

  abbrev pub new_messages : DebugEntryKind → Option J → List J
  new_messages outgoing (some content) =
      unwrap_or [] (bind_option (get (codes "new_messages") content) as_array)
  new_messages outgoing none = []
  new_messages incoming content = []
  new_messages tool_results content = []

  abbrev pub shown_in : AgentEvent J → List J
  shown_in (debug_entry d) = new_messages (d.kind) (d.content)
  shown_in session_started = []
  shown_in (session_finished ms) = []
  shown_in (failed error) = []
  shown_in (status s) = []
  shown_in (thinking s) = []
  shown_in (content_delta s) = []
  shown_in (tool_call_started i n a) = []
  shown_in (tool_result i n r) = []
  shown_in (tool_side_effect e) = []
  shown_in (token_usage u) = []

  -- The new messages of the requests of a log, one request after the other.
  unfoldable pub shown : List (AgentEvent J) → List J
  shown [] = []
  shown (e ∷ es) = shown_in e ++ shown es

  shown-append : (xs ys : List (AgentEvent J)) → shown (xs ++ ys) ≡ shown xs ++ shown ys
  unfolding shown
  shown-append [] ys = refl
  shown-append (x ∷ xs) ys =
      ap (λ l. shown_in x ++ l) (shown-append xs ys)
      ∙ sym (append_assoc (shown_in x) (shown xs) (shown ys))

  new_messages-answer :
      (k : DebugEntryKind) (c : Option J) → is_answer k ≡ true → new_messages k c ≡ []
  new_messages-answer outgoing c h = ground (arith, h)
  new_messages-answer incoming c h = refl
  new_messages-answer tool_results c h = refl

  shown_in-inner : (e : AgentEvent J) → is_inner e ≡ true → shown_in e ≡ []
  shown_in-inner (debug_entry d) h = new_messages-answer (d.kind) (d.content) h
  shown_in-inner session_started h = refl
  shown_in-inner (session_finished ms) h = refl
  shown_in-inner (failed error) h = refl
  shown_in-inner (status s) h = refl
  shown_in-inner (thinking s) h = refl
  shown_in-inner (content_delta s) h = refl
  shown_in-inner (tool_call_started i n a) h = refl
  shown_in-inner (tool_result i n r) h = refl
  shown_in-inner (tool_side_effect e) h = refl
  shown_in-inner (token_usage u) h = refl

  shown-inner : (es : List (AgentEvent J)) → inner es ≡ true → shown es ≡ []
  unfolding shown inner
  shown-inner [] h = refl
  shown-inner (e ∷ es) h =
      rw (shown_in-inner e (ground (arith, h)), shown-inner es (ground (arith, h))) refl

  shown-Told : (r : Turn) (es : List (AgentEvent J)) → Told r es → shown es ≡ []
  unfolding Told shown
  shown-Told continue es h = shown-inner es h
  shown-Told finish es h = shown-inner es h
  shown-Told fail es (error, before, e, i) =
      ap shown e ∙ shown-append before (failed error ∷ []) ∙ rw (shown-inner before i) refl

  module _ (t : Tools) where
    -- The requests so far showed the conversation up to the last request, each message once.
    unfoldable pub IsShown : Run j t → Type 0
    IsShown s =
        (shown (s.events) ≡ take (s.prev_messages_len) (s.messages))
        × (s.prev_messages_len ≤ length (s.messages))

    take-length_append : (xs ys : List J) → take (length xs) (xs ++ ys) ≡ xs
    take-length_append [] ys = refl
    take-length_append (x ∷ xs) ys = ap (λ l. x ∷ l) (take-length_append xs ys)

    new_messages-request_shown :
        (client : Client) (tools_json : J) (new : List J)
        → new_messages outgoing (some (request_shown j client tools_json new)) ≡ new
    unfolding request_shown lookup
    new_messages-request_shown client tools_json new = rw (j.get-object, j.as_array-array) refl

    prev-outgoing_turn :
        (client : Client) (tools_json : J) (s : Run j t)
        → (outgoing_turn j t client tools_json s).prev_messages_len ≡ length (s.messages)
    unfolding outgoing_turn
    prev-outgoing_turn client tools_json s = refl

    messages-outgoing_turn :
        (client : Client) (tools_json : J) (s : Run j t)
        → (outgoing_turn j t client tools_json s).messages ≡ s.messages
    unfolding outgoing_turn
    messages-outgoing_turn client tools_json s = refl

    shown-outgoing_turn :
        (client : Client) (tools_json : J) (s : Run j t)
        → IsShown s
        → shown ((outgoing_turn j t client tools_json s).events) ≡ s.messages
    unfolding outgoing_turn shown IsShown
    shown-outgoing_turn client tools_json s (e, h) =
        let new = drop (s.prev_messages_len) (s.messages) in
        shown-append (s.events) (
          status awaiting_llm
          ∷ debug j (s.turn_number + 1) outgoing (request_shown j client tools_json new)
          ∷ [])
        ∙ ap (λ l. shown (s.events) ++ (l ++ [])) (new_messages-request_shown client tools_json new)
        ∙ rw (e, append-nil new) (take-append-drop (s.prev_messages_len) (s.messages))

    -- A turn keeps the log complete, whatever the model answers.
    process_turn-IsShown :
        (client : Client) (libraries : List ContentLibrary) (tools_json : J) (reply : Reply J)
        (s : Run j t)
        → IsShown s
        → IsShown ((process_turn j t client libraries tools_json reply s).0)
    unfolding process_turn IsShown
    process_turn-IsShown client libraries tools_json reply s h =
        let s1 = outgoing_turn j t client tools_json s in
        let (s', r) = take_reply j t libraries reply s1 in
        let ((ms, e), (es, f, told), g, p) = take_reply-Reaches j t libraries reply s1 in
        let n : s1.prev_messages_len ≡ length (s.messages) =
          prev-outgoing_turn client tools_json s in
        let m : s1.messages ≡ s.messages = messages-outgoing_turn client tools_json s in
        (
          ap shown f
              ∙ shown-append (s1.events) es
              ∙ rw
                  (
                    shown-Told r es told,
                    append-nil (shown (s1.events)),
                    shown-outgoing_turn client tools_json s h,
                    p,
                    e,
                    m,
                    n,
                  )
                  (sym (take-length_append (s.messages) ms)),
          rw (p, n, e, m, length-append (s.messages) ms) (omega arith),
        )

    -- The state at the end of the loop.
    abbrev pub state_of : Loop j t → Run j t
    state_of (done s) = s
    state_of (failed_turn s) = s
    state_of (unfinished s) = s

    after_turn-IsShown :
        (again : Run j t → Loop j t) (turn : Run j t × Turn)
        → ((s : Run j t) → IsShown s → IsShown (state_of (again s)))
        → IsShown (turn.0)
        → IsShown (state_of (after_turn j t again turn))
    after_turn-IsShown again (s, continue) h k = h s k
    after_turn-IsShown again (s, finish) h k = k
    after_turn-IsShown again (s, fail) h k = k

    run_loop-IsShown :
        (client : Client) (libraries : List ContentLibrary) (tools_json : J)
        (script : List (Option (Reply J))) (s : Run j t)
        → IsShown s
        → IsShown (state_of (run_loop j t client libraries tools_json script s))
    unfolding run_loop
    run_loop-IsShown client libraries tools_json [] s h = h
    run_loop-IsShown client libraries tools_json (none ∷ script) s h = h
    run_loop-IsShown client libraries tools_json (some reply ∷ script) s h =
        after_turn-IsShown (run_loop j t client libraries tools_json script)
          (process_turn j t client libraries tools_json reply s)
          (run_loop-IsShown client libraries tools_json script)
          (process_turn-IsShown client libraries tools_json reply s h)

    -- At the end of a run's loop the requests in the debug log showed, together, each message of the
    -- conversation up to the last request once and in order, and the log's position is within the conversation.
    pub run_loop-shown :
        (ctx : AgentContext J) (client : Client) (script : List (Option (Reply J)))
        (x : Executor j t)
        → let s =
            state_of (
              run_loop j t client
                (ctx.libraries)
                (ctx.tools_json)
                script
                (first_state j t ctx x)) in
          (shown (s.events) ≡ take (s.prev_messages_len) (s.messages))
          × (s.prev_messages_len ≤ length (s.messages))
    unfolding IsShown shown first_state
    run_loop-shown ctx client script x =
        run_loop-IsShown client (ctx.libraries) (ctx.tools_json) script (first_state j t ctx x)
          (refl, omega arith)
