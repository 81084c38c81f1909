-- ===== src/Agent/Turn/Growth.antt =====
-- What a turn adds to the conversation and tells the observer: src/agent/agent_impl.rs
use personal_productivity_ai.Common.{
  ◌≡◌, refl, ap, sym, ◌∙◌, Bool, true, false, ◌&&◌, Option, none, some, List, [], ◌∷◌, ◌++◌, map,
  arith, append-nil, append_assoc, Bool-cases, inl, inr,
}
use personal_productivity_ai.Common.Text.{Text, codes}
use personal_productivity_ai.Common.Trim.{is_empty}
use personal_productivity_ai.Common.Dict.{Dict, lookup, remove}
use personal_productivity_ai.VirtualPath.{ContentLibrary}
use personal_productivity_ai.Agent.Json.{Json, unwrap_or, get_str, bind_option}
use personal_productivity_ai.Agent.Executor.{Tools, ToolCallRecord, ToolSideEffect, execute_all}
use personal_productivity_ai.Agent.Turn.{
  AgentEvent, session_started, session_finished, status, thinking, content_delta, tool_call_started,
  tool_result, tool_side_effect, debug_entry, token_usage, failed, DebugEntryKind, outgoing,
  incoming, tool_results, TokenUsageInfo, Reply, replied, refused, Run, Turn, continue, finish,
  fail, run_tools, take_message, take_reply, after_message, tool_calls_of, extract_message, emit,
  push_messages, started, answer_calls, answered, call_id_of, process_tool_results,
  handle_reasoning, handle_content, emit_usage, parse_usage_block, shown_record, debug, record_map,
  executing_tools,
}

abbrev pub is_answer : DebugEntryKind → Bool
is_answer outgoing = false
is_answer incoming = true
is_answer tool_results = true

module _ {J : Type 0} where
  -- An event that tells of a reply: no failure, no end of the session and no request.
  abbrev pub is_inner : AgentEvent J → Bool
  is_inner session_started = false
  is_inner (session_finished ms) = false
  is_inner (failed error) = false
  is_inner (debug_entry d) = is_answer (d.kind)
  is_inner (status s) = true
  is_inner (thinking s) = true
  is_inner (content_delta s) = true
  is_inner (tool_call_started i n a) = true
  is_inner (tool_result i n r) = true
  is_inner (tool_side_effect e) = true
  is_inner (token_usage u) = true

  unfoldable pub inner : List (AgentEvent J) → Bool
  inner [] = true
  inner (e ∷ es) = is_inner e && inner es

  inner-append : (xs ys : List (AgentEvent J)) → inner (xs ++ ys) ≡ (inner xs && inner ys)
  unfolding inner
  inner-append [] ys = refl
  inner-append (x ∷ xs) ys = ground (arith, inner-append xs ys)

  -- What a turn that ends as it does tells: its failure is the last event, and there is no other.
  unfoldable pub Told : Turn → List (AgentEvent J) → Type 0
  Told fail es =
      (error : Text) × (before : List (AgentEvent J)) × (es ≡ before ++ failed error ∷ [])
      × (inner before ≡ true)
  Told continue es = inner es ≡ true
  Told finish es = inner es ≡ true

module _ (j : Json) (t : Tools) where
  open j use {J, array, get}

  -- The second state has the conversation of the first and more, and what it told is inner.
  abbrev pub Extends : Run j t → Run j t → Type 0
  Extends s s' =
      ((ms : List J) × (s'.messages ≡ s.messages ++ ms))
      × ((es : List (AgentEvent J)) × (s'.events ≡ s.events ++ es) × (inner es ≡ true))
      × (s'.turn_number ≡ s.turn_number)
      × (s'.prev_messages_len ≡ s.prev_messages_len)

  Extends-refl : (s : Run j t) → Extends s s
  unfolding inner
  Extends-refl s =
      (([], sym (append-nil (s.messages))), ([], sym (append-nil (s.events)), refl), refl, refl)

  Extends-trans : (a b c : Run j t) → Extends a b → Extends b c → Extends a c
  Extends-trans a b c ((ms, e), (es, f, i), g, h) ((ns, e'), (fs, f', i'), g', h') = (
    (ms ++ ns, e' ∙ ap (λ l. l ++ ns) e ∙ append_assoc (a.messages) ms ns),
    (
      es ++ fs,
      f' ∙ ap (λ l. l ++ fs) f ∙ append_assoc (a.events) es fs,
      inner-append es fs ∙ rw (i, i') refl,
    ),
    g' ∙ g,
    h' ∙ h,
  )

  Extends-push : (ms : List J) (s : Run j t) → Extends s (push_messages j t ms s)
  unfolding inner
  Extends-push ms s = ((ms, refl), ([], sym (append-nil (s.events)), refl), refl, refl)

  Extends-emit :
      (es : List (AgentEvent J)) (s : Run j t) → inner es ≡ true → Extends s (emit j t es s)
  Extends-emit es s i = (([], sym (append-nil (s.messages))), (es, refl, i), refl, refl)

  inner-started : (calls : List J) → inner (map (started j) calls) ≡ true
  unfolding inner started
  inner-started [] = refl
  inner-started (tc ∷ calls) = inner-started calls

  inner-effects :
      (effects : List ToolSideEffect) → inner {J = J} (map tool_side_effect effects) ≡ true
  unfolding inner
  inner-effects [] = refl
  inner-effects (e ∷ effects) = inner-effects effects

  inner-answered :
      (cid : Text) (o : Option ToolCallRecord) (rest : List J × List (AgentEvent J))
      → inner (rest.1) ≡ true
      → inner ((answered j cid o rest).1) ≡ true
  unfolding answered inner
  inner-answered cid none rest h = h
  inner-answered cid (some r) rest h = h

  inner-answer_calls :
      (m : Dict ToolCallRecord) (calls : List J) → inner ((answer_calls j m calls).1) ≡ true
  unfolding inner answer_calls
  inner-answer_calls m [] = refl
  inner-answer_calls m (tc ∷ calls) =
      let cid = call_id_of j tc in
      inner-answered cid (lookup cid m) (answer_calls j (remove cid m) calls)
        (inner-answer_calls (remove cid m) calls)

  run_tools-Extends :
      (libraries : List ContentLibrary) (calls : List J) (s : Run j t)
      → Extends s (run_tools j t libraries calls s)
  unfolding run_tools inner process_tool_results
  run_tools-Extends libraries calls s =
      let ((results, effects), x) = execute_all j t libraries calls (s.executor) in
      let shown = array (map (shown_record j) results) in
      let answers = (process_tool_results j results calls).1 in
      let rest = debug j (s.turn_number) tool_results shown ∷ answers in
      let h : inner rest ≡ true = inner-answer_calls (record_map [] results) calls in
      let g =
        inner-append (map tool_side_effect effects) rest ∙ rw (inner-effects effects, h) refl in
      let f =
        inner-append (map (started j) calls)
          (status executing_tools ∷ (map tool_side_effect effects ++ rest))
        ∙ rw (inner-started calls, g) refl in
      (
        ((process_tool_results j results calls).0, refl),
        (
          map (started j) calls
              ++ (status executing_tools ∷ (map tool_side_effect effects ++ rest)),
          refl,
          f,
        ),
        refl,
        refl,
      )

  inner-spoken :
      (r : Option Text) (content : Text)
      → inner (handle_reasoning j r ++ handle_content j content) ≡ true
  unfolding inner
  inner-spoken none content = elim (Bool-cases (is_empty content)) [
    | inl e ↦ rw e refl
    | inr e ↦ rw e refl
  ]
  inner-spoken (some r) content = elim (Bool-cases (is_empty content)) [
    | inl e ↦ rw e refl
    | inr e ↦ rw e refl
  ]

  inner-emit_usage : (u : Option TokenUsageInfo) → inner (emit_usage j u) ≡ true
  unfolding inner
  inner-emit_usage none = refl
  inner-emit_usage (some u) = refl

  -- A state that extends another up to a failure that is told last.
  abbrev pub Reaches : Run j t → Run j t × Turn → Type 0
  Reaches s (s', r) =
      ((ms : List J) × (s'.messages ≡ s.messages ++ ms))
      × ((es : List (AgentEvent J)) × (s'.events ≡ s.events ++ es) × Told r es)
      × (s'.turn_number ≡ s.turn_number)
      × (s'.prev_messages_len ≡ s.prev_messages_len)

  Reaches-fail :
      (error : Text) (s s' : Run j t)
      → Extends s s'
      → Reaches s (emit j t (failed error ∷ []) s', fail)
  unfolding Told
  Reaches-fail error s s' (m, (es, e, i), g, h) = (
    m,
    (
      es ++ failed error ∷ [],
      ap (λ l. l ++ failed error ∷ []) e ∙ append_assoc (s.events) es (failed error ∷ []),
      (error, es, refl, i),
    ),
    g,
    h,
  )

  after_message-Reaches :
      (libraries : List ContentLibrary) (calls : List J) (s s' : Run j t)
      → Extends s s'
      → Reaches s (after_message j t libraries calls s')
  unfolding Told after_message
  after_message-Reaches libraries [] s s' e = e
  after_message-Reaches libraries (tc ∷ calls) s s' e =
      Extends-trans s s' (run_tools j t libraries (tc ∷ calls) s') e
        (run_tools-Extends libraries (tc ∷ calls) s')

  take_message-Reaches :
      (libraries : List ContentLibrary) (m : Option J) (s s' : Run j t)
      → Extends s s'
      → Reaches s (take_message j t libraries m s')
  unfolding take_message
  take_message-Reaches libraries none s s' e = Reaches-fail (codes "Invalid response schema") s s' e
  take_message-Reaches libraries (some message) s s' e =
      let spoken =
        handle_reasoning j (get_str j (codes "reasoning_content") message)
        ++ handle_content j (unwrap_or [] (get_str j (codes "content") message)) in
      let told = emit j t spoken s' in
      let next = push_messages j t (message ∷ []) told in
      after_message-Reaches libraries (tool_calls_of j message) s next (
        Extends-trans s s' next e (
          Extends-trans s' told next
            (Extends-emit spoken s' (
              inner-spoken (get_str j (codes "reasoning_content") message)
                (unwrap_or [] (get_str j (codes "content") message))))
            (Extends-push (message ∷ []) told)))

  pub take_reply-Reaches :
      (libraries : List ContentLibrary) (reply : Reply J) (s : Run j t)
      → Reaches s (take_reply j t libraries reply s)
  unfolding take_reply inner
  take_reply-Reaches libraries (refused error) s = Reaches-fail error s s (Extends-refl s)
  take_reply-Reaches libraries (replied resp) s =
      let usage = emit_usage j (bind_option (get (codes "usage") resp) (parse_usage_block j)) in
      let es = debug j (s.turn_number) incoming resp ∷ usage in
      take_message-Reaches libraries (extract_message j resp) s (emit j t es s) (
        Extends-emit es s
          (inner-emit_usage (bind_option (get (codes "usage") resp) (parse_usage_block j))))
