-- ===== src/Agent/Run/Protocol.antt =====
-- What a run tells its observer, and what it returns: src/agent/agent_impl.rs
use personal_productivity_ai.Common.{
  ◌+◌, ◌≡◌, refl, ap, sym, ◌∙◌, subst, Bool, true, false, not, ◌&&◌, Option, none, some, List, [],
  ◌∷◌, ◌++◌, arith, append-nil, append_assoc, drop, inl, inr, ◌⊎◌, if◌then◌else◌,
}
use personal_productivity_ai.Common.Text.{Text}
use personal_productivity_ai.VirtualPath.{ContentLibrary}
use personal_productivity_ai.Agent.Json.{Json}
use personal_productivity_ai.Agent.Executor.{Tools, Executor}
use personal_productivity_ai.Agent.Turn.{
  AgentEvent, session_started, session_finished, status, thinking, content_delta, tool_call_started,
  tool_result, tool_side_effect, debug_entry, token_usage, failed, finished, Reply, Client, Run,
  Turn, continue, finish, fail, outgoing_turn, take_reply, process_turn, debug, outgoing,
  request_shown, awaiting_llm,
}
use personal_productivity_ai.Agent.Turn.Growth.{
  is_inner, inner, Told, Extends, Reaches, take_reply-Reaches,
}
use personal_productivity_ai.Agent.Run.{
  Loop, done, failed_turn, unfinished, after_turn, run_loop, AgentContext, first_state, end_run,
  result_of, Result, run_agent, run_with, build_messages, resolve_ll_client,
}

module _ {J : Type 0} where
  -- Neither a failure nor the end of a session.
  abbrev pub is_quiet : AgentEvent J → Bool
  is_quiet session_started = true
  is_quiet (session_finished ms) = false
  is_quiet (failed error) = false
  is_quiet (debug_entry d) = true
  is_quiet (status s) = true
  is_quiet (thinking s) = true
  is_quiet (content_delta s) = true
  is_quiet (tool_call_started i n a) = true
  is_quiet (tool_result i n r) = true
  is_quiet (tool_side_effect e) = true
  is_quiet (token_usage u) = true

  unfoldable pub quiet : List (AgentEvent J) → Bool
  quiet [] = true
  quiet (e ∷ es) = is_quiet e && quiet es

  pub quiet-append : (xs ys : List (AgentEvent J)) → quiet (xs ++ ys) ≡ (quiet xs && quiet ys)
  unfolding quiet
  quiet-append [] ys = refl
  quiet-append (x ∷ xs) ys = ground (arith, quiet-append xs ys)

  is_quiet-inner : (e : AgentEvent J) → is_inner e ≡ true → is_quiet e ≡ true
  is_quiet-inner session_started h = refl
  is_quiet-inner (session_finished ms) h = h
  is_quiet-inner (failed error) h = h
  is_quiet-inner (debug_entry d) h = refl
  is_quiet-inner (status s) h = refl
  is_quiet-inner (thinking s) h = refl
  is_quiet-inner (content_delta s) h = refl
  is_quiet-inner (tool_call_started i n a) h = refl
  is_quiet-inner (tool_result i n r) h = refl
  is_quiet-inner (tool_side_effect e) h = refl
  is_quiet-inner (token_usage u) h = refl

  quiet-inner : (es : List (AgentEvent J)) → inner es ≡ true → quiet es ≡ true
  unfolding quiet inner
  quiet-inner [] h = refl
  quiet-inner (e ∷ es) h =
      rw (is_quiet-inner e (ground (arith, h)), quiet-inner es (ground (arith, h))) refl

module _ (j : Json) (t : Tools) where
  open j use {J}

  -- A state on the way: the conversation begins with what the run began with, and nothing failed.
  abbrev IsGoing : List J → Run j t → Type 0
  IsGoing m s = ((ms : List J) × (s.messages ≡ m ++ ms)) × (quiet (s.events) ≡ true)

  -- A state whose last event is the only failure.
  abbrev HasFailed : Run j t → Type 0
  HasFailed s =
      (before : List (AgentEvent J)) × (error : Text) × (s.events ≡ before ++ failed error ∷ [])
      × (quiet before ≡ true)

  abbrev IsTurn : List J → Run j t × Turn → Type 0
  IsTurn m (s, continue) = IsGoing m s
  IsTurn m (s, finish) = IsGoing m s
  IsTurn m (s, fail) = HasFailed s

  abbrev IsLoop : List J → Loop j t → Type 0
  IsLoop m (done s) = IsGoing m s
  IsLoop m (failed_turn s) = HasFailed s
  IsLoop m (unfinished s) = IsGoing m s

  outgoing_turn-IsGoing :
      (client : Client) (tools_json : J) (m : List J) (s : Run j t)
      → IsGoing m s
      → IsGoing m (outgoing_turn j t client tools_json s)
  unfolding outgoing_turn quiet
  outgoing_turn-IsGoing client tools_json m s (e, q) = (
    e,
    quiet-append (s.events) (
          status awaiting_llm
          ∷ debug j (s.turn_number + 1) outgoing
              (request_shown j client tools_json (drop (s.prev_messages_len) (s.messages)))
          ∷ [])
        ∙ rw q refl,
  )

  Extends-IsGoing : (m : List J) (s s' : Run j t) → IsGoing m s → Extends j t s s' → IsGoing m s'
  Extends-IsGoing m s s' ((ms, e), q) ((ns, f), (es, g, i), _, _) = (
    (ms ++ ns, f ∙ ap (λ l. l ++ ns) e ∙ append_assoc m ms ns),
    ap quiet g ∙ quiet-append (s.events) es ∙ rw (q, quiet-inner es i) refl,
  )

  Reaches-IsTurn :
      (m : List J) (s s' : Run j t) (r : Turn)
      → IsGoing m s
      → Reaches j t s (s', r)
      → IsTurn m (s', r)
  unfolding Told
  Reaches-IsTurn m s s' continue h r = Extends-IsGoing m s s' h r
  Reaches-IsTurn m s s' finish h r = Extends-IsGoing m s s' h r
  Reaches-IsTurn m s s' fail (_, q) (_, (es, g, (error, before, k, i)), _, _) = (
    s.events ++ before,
    error,
    g ∙ ap (λ l. s.events ++ l) k ∙ sym (append_assoc (s.events) before (failed error ∷ [])),
    quiet-append (s.events) before ∙ rw (q, quiet-inner before i) refl,
  )

  process_turn-IsTurn :
      (client : Client) (libraries : List ContentLibrary) (tools_json : J) (reply : Reply J)
      (m : List J) (s : Run j t)
      → IsGoing m s
      → IsTurn m (process_turn j t client libraries tools_json reply s)
  unfolding process_turn
  process_turn-IsTurn client libraries tools_json reply m s h =
      let s1 = outgoing_turn j t client tools_json s in
      let (s', r) = take_reply j t libraries reply s1 in
      Reaches-IsTurn m s1 s' r (outgoing_turn-IsGoing client tools_json m s h)
        (take_reply-Reaches j t libraries reply s1)

  after_turn-IsLoop :
      (m : List J) (again : Run j t → Loop j t) (turn : Run j t × Turn)
      → ((s : Run j t) → IsGoing m s → IsLoop m (again s))
      → IsTurn m turn
      → IsLoop m (after_turn j t again turn)
  after_turn-IsLoop m again (s, continue) h k = h s k
  after_turn-IsLoop m again (s, finish) h k = k
  after_turn-IsLoop m again (s, fail) h k = k

  run_loop-IsLoop :
      (client : Client) (libraries : List ContentLibrary) (tools_json : J)
      (script : List (Option (Reply J))) (m : List J) (s : Run j t)
      → IsGoing m s
      → IsLoop m (run_loop j t client libraries tools_json script s)
  unfolding run_loop
  run_loop-IsLoop client libraries tools_json [] m s h = h
  run_loop-IsLoop client libraries tools_json (none ∷ script) m s h = h
  run_loop-IsLoop client libraries tools_json (some reply ∷ script) m s h =
      after_turn-IsLoop m (run_loop j t client libraries tools_json script)
        (process_turn j t client libraries tools_json reply s)
        (run_loop-IsLoop client libraries tools_json script m)
        (process_turn-IsTurn client libraries tools_json reply m s h)

  -- The run ended well: its last event hands over the history that it returns, which begins with the
  -- messages given, and no event before it is a failure or an end.
  abbrev pub EndsWell : List J → Result j t → Type 0
  EndsWell m r =
      (es : List (AgentEvent J)) × (r.events ≡ es ++ session_finished (r.history) ∷ [])
      × (quiet es ≡ true)
      × ((ms : List J) × (r.history ≡ m ++ ms))

  -- The run failed: its last two events are the failure and an end with nothing, no event before them
  -- is a failure or an end, and it returns no history.
  abbrev pub EndsInFailure : Result j t → Type 0
  EndsInFailure r =
      (es : List (AgentEvent J)) × (error : Text) × (r.events
        ≡ es ++ (failed error ∷ session_finished [] ∷ []))
      × (quiet es ≡ true)
      × (r.history ≡ [])

  quiet-last :
      (cancelled : Bool) → quiet {J = J} (if not cancelled then status finished ∷ [] else []) ≡ true
  unfolding quiet
  quiet-last true = refl
  quiet-last false = refl

  end_run-ends :
      (m : List J) (cancelled : Bool) (l : Loop j t) (r : Result j t)
      → IsLoop m l
      → end_run j t cancelled l ≡ some r
      → EndsWell m r ⊎ EndsInFailure r
  end_run-ends m cancelled (done s) r ((ms, e), q) h =
      let r' =
        result_of j t (s.messages)
          ((if not cancelled then status finished ∷ [] else [])
            ++ session_finished (s.messages) ∷ [])
          s in
      let g : r' ≡ r = cc in
      let last : List (AgentEvent J) = if not cancelled then status finished ∷ [] else [] in
      subst (λ r. EndsWell m r ⊎ EndsInFailure r) g
        (inl (
          s.events ++ last,
          sym (append_assoc (s.events) last (session_finished (s.messages) ∷ [])),
          quiet-append (s.events) last ∙ rw q (quiet-last cancelled),
          (ms, e),
        ))
  end_run-ends m cancelled (failed_turn s) r (before, error, e, q) h =
      let g : result_of j t [] (session_finished [] ∷ []) s ≡ r = cc in
      subst (λ r. EndsWell m r ⊎ EndsInFailure r) g
        (inr (
          before,
          error,
          ap (λ l. l ++ session_finished [] ∷ []) e
              ∙ append_assoc before (failed error ∷ []) (session_finished [] ∷ []),
          q,
          refl,
        ))
  end_run-ends m cancelled (unfinished s) r g h = cc

  -- A run that has its client ends well, or in a failure. Well: its last event hands over the history
  -- that it returns, which begins with the messages given, and no event before it is a failure or an
  -- end. In a failure: its last two events are the failure and an end with nothing, no event before
  -- them is a failure or an end, and it returns no history.
  pub run_agent-ends :
      (ctx : AgentContext J) (client : Client) (error : Text) (script : List (Option (Reply J)))
      (cancelled : Bool) (x : Executor j t) (r : Result j t)
      → resolve_ll_client j ctx ≡ (some client, error)
      → run_agent j t ctx script cancelled x ≡ some r
      → EndsWell (build_messages j (ctx.system_prompts) (ctx.prompt) (ctx.history)) r
        ⊎ EndsInFailure r
  unfolding run_agent first_state quiet run_with
  run_agent-ends ctx client error script cancelled x r c h =
      let m = build_messages j (ctx.system_prompts) (ctx.prompt) (ctx.history) in
      end_run-ends m cancelled
        (run_loop j t client (ctx.libraries) (ctx.tools_json) script (first_state j t ctx x)) r
        (run_loop-IsLoop client (ctx.libraries) (ctx.tools_json) script m (first_state j t ctx x)
          (([], sym (append-nil m)), refl))
        (ap (run_with j t ctx script cancelled x) (sym c) ∙ h)
