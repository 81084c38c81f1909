-- ===== src/Agent/Session/Continued.antt =====
-- That a session is continued: src/agent/session.rs, src/agent/agent_impl.rs
use personal_productivity_ai.Common.{
  ℕ, ◌≡◌, refl, ap, sym, ◌∙◌, subst, false, ◌⊎◌, inl, inr, Option, none, some, List, [], ◌∷◌, ◌++◌,
  append_assoc, if◌then◌else◌,
}
use personal_productivity_ai.Common.Text.{Text, codes, text_eq, text_eq_self}
use personal_productivity_ai.Common.Dict.{lookup, lookup-insert}
use personal_productivity_ai.Agent.Json.{Json}
use personal_productivity_ai.Agent.Executor.{Tools}
use personal_productivity_ai.Agent.Run.{
  Result, run_agent, build_messages, system_messages, chat_message,
}
use personal_productivity_ai.Agent.Run.History.{run_agent-history}
use personal_productivity_ai.Agent.Session.{
  AgentPrompt, SessionExecutionState, session_of, context_of, stash, Driver, store, handled,
  handle_prompt,
}

module _ (j : Json) (t : Tools) where
  open j use {J}

  -- What a prompt makes of its session. Its run failed, or it had no client, and only the observer was told
  -- more. Or the history that the run returned is kept, which is the old one, or else the system prompt, with
  -- the prompt and more behind it, and the next prompt begins at the turn at which the run ended.
  abbrev pub Continues :
      AgentPrompt J → SessionExecutionState J → SessionExecutionState J → Result j t → Type 0
  Continues prompt s s' r =
      (s'.system_prompts ≡ s.system_prompts)
      × (s'.observer ≡ s.observer ++ r.events)
      × (((r.history ≡ []) × (s'.history ≡ s.history) × (s'.turn_offset ≡ s.turn_offset))
          ⊎ ((ms : List J) × (r.history
                ≡ build_messages j (s.system_prompts) (prompt.text) (s.history) ++ ms)
              × (s'.history ≡ some (r.history))
              × (s'.turn_offset ≡ r.turn_number)))

  stash-prompts :
      (h : List J) (n : ℕ) (s : SessionExecutionState J)
      → (stash h n s).system_prompts ≡ s.system_prompts
  unfolding stash
  stash-prompts [] n s = refl
  stash-prompts (m ∷ h) n s = refl

  stash-observer :
      (h : List J) (n : ℕ) (s : SessionExecutionState J) → (stash h n s).observer ≡ s.observer
  unfolding stash
  stash-observer [] n s = refl
  stash-observer (m ∷ h) n s = refl

  -- A history that holds a message is stored.
  stash-history :
      (xs ys : List J) (x : J) (n : ℕ) (s : SessionExecutionState J)
      → ((stash (xs ++ x ∷ ys) n s).history ≡ some (xs ++ x ∷ ys))
        × ((stash (xs ++ x ∷ ys) n s).turn_offset ≡ n)
  unfolding stash
  stash-history [] ys x n s = (refl, refl)
  stash-history (z ∷ xs) ys x n s = (refl, refl)

  build_messages-eq :
      (system_prompts : List Text) (prompt : Text) (history : Option (List J))
      → (xs : List J) × (x : J) × (build_messages j system_prompts prompt history ≡ xs ++ x ∷ [])
  unfolding build_messages
  build_messages-eq system_prompts prompt none =
      (system_messages j system_prompts, chat_message j (codes "user") prompt, refl)
  build_messages-eq system_prompts prompt (some existing) =
      (existing, chat_message j (codes "user") prompt, refl)

  stash-build_messages :
      (system_prompts : List Text) (prompt : Text) (history : Option (List J)) (ms : List J) (n : ℕ)
      (s : SessionExecutionState J)
      → let h = build_messages j system_prompts prompt history ++ ms in
        ((stash h n s).history ≡ some h) × ((stash h n s).turn_offset ≡ n)
  stash-build_messages system_prompts prompt history ms n s =
      let (xs, x, e) = build_messages-eq system_prompts prompt history in
      subst (λ h. ((stash h n s).history ≡ some h) × ((stash h n s).turn_offset ≡ n))
        (sym (append_assoc xs (x ∷ []) ms) ∙ ap (λ h. h ++ ms) (sym e)) (stash-history xs ms x n s)

  handled-inversion :
      (prompt : AgentPrompt J) (s : SessionExecutionState J) (d d' : Driver j t)
      (o : Option (Result j t))
      → handled j t prompt s d o ≡ some d'
      → (r : Result j t) × (o ≡ some r) × (store j t prompt s d r ≡ d')
  handled-inversion prompt s d d' none h = cc
  handled-inversion prompt s d d' (some r) h = (r, refl, cc)

  session_of-store :
      (prompt : AgentPrompt J) (s : SessionExecutionState J) (d : Driver j t) (r : Result j t)
      → session_of prompt ((store j t prompt s d r).sessions)
        ≡ stash (r.history) (r.turn_number) (record s { observer = s.observer ++ r.events })
  unfolding session_of
  session_of-store prompt s d r =
      let kept =
        stash (r.history) (r.turn_number) (record s { observer = s.observer ++ r.events }) in
      rw
        (
          lookup-insert (prompt.session_id) (prompt.session_id) kept (d.sessions),
          text_eq_self (prompt.session_id),
        )
        refl

  stash-Continues :
      (prompt : AgentPrompt J) (s : SessionExecutionState J) (r : Result j t)
      → (r.history ≡ [])
        ⊎ ((ms : List J) × (r.history
              ≡ build_messages j (s.system_prompts) (prompt.text) (s.history) ++ ms))
      → Continues prompt s
          (stash (r.history) (r.turn_number) (record s { observer = s.observer ++ r.events }))
          r
  unfolding stash
  stash-Continues prompt s r (inl e) =
      let s' = record s { observer = s.observer ++ r.events } in
      (
        stash-prompts (r.history) (r.turn_number) s',
        stash-observer (r.history) (r.turn_number) s',
        inl (
          e,
          ap (λ h. (stash h (r.turn_number) s').history) e,
          ap (λ h. (stash h (r.turn_number) s').turn_offset) e,
        ),
      )
  stash-Continues prompt s r (inr (ms, e)) =
      let s' = record s { observer = s.observer ++ r.events } in
      let (h, n) =
        stash-build_messages (s.system_prompts) (prompt.text) (s.history) ms (r.turn_number) s' in
      (
        stash-prompts (r.history) (r.turn_number) s',
        stash-observer (r.history) (r.turn_number) s',
        inr (
          ms,
          e,
          ap (λ l. (stash l (r.turn_number) s').history) e ∙ h ∙ ap some (sym e),
          ap (λ l. (stash l (r.turn_number) s').turn_offset) e ∙ n,
        ),
      )

  -- The prompt's run returned, and its session's observer was told the run's events too. The session then
  -- keeps the history that the run returned, which is the session's messages with the prompt and more behind
  -- them, and the run's last turn; or the run returned no history, and these stay. No other session changes.
  pub handle_prompt-Continues :
      (prompt : AgentPrompt J) (d d' : Driver j t)
      → handle_prompt j t prompt d ≡ some d'
      → ((r : Result j t) × (run_agent j t
              (context_of prompt (session_of prompt (d.sessions)))
              (prompt.script)
              (prompt.cancelled)
              (d.executor)
            ≡ some r)
          × Continues prompt (session_of prompt (d.sessions)) (session_of prompt (d'.sessions)) r)
        × ((k : Text)
            → text_eq (prompt.session_id) k ≡ false
            → lookup k (d'.sessions) ≡ lookup k (d.sessions))
  unfolding handle_prompt
  handle_prompt-Continues prompt d d' h =
      let s = session_of prompt (d.sessions) in
      let ctx = context_of prompt s in
      let ran = run_agent j t ctx (prompt.script) (prompt.cancelled) (d.executor) in
      let (r, e, g) = handled-inversion prompt s d d' ran h in
      let kept =
        stash (r.history) (r.turn_number) (record s { observer = s.observer ++ r.events }) in
      (
        (
          r,
          e,
          subst (λ s'. Continues prompt s s' r)
              (sym (session_of-store prompt s d r) ∙ ap (λ d. session_of prompt (d.sessions)) g)
              (stash-Continues prompt s r
                (run_agent-history j t ctx (prompt.script) (prompt.cancelled) (d.executor) r e)),
        ),
        λ k n.
            ap (λ d. lookup k (d.sessions)) (sym g)
            ∙ lookup-insert (prompt.session_id) k kept (d.sessions)
            ∙ ap (λ b. if b then some kept else lookup k (d.sessions)) n,
      )
