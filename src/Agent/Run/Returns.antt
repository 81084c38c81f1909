-- ===== src/Agent/Run/Returns.antt =====
-- That a cancelled run returns: src/agent/agent_impl.rs
use personal_productivity_ai.Common.{
  ◌≡◌, refl, Bool, true, false, not, Option, none, some, List, [], ◌∷◌, ◌++◌, if◌then◌else◌,
}
use personal_productivity_ai.Common.Text.{Text}
use personal_productivity_ai.VirtualPath.{ContentLibrary}
use personal_productivity_ai.Agent.Json.{Json}
use personal_productivity_ai.Agent.Executor.{Tools, Executor}
use personal_productivity_ai.Agent.Turn.{
  session_finished, status, failed, finished, Reply, Client, Run, Turn, continue, finish, fail,
  process_turn,
}
use personal_productivity_ai.Agent.Run.{
  Loop, done, failed_turn, unfinished, after_turn, run_loop, AgentContext, first_state, end_run,
  result_of, Result, run_agent, run_with, resolve_ll_client,
}

module _ (j : Json) (t : Tools) where
  open j use {J}

  abbrev is_left : Loop j t → Bool
  is_left (done s) = true
  is_left (failed_turn s) = true
  is_left (unfinished s) = false

  after_turn-is_left :
      (again : Run j t → Loop j t) (turn : Run j t × Turn)
      → ((s : Run j t) → is_left (again s) ≡ true)
      → is_left (after_turn j t again turn) ≡ true
  after_turn-is_left again (s, continue) h = h s
  after_turn-is_left again (s, finish) h = refl
  after_turn-is_left again (s, fail) h = refl

  run_loop-is_left :
      (client : Client) (libraries : List ContentLibrary) (tools_json : J)
      (script rest : List (Option (Reply J))) (s : Run j t)
      → is_left (run_loop j t client libraries tools_json (script ++ none ∷ rest) s) ≡ true
  unfolding run_loop
  run_loop-is_left client libraries tools_json [] rest s = refl
  run_loop-is_left client libraries tools_json (none ∷ script) rest s = refl
  run_loop-is_left client libraries tools_json (some reply ∷ script) rest s =
      after_turn-is_left (run_loop j t client libraries tools_json (script ++ none ∷ rest))
        (process_turn j t client libraries tools_json reply s)
        (run_loop-is_left client libraries tools_json script rest)

  end_run-left :
      (cancelled : Bool) (l : Loop j t)
      → is_left l ≡ true
      → (r : Result j t) × (end_run j t cancelled l ≡ some r)
  end_run-left cancelled (done s) h = (
    result_of j t (s.messages)
        ((if not cancelled then status finished ∷ [] else []) ++ session_finished (s.messages) ∷ [])
        s,
    refl,
  )
  end_run-left cancelled (failed_turn s) h = (result_of j t [] (session_finished [] ∷ []) s, refl)
  end_run-left cancelled (unfinished s) h = cc

  run_with-left :
      (ctx : AgentContext J) (script rest : List (Option (Reply J))) (cancelled : Bool)
      (x : Executor j t) (c : Option Client × Text)
      → (r : Result j t) × (run_with j t ctx (script ++ none ∷ rest) cancelled x c ≡ some r)
  unfolding run_with
  run_with-left ctx script rest cancelled x (none, error) = (
    record { history = []; turn_number = ctx.start_turn; events = failed error ∷ []; executor = x },
    refl,
  )
  run_with-left ctx script rest cancelled x (some client, error) =
      end_run-left cancelled
        (run_loop j t client (ctx.libraries) (ctx.tools_json) (script ++ none ∷ rest)
          (first_state j t ctx x))
        (run_loop-is_left client (ctx.libraries) (ctx.tools_json) script rest
          (first_state j t ctx x))

  -- A run at one of whose turns the cancel flag is set returns, however the model answers before.
  pub run_agent-cancelled :
      (ctx : AgentContext J) (script rest : List (Option (Reply J))) (cancelled : Bool)
      (x : Executor j t)
      → (r : Result j t) × (run_agent j t ctx (script ++ none ∷ rest) cancelled x ≡ some r)
  unfolding run_agent
  run_agent-cancelled ctx script rest cancelled x =
      run_with-left ctx script rest cancelled x (resolve_ll_client j ctx)
