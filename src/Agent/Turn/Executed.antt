-- ===== src/Agent/Turn/Executed.antt =====
-- That each call of a turn is answered once: src/agent/tool_executor.rs, src/agent/agent_impl.rs
use personal_productivity_ai.Common.{
  ◌≡◌, refl, subst, inl, inr, true, List, [], ◌∷◌, map, map-map, Option-cases,
}
use personal_productivity_ai.Common.Text.{Text, codes}
use personal_productivity_ai.Common.Reorder.{Reordering, map-reorder}
use personal_productivity_ai.VirtualPath.{ContentLibrary}
use personal_productivity_ai.Agent.Json.{Json}
use personal_productivity_ai.Agent.Executor.{
  Tools, Executor, call_key, extract_str, keys_of, execute_all,
}
use personal_productivity_ai.Agent.Executor.Complete.{record_key, execute_all-keys}
use personal_productivity_ai.Agent.Turn.{call_id_of, process_tool_results}
use personal_productivity_ai.Agent.Turn.Answers.{
  IsDistinct, call_ids, answers_to, process_tool_results-answers,
}

module _ (j : Json) (t : Tools) where
  open j use {J}
  open t use {W, new_runtime, join_all}

  call_key-id : (tc : J) → (call_key j tc).0 ≡ call_id_of j tc
  unfolding call_key call_id_of extract_str
  call_key-id tc = elim (Option-cases (j.get (codes "id") tc)) [
    | inl e ↦ rw (e, extract_str) refl
    | inr (v, e) ↦ rw (e, extract_str) refl
  ]

  keys_of-ids : (calls : List J) → map (λ k. k.0) (keys_of j t calls) ≡ call_ids j calls
  unfolding keys_of call_ids
  keys_of-ids [] = refl
  keys_of-ids (tc ∷ calls) = rw (call_key-id tc, keys_of-ids calls) refl

  -- Where the runtime starts, no task of a read-only tool panics and the ids of the calls differ, the
  -- messages that the records of a turn give answer each call once, in the order of the calls.
  pub execute_all-answers :
      (libraries : List ContentLibrary) (calls : List J) (x : Executor j t)
      → new_runtime (x.world) ≡ true
      → ((keys : List (Text × Text × Text)) (w : W)
          → Reordering (map record_key ((join_all keys w).0)) keys)
      → IsDistinct (call_ids j calls)
      → map
          (answers_to j)
          ((process_tool_results j ((execute_all j t libraries calls x).0.0) calls).0)
        ≡ call_ids j calls
  execute_all-answers libraries calls x up joined d =
      let results = (execute_all j t libraries calls x).0.0 in
      process_tool_results-answers j results calls d (
        subst (λ ids. Reordering ids (call_ids j calls)) (map-map (λ k. k.0) record_key results)
          (subst (λ ids. Reordering (map (λ k. k.0) (map record_key results)) ids)
            (keys_of-ids calls)
            (map-reorder (λ k. k.0) (execute_all-keys j t libraries calls x up joined))))
