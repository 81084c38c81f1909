-- ===== src/Agent/Executor/Complete.antt =====
-- Which calls are recorded: src/agent/tool_executor.rs
use personal_productivity_ai.Common.{
  ◌≡◌, refl, ap, inl, inr, true, List, [], ◌∷◌, ◌++◌, map, map-append, Bool-cases,
}
use personal_productivity_ai.Common.Text.{Text}
use personal_productivity_ai.Common.Reorder.{
  Reordering, nil, cons, trans, reorder-append_right, reorder_middle,
}
use personal_productivity_ai.VirtualPath.{ContentLibrary}
use personal_productivity_ai.Agent.Json.{Json}
use personal_productivity_ai.Agent.Executor.{
  Tools, ToolCallRecord, Executor, call_key, function_name, classify, is_read_only, partition_calls,
  keys_of, execute_parallel, execute_sequential, execute_all,
}

-- What a record tells of the call that it records.
abbrev pub record_key : ToolCallRecord → Text × Text × Text
record_key r = (r.call_id, r.name, r.arguments)

module _ (j : Json) (t : Tools) where
  open j use {J}
  open t use {W, new_runtime, join_all}

  execute_sequential-keys :
      (calls : List J) (w : W)
      → map record_key ((execute_sequential j t calls w).0) ≡ keys_of j t calls
  unfolding execute_sequential keys_of
  execute_sequential-keys [] w = refl
  execute_sequential-keys (tc ∷ calls) w =
      ap (λ ks. call_key j tc ∷ ks)
        (execute_sequential-keys calls (t.execute_tool ((call_key j tc).1) ((call_key j tc).2) w).1)

  -- A turn's calls are the read-only ones and the others.
  partition_calls-reorder :
      (calls : List J)
      → Reordering
          (keys_of j t ((partition_calls j t calls).0)
            ++ keys_of j t ((partition_calls j t calls).1))
          (keys_of j t calls)
  unfolding partition_calls keys_of
  partition_calls-reorder [] = nil
  partition_calls-reorder (tc ∷ calls) =
      elim (Bool-cases (is_read_only j t (classify j t (function_name j tc)))) [
        | inl e ↦ rw e (cons refl (partition_calls-reorder calls))
        | inr e ↦ rw e (
            trans
              (reorder_middle (call_key j tc) (keys_of j t ((partition_calls j t calls).0))
                (keys_of j t ((partition_calls j t calls).1)))
              (cons refl (partition_calls-reorder calls)))
      ]

  -- Where the runtime starts and no task of a read-only tool panics, the records are one for each
  -- call: the ids, the names and the arguments of the records are those of the calls, in an order
  -- of their own.
  pub execute_all-keys :
      (libraries : List ContentLibrary) (calls : List J) (x : Executor j t)
      → new_runtime (x.world) ≡ true
      → ((keys : List (Text × Text × Text)) (w : W)
          → Reordering (map record_key ((join_all keys w).0)) keys)
      → Reordering (map record_key ((execute_all j t libraries calls x).0.0)) (keys_of j t calls)
  unfolding execute_all execute_parallel
  execute_all-keys libraries calls x up joined =
      let safe_calls = (partition_calls j t calls).0 in
      let unsafe_calls = (partition_calls j t calls).1 in
      let (safe_results, w) = join_all (keys_of j t safe_calls) (x.world) in
      rw up (
        rw
          (
            map-append record_key safe_results ((execute_sequential j t unsafe_calls w).0),
            execute_sequential-keys unsafe_calls w,
          )
          (trans
            (reorder-append_right (keys_of j t unsafe_calls)
              (joined (keys_of j t safe_calls) (x.world)))
            (partition_calls-reorder calls)))
