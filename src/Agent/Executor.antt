-- ===== src/Agent/Executor.antt =====
-- The execution of a turn's tool calls: src/agent/tool_executor.rs
-- The tools, the registry's tables and the runtime are parameters (`Tools`). Read-only tools run in
-- parallel, each as a task of a set that is joined in the order in which the tasks end.
pub mod Complete
use personal_productivity_ai.Common.{
  ℕ, Bool, true, false, Option, none, some, List, [], ◌∷◌, ◌++◌, if◌then◌else◌,
}
use personal_productivity_ai.Common.Text.{Text, codes, text_eq}
use personal_productivity_ai.Common.Dict.{Dict, insert, remove}
use personal_productivity_ai.VirtualPath.{ContentLibrary, join}
use personal_productivity_ai.Agent.Json.{Json, bind_option, unwrap_or, get_str}

pub data Safety : Type 0 where
  read_only mutating : Safety

pub record ToolCallRecord : Type 0 where
  pub call_id : Text
  pub name : Text
  pub arguments : Text
  pub result : Text

pub data ToolSideEffect : Type 0 where
  file_created : Text → List Text → ToolSideEffect
  file_changed : Text → ToolSideEffect

-- What the executor calls. `W` is the state of the world that tools read and change; `join_all` is
-- what a set of tasks yields, one for each of the calls given, in the order in which they end, less
-- those that panicked. `split_library_prefix` and `tags_of` are the crate's path and tag utilities.
pub record Tools : Type 1 where
  pub W : Type 0
  pub safety_of : Text → Safety
  pub tool_group : Text → Option Text
  pub new_runtime : W → Bool
  pub execute_tool : Text → Text → W → Text × W
  pub join_all : List (Text × Text × Text) → W → List ToolCallRecord × W
  pub split_library_prefix : Text → Option (Text × Text)
  pub tags_of : Text → W → List Text

module _ (j : Json) where
  open j use {J, get, as_str, from_str}

  -- `extract_str(val, path)`
  unfoldable pub extract_str : J → List Text → Text
  extract_str val [] = unwrap_or [] (as_str val)
  extract_str val (key ∷ path) = elim (get key val) [ none ↦ [] | some v ↦ extract_str v path ]

  -- The id, the name and the arguments of a call.
  unfoldable pub call_key : J → Text × Text × Text
  unfolding extract_str
  call_key tc = (
    extract_str tc (codes "id" ∷ []),
    extract_str tc (codes "function" ∷ codes "name" ∷ []),
    extract_str tc (codes "function" ∷ codes "arguments" ∷ []),
  )

  abbrev pub function_name : J → Text
  function_name tc =
      unwrap_or [] (bind_option (get (codes "function") tc) (get_str j (codes "name")))

  -- `v.get("status") == "success"` of a result.
  unfoldable pub is_success : Text → Bool
  unfolding text_eq
  is_success result = elim (bind_option (from_str result) (get_str j (codes "status"))) [
    | none ↦ false
    | some status ↦ text_eq status (codes "success")
  ]

  abbrev pub error_message : Text → Text
  error_message result =
      unwrap_or (codes "Tool execution failed.")
        (bind_option (from_str result) (get_str j (codes "message")))

  module _ (t : Tools) where
    open t use {
      W, safety_of, tool_group, new_runtime, execute_tool, join_all, split_library_prefix, tags_of,
    }

    abbrev pub is_read_only : Safety → Bool
    is_read_only read_only = true
    is_read_only mutating = false

    unfoldable pub classify : Text → Safety
    classify name = safety_of name

    -- The calls of read-only tools, and the others.
    unfoldable pub partition_calls : List J → List J × List J
    unfolding classify
    partition_calls [] = ([], [])
    partition_calls (tc ∷ calls) =
        let (safe_calls, unsafe_calls) = partition_calls calls in
        if is_read_only (classify (function_name tc))
        then (tc ∷ safe_calls, unsafe_calls)
        else (safe_calls, tc ∷ unsafe_calls)

    unfoldable pub keys_of : List J → List (Text × Text × Text)
    unfolding call_key
    keys_of [] = []
    keys_of (tc ∷ calls) = call_key tc ∷ keys_of calls

    unfoldable pub execute_parallel : List J → W → List ToolCallRecord × W
    unfolding keys_of
    execute_parallel calls w = if new_runtime w then join_all (keys_of calls) w else ([], w)

    unfoldable pub execute_sequential : List J → W → List ToolCallRecord × W
    unfolding call_key
    execute_sequential [] w = ([], w)
    execute_sequential (tc ∷ calls) w =
        let (call_id, name, arguments) = call_key tc in
        let (result, w') = execute_tool name arguments w in
        let (records, w'') = execute_sequential calls w' in
        (
          record { call_id = call_id; name = name; arguments = arguments; result = result }
              ∷ records,
          w'',
        )

    abbrev pub record_error : Option Text → Text → Dict Text → Dict Text
    record_error none result errors = errors
    record_error (some group) result errors =
        if is_success result
        then remove group errors
        else insert group (error_message result) errors

    -- The last error of each group of tools.
    unfoldable pub record_tool_errors : List ToolCallRecord → Dict Text → Dict Text
    unfolding is_success insert remove
    record_tool_errors [] errors = errors
    record_tool_errors (r ∷ results) errors =
        record_tool_errors results (record_error (tool_group (r.name)) (r.result) errors)

    abbrev pub created_in : List ContentLibrary → W → Option (Text × Text) → List ToolSideEffect
    unfolding text_eq join
    created_in libraries w none = []
    created_in [] w (some (lib_name, rest)) = []
    created_in (lib ∷ libraries) w (some (lib_name, rest)) =
        let more = created_in libraries w (some (lib_name, rest)) in
        if text_eq (lib.name) lib_name
        then file_created (join (lib.root_folder) rest) (tags_of (join (lib.root_folder) rest) w)
          ∷ []
        else more

    -- The file that a record created, if it is a successful `create_note`.
    unfoldable pub side_effect : List ContentLibrary → W → ToolCallRecord → List ToolSideEffect
    unfolding text_eq is_success created_in
    side_effect libraries w r =
        if text_eq (r.name) (codes "create_note")
        then (if is_success (r.result)
            then created_in libraries w (
                bind_option (bind_option (from_str (r.arguments)) (get_str j (codes "path")))
                  split_library_prefix)
            else [])
        else []

    unfoldable pub extract_side_effects :
        List ContentLibrary → W → List ToolCallRecord → List ToolSideEffect
    unfolding side_effect
    extract_side_effects libraries w [] = []
    extract_side_effects libraries w (r ∷ results) =
        side_effect libraries w r ++ extract_side_effects libraries w results

    -- The world, and the errors of the tool groups.
    pub record Executor : Type 0 where
      pub world : W
      pub errors : Dict Text

    unfoldable pub execute_all :
        List ContentLibrary
        → List J
        → Executor
        → (List ToolCallRecord × List ToolSideEffect) × Executor
    unfolding partition_calls execute_parallel execute_sequential record_tool_errors
        extract_side_effects
    execute_all libraries tool_calls x =
        let (safe_calls, unsafe_calls) = partition_calls tool_calls in
        let (safe_results, w) = execute_parallel safe_calls (x.world) in
        let (unsafe_results, w') = execute_sequential unsafe_calls w in
        let results = safe_results ++ unsafe_results in
        (
          (results, extract_side_effects libraries w' results),
          record { world = w'; errors = record_tool_errors results (x.errors) },
        )
