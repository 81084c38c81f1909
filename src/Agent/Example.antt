-- ===== src/Agent/Example.antt =====
-- A small JSON and two tools, for the runs of the tests.
use personal_productivity_ai.Common.{
  ℕ, ◌+◌, ◌≡◌, refl, ap, true, Option, none, some, List, [], ◌∷◌, map, if◌then◌else◌, get_elem?,
}
use personal_productivity_ai.Common.Text.{Text, codes, text_eq}
use personal_productivity_ai.Common.Dict.{Dict, lookup}
use personal_productivity_ai.Common.Reorder.{Reordering, nil, cons}
use personal_productivity_ai.Agent.Json.{Json}
use personal_productivity_ai.Agent.Executor.{Tools, read_only, mutating, ToolCallRecord}

mutual
  pub data Value : Type 0 where
    null : Value
    num : ℕ → Value
    str : Text → Value
    arr : Items → Value
    obj : Fields → Value

  pub data Items : Type 0 where
    last : Items
    item : Value → Items → Items

  pub data Fields : Type 0 where
    end : Fields
    field : Text → Value → Fields → Fields

abbrev fields_of : Dict Value → Fields
fields_of [] = end
fields_of ((k, v) ∷ m) = field k v (fields_of m)

abbrev items_of : List Value → Items
items_of [] = last
items_of (v ∷ vs) = item v (items_of vs)

abbrev list_of : Items → List Value
list_of last = []
list_of (item v vs) = v ∷ list_of vs

abbrev pub field_of : Text → Fields → Option Value
field_of k end = none
field_of k (field j v fs) = if text_eq j k then some v else field_of k fs

abbrev pub get_field : Text → Value → Option Value
get_field k (obj fs) = field_of k fs
get_field k v = none

abbrev pub at_item : ℕ → Value → Option Value
at_item i (arr vs) = get_elem? (list_of vs) i
at_item i v = none

abbrev pub text_of : Value → Option Text
text_of (str s) = some s
text_of v = none

abbrev pub array_of : Value → Option (List Value)
array_of (arr vs) = some (list_of vs)
array_of v = none

abbrev pub number_of : Value → Option ℕ
number_of (num n) = some n
number_of v = none

pub field_of-fields_of : (k : Text) (m : Dict Value) → field_of k (fields_of m) ≡ lookup k m
unfolding lookup
field_of-fields_of k [] = refl
field_of-fields_of k ((j, v) ∷ m) =
    ap (λ o. if text_eq j k then some v else o) (field_of-fields_of k m)

pub array_of-items_of : (vs : List Value) → array_of (arr (items_of vs)) ≡ some vs
array_of-items_of vs = ap some (list_of-items_of vs)
  where
    list_of-items_of : (vs : List Value) → list_of (items_of vs) ≡ vs
    list_of-items_of [] = refl
    list_of-items_of (v ∷ vs) = ap (λ l. v ∷ l) (list_of-items_of vs)

-- Texts are not parsed.
abbrev pub small_json : Json
small_json = record {
  J = Value;
  get = get_field;
  at = at_item;
  as_str = text_of;
  as_array = array_of;
  as_u64 = number_of;
  remove_in = λ outer key v. v;
  from_str = λ s. none;
  to_string = λ v. none;
  string = str;
  number = num;
  array = λ vs. arr (items_of vs);
  object = λ m. obj (fields_of m);
  get-object = field_of-fields_of;
  as_str-string = λ s. refl;
  as_array-array = array_of-items_of;
}

abbrev pub joined : List (Text × Text × Text) → List ToolCallRecord
joined [] = []
joined ((i, n, a) ∷ keys) =
    record { call_id = i; name = n; arguments = a; result = codes "seen" } ∷ joined keys

pub joined-reorder :
    (keys : List (Text × Text × Text))
    → Reordering (map (λ r. (r.call_id, r.name, r.arguments)) (joined keys)) keys
joined-reorder [] = nil
joined-reorder ((i, n, a) ∷ keys) = cons refl (joined-reorder keys)

-- A world that counts what the tool `write` did; `read` is read-only.
abbrev pub two_tools : Tools
two_tools = record {
  W = ℕ;
  safety_of = λ name. if text_eq name (codes "read") then read_only else mutating;
  tool_group = λ name. some name;
  new_runtime = λ w. true;
  execute_tool = λ name arguments w. (codes "done", w + 1);
  join_all = λ keys w. (joined keys, w);
  split_library_prefix = λ path. none;
  tags_of = λ path w. [];
}

-- A call of a tool, and a response that asks for calls.
abbrev pub call : Text → Text → Value
call id name = obj (
    field (codes "id") (str id) (
      field (codes "function")
        (obj (field (codes "name") (str name) (field (codes "arguments") (str []) end))) end))

abbrev pub response : List Value → Value
response calls = obj (
    field (codes "choices")
      (arr (
        item
          (obj (
            field (codes "message") (obj (field (codes "tool_calls") (arr (items_of calls)) end))
              end))
          last))
      end)

abbrev pub answer : Text → Value
answer content = obj (
    field (codes "choices")
      (arr (
        item (obj (field (codes "message") (obj (field (codes "content") (str content) end)) end))
          last))
      end)
