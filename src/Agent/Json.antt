-- ===== src/Agent/Json.antt =====
-- The interface of serde_json that src/agent/agent_impl.rs and tool_executor.rs use.
use personal_productivity_ai.Common.{ℕ, ◌≡◌, Option, none, some, List}
use personal_productivity_ai.Common.Text.{Text}
use personal_productivity_ai.Common.Dict.{Dict, lookup}

-- A value `J`; `get` and `at` take a field of an object and an item of an array, `remove_in outer key`
-- is the value without `key` in its object `outer`, where it has one. An object that was built gives
-- back its fields, a string its text and an array its items.
pub record Json : Type 1 where
  pub J : Type 0
  pub get : Text → J → Option J
  pub at : ℕ → J → Option J
  pub as_str : J → Option Text
  pub as_array : J → Option (List J)
  pub as_u64 : J → Option ℕ
  pub remove_in : Text → Text → J → J
  pub from_str : Text → Option J
  pub to_string : J → Option Text
  pub string : Text → J
  pub number : ℕ → J
  pub array : List J → J
  pub object : Dict J → J
  pub get-object : (key : Text) (fields : Dict J) → get key (object fields) ≡ lookup key fields
  pub as_str-string : (s : Text) → as_str (string s) ≡ some s
  pub as_array-array : (items : List J) → as_array (array items) ≡ some items

abbrev pub bind_option {ℓ κ} : {A : Type ℓ} {B : Type κ} → Option A → (A → Option B) → Option B
bind_option none f = none
bind_option (some a) f = f a

abbrev pub unwrap_or {ℓ} : {A : Type ℓ} → A → Option A → A
unwrap_or default none = default
unwrap_or default (some a) = a

module _ (j : Json) where
  open j use {J, get, as_str, from_str, string}

  -- `value.get(key).and_then(as_str)`
  abbrev pub get_str : Text → J → Option Text
  get_str key value = bind_option (get key value) as_str

  -- The text as JSON, or as a string where it is none.
  abbrev pub json_or_string : Text → J
  json_or_string s = unwrap_or (string s) (from_str s)
