-- ===== src/Mitm/Usage.antt =====
-- src/mitm/usage.rs: the model and the token usage that a body names.
use ctxward.Prelude.{ℕ, ◌&&◌, Option, none, some, Text, bytes, text_eq, eqb, if◌then◌else◌}
use ctxward.Json.{unsigned, Value, number, string, object, Fields, end, field}

pub record Usage : Type 0 where
  pub model : Option Text
  pub prompt_tokens : ℕ
  pub completion_tokens : ℕ

-- `Value::get` of a key, `Value::as_str` and `Value::as_u64`
pub get_field : Text → Fields → Option Value
get_field key end = none
get_field key (field k v fields) =
    let rest = get_field key fields in if text_eq k key then some v else rest

abbrev pub get_key : Text → Value → Option Value
get_key key (object fields) = get_field key fields
get_key key other = none

abbrev pub as_str : Value → Option Text
as_str (string text) = some text
as_str other = none

abbrev pub as_u64 : Value → Option ℕ
as_u64 (number (unsigned n)) = some n
as_u64 other = none

abbrev pub and_then {ℓ κ} : {A : Type ℓ} {B : Type κ} → Option A → (A → Option B) → Option B
and_then none f = none
and_then (some a) f = f a

abbrev pub or_else {ℓ} : {A : Type ℓ} → Option A → Option A → Option A
or_else none o = o
or_else (some a) o = some a

abbrev pub unwrap_or_zero : Option ℕ → ℕ
unwrap_or_zero none = 0
unwrap_or_zero (some n) = n

-- The count under one of two keys.
pub tokens_of : Text → Text → Value → ℕ
unfolding get_field
tokens_of key other usage =
    unwrap_or_zero (and_then (or_else (get_key key usage) (get_key other usage)) as_u64)

-- The counts, unless both are zero.
pub counted : Option Text → ℕ → ℕ → Option Usage
counted model prompt completion =
    if eqb prompt 0 && eqb completion 0
    then none
    else some (record { model = model; prompt_tokens = prompt; completion_tokens = completion })

-- `serde_json::from_slice`
module _ (parse_json : Text → Option Value) where
  unfoldable pub model_from_request : Text → Option Text
  unfolding get_field
  model_from_request body =
      and_then (parse_json body) (λ v. and_then (get_key (bytes "model") v) as_str)

  unfoldable pub usage_from_response : Text → Option Usage
  unfolding get_field tokens_of counted
  usage_from_response body = and_then (parse_json body) (λ v.
      and_then (get_key (bytes "usage") v) (λ usage.
        counted (and_then (get_key (bytes "model") v) as_str)
          (tokens_of (bytes "prompt_tokens") (bytes "input_tokens") usage)
          (tokens_of (bytes "completion_tokens") (bytes "output_tokens") usage)))
