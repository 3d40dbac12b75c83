-- ===== src/Proxy/Sse.antt =====
-- src/proxy.rs: the filtering of a server-sent event stream, line by line. What is made of one
-- payload (`sanitize_json_value` or `process_text`) is an argument.
pub mod Lines
pub mod Chunks
use ctxward.Prelude.{
  ℕ, zero, suc, Bool, true, false, not, ◌||◌, Option, none, some, List, [], ◌∷◌, ◌++◌, Text, bytes,
  text_eq, eqb, take, drop, length, if◌then◌else◌,
}
use ctxward.Prelude.Ascii.{starts_with, trim}
use ctxward.Core.Auth.{Principal}
use ctxward.Core.Types.{DecisionAction, allow}
use ctxward.Core.Policy.{PolicyOutcome}
use ctxward.Proxy.Outcome.{OpaAuthorizer, merge_policy_outcomes}
use ctxward.Proxy.Response.{
  redacted_json, should_force_full_response_redaction, finalize_response_policy,
}

pub record SseTransformResult : Type 0 where
  pub line : Text
  pub policy : PolicyOutcome

-- What was made of a payload, and whether it is JSON.
pub record RenderedPayload : Type 0 where
  pub is_json : Bool
  pub rendered : Text
  pub policy : PolicyOutcome

abbrev pub builtin_allow : PolicyOutcome
builtin_allow = record { decision = allow; findings = []; source = bytes "builtin"; reason = none }

-- `str::trim_start_matches`: the prefix is removed as often as it is there; `fuel` is the length
-- of the text, and a removal makes it shorter.
pub trim_start_matches : ℕ → Text → Text → Text
unfolding starts_with
trim_start_matches zero p s = s
trim_start_matches (suc fuel) p s =
    let rest = trim_start_matches fuel p (drop (length p) s) in if starts_with p s then rest else s

-- The payload of a line, if it has one to look at.
unfoldable pub payload_of : Text → Option Text
unfolding trim_start_matches
payload_of line =
    let payload = trim (trim_start_matches (length line) (bytes "data:") line) in
    if not (starts_with (bytes "data:") line)
    then none
    else if text_eq payload [] || text_eq payload (bytes "[DONE]")
    then none
    else some payload

unfoldable pub generic_redacted_sse_payload : Bool → Text
generic_redacted_sse_payload true = redacted_json
generic_redacted_sse_payload false = bytes "[REDACTED]"

-- `transform_sse_line`
unfoldable pub transform_sse_line :
    (Text → RenderedPayload)
    → Option OpaAuthorizer
    → Principal
    → Text
    → Bool
    → Text
    → SseTransformResult
unfolding payload_of generic_redacted_sse_payload should_force_full_response_redaction
    finalize_response_policy
transform_sse_line render opa principal path session_escalated line = elim (payload_of line) [
  | none ↦ record { line = line; policy = builtin_allow }
  | some payload ↦
      let p = render payload in
      let final = finalize_response_policy opa principal path session_escalated p.policy in
      let final_payload =
        if should_force_full_response_redaction p.policy.decision final.decision
        then generic_redacted_sse_payload p.is_json
        else p.rendered in
      record { line = bytes "data: " ++ (final_payload ++ 10 ∷ []); policy = final }
]

-- `buffer.iter().position(|byte| *byte == b'\n')`
pub newline_at : Text → Option ℕ
newline_at [] = none
newline_at (b ∷ s) =
    if eqb b 10 then some 0 else elim (newline_at s) [ none ↦ none | some i ↦ some (suc i) ]

-- `while let Some(position) = ...`: the lines that are drained, and the buffer that is left. Each
-- line shortens the buffer, so its length is enough fuel.
unfoldable pub drain_lines : ℕ → Text → List Text × Text
unfolding newline_at
drain_lines zero buffer = ([], buffer)
drain_lines (suc fuel) buffer = elim (newline_at buffer) [
  | none ↦ ([], buffer)
  | some position ↦
      let rest = drain_lines fuel (drop (suc position) buffer) in
      (take (suc position) buffer ∷ rest.0, rest.1)
]

module _ (transform : Text → SseTransformResult) where
  -- What is sent for the lines, and the outcomes merged so far.
  pub send_lines : PolicyOutcome → List Text → List Text × PolicyOutcome
  unfolding merge_policy_outcomes
  send_lines policy [] = ([], policy)
  send_lines policy (l ∷ ls) =
      let rest = send_lines (merge_policy_outcomes policy (transform l).policy) ls in
      ((transform l).line ∷ rest.0, rest.1)

  -- The rest of the buffer, if any, after the last chunk.
  pub send_rest : PolicyOutcome → Text → List Text × PolicyOutcome
  unfolding send_lines
  send_rest policy [] = ([], policy)
  send_rest policy (b ∷ buffer) = send_lines policy ((b ∷ buffer) ∷ [])

  -- The stream over its chunks; a chunk that cannot be read ends it.
  pub sse_stream : PolicyOutcome → Text → List (Option Text) → List Text × PolicyOutcome
  unfolding drain_lines send_lines send_rest
  sse_stream policy buffer [] = send_rest policy buffer
  sse_stream policy buffer (none ∷ chunks) = send_rest policy buffer
  sse_stream policy buffer (some chunk ∷ chunks) =
      let drained = drain_lines (length (buffer ++ chunk)) (buffer ++ chunk) in
      let sent = send_lines policy drained.0 in
      let rest = sse_stream sent.1 drained.1 chunks in (sent.0 ++ rest.0, rest.1)
