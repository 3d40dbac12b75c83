-- ===== src/Proxy/Payload/Api.antt =====
-- The scrubbing outside of the gateway against the gateway's.
use ctxward.Prelude.{
  ℕ, suc, ◌≡◌, sym, ap, ◌∙◌, Bool, false, Option, none, some, List, [], ◌∷◌, ◌++◌, append_nil, Text,
  bytes,
}
use ctxward.Prelude.Decimal.{decimal}
use ctxward.Core.Types.{request}
use ctxward.Core.Detect.Findings.{DetectionFinding}
use ctxward.Core.Detect.Scan.{scan_text, should_ignore_pointer}
use ctxward.Core.Policy.{ResolvedFinding, PolicyOutcome, resolve}
use ctxward.Core.Redact.{Redacted, TokenizerAt, redact_text, chosen, replace_all}
use ctxward.Core.Redact
use ctxward.Core.RedactApi.{
  local_principal, unwrap_or, redact_found, redact_string, redact_value, redact_items,
  redact_fields,
}
use ctxward.Core.RedactApi.Moved.{
  with_pointer, map_found, scan_text-moved, redact_text-moved, resolve-moved,
}
use ctxward.App.Engines.{Engines}
use ctxward.App.Errors.{Outcome, ok, err, panicked, ◌>>=◌, bind-ok, of_redacted, of_scan}
use ctxward.Json.{
  Value, null, boolean, number, string, array, object, Items, nil, cons, Fields, end, field,
  escape_key, at_token,
}
use ctxward.Json.Pointers.{PointerLaws, HasUniqueKeys}
use ctxward.Proxy.Payload.{TextProcessResult, JsonProcessResult, process_text, sanitize_json_value}
use ctxward.Proxy.Payload.Rewrite.{
  rewrite, rewrite_items, rewrite_fields, json_result, sanitize_json_value-rewrite,
}

-- Engines without the analyzer and without a tokenizer.
pub record IsLocal (e : Engines) : Type 0 where
  pub no_presidio : e.presidio ≡ none
  pub no_tokenizer : (pointer : Text) → e.tokenizer pointer ≡ none
  pub ignores_none : (pointer : Text) → should_ignore_pointer e.detector pointer ≡ false

abbrev local_text : Engines → Text → Option (List DetectionFinding) → Outcome Text
local_text e s found = of_scan found >>= λ fs.
    of_redacted (redact_text e.sha256_hex s (resolve local_principal fs request).findings none)

with_policy-ok :
    (m : Outcome Text) (policy : PolicyOutcome) (r : TextProcessResult)
    → (m >>= λ t. ok (record { redacted_text = t; policy = policy })) ≡ ok r
    → m ≡ ok r.redacted_text
with_policy-ok (ok t) policy r h =
    ap (λ (o : Outcome TextProcessResult). o >>= λ x. ok x.redacted_text) h
with_policy-ok (err e) policy r h = cc
with_policy-ok panicked policy r h = cc

local_of_found :
    (e : Engines) (s : Text) (found : Option (List DetectionFinding)) (r : TextProcessResult)
    → (of_scan found >>= λ fs.
        of_redacted
          (redact_text e.sha256_hex s (resolve local_principal (fs ++ []) request).findings none)
        >>= λ t.
            ok (record { redacted_text = t; policy = resolve local_principal (fs ++ []) request }))
      ≡ ok r
    → local_text e s found ≡ ok r.redacted_text
local_of_found e s none r h = cc
local_of_found e s (some fs) r h =
    ap
      (λ gs.
        of_redacted (redact_text e.sha256_hex s (resolve local_principal gs request).findings none))
      (sym (append_nil fs))
    ∙ with_policy-ok
        (of_redacted
          (redact_text e.sha256_hex s (resolve local_principal (fs ++ []) request).findings none))
        (resolve local_principal (fs ++ []) request) r h

unwrap_or-ok : (s t : Text) (m : Redacted Text) → of_redacted m ≡ ok t → unwrap_or s m ≡ some t
unwrap_or-ok s t (Redact.ok x) h = cc
unwrap_or-ok s t (Redact.err e) h = cc
unwrap_or-ok s t Redact.panicked h = cc

-- What `process_text` gives for the text, of the findings at its pointer.
local_result :
    (e : Engines) (l : IsLocal e) (s pointer : Text) (r : TextProcessResult)
    → process_text e local_principal s pointer request ≡ ok r
    → local_text e s (scan_text e.sha256_hex e.sum_at_least e.detector s pointer)
      ≡ ok r.redacted_text
unfolding process_text
local_result e l s pointer r h =
    local_of_found e s (scan_text e.sha256_hex e.sum_at_least e.detector s pointer) r
      (rw (process_text, l.no_presidio, l.no_tokenizer pointer) at h)

found-moved :
    (e : Engines) (s q t : Text) (found : Option (List DetectionFinding))
    → local_text e s found ≡ ok t
    → redact_found e.sha256_hex e.sum_at_least s (map_found (with_pointer q) found) ≡ some t
unfolding redact_found
found-moved e s q t none h = cc
found-moved e s q t (some []) h = cc
found-moved e s q t (some (f ∷ fs)) h =
    ap (unwrap_or s) (
      ap (λ fs. redact_text e.sha256_hex s fs none)
        (resolve-moved local_principal request q (f ∷ fs))
      ∙ redact_text-moved e.sha256_hex none q s (resolve local_principal (f ∷ fs) request).findings)
    ∙ unwrap_or-ok s t
        (redact_text e.sha256_hex s (resolve local_principal (f ∷ fs) request).findings none) h

-- A text that the gateway can process is scrubbed to the same text.
process_text-redact_string :
    (e : Engines) (l : IsLocal e) (s pointer : Text) (r : TextProcessResult)
    → process_text e local_principal s pointer request ≡ ok r
    → redact_string e.sha256_hex e.sum_at_least e.detector s ≡ some r.redacted_text
unfolding redact_string
process_text-redact_string e l s pointer r h =
    ap (redact_found e.sha256_hex e.sum_at_least s)
      (scan_text-moved e.sha256_hex e.sum_at_least pointer (bytes "/") e.detector s)
    ∙ found-moved e s (bytes "/") r.redacted_text
        (scan_text e.sha256_hex e.sum_at_least e.detector s pointer)
        (local_result e l s pointer r h)

abbrev rewritten_string : TextProcessResult → Outcome (Value × List ResolvedFinding)
rewritten_string r = ok (string r.redacted_text, r.policy.findings)

first-ok {ℓ κ} :
    {A : Type ℓ} {B : Type κ} (a c : A) (b d : B)
    → ◌≡◌ {A = Outcome (A × B)} (ok (a, b)) (ok (c, d))
    → a ≡ c
first-ok a c b d h = cc

result-ok :
    (a b : JsonProcessResult)
    → ◌≡◌ {A = Outcome JsonProcessResult} (ok a) (ok b)
    → a.redacted_value ≡ b.redacted_value
result-ok a b h = cc

module _ (e : Engines) (l : IsLocal e) where
  abbrev process : Text → Text → Outcome TextProcessResult
  process text pointer = process_text e local_principal text pointer request

  abbrev ignored : Text → Bool
  ignored = should_ignore_pointer e.detector

  string_of :
      (s pointer : Text) (w : Value) (fs : List ResolvedFinding)
      → (process s pointer >>= λ r. rewritten_string r) ≡ ok (w, fs)
      → redact_value e.sha256_hex e.sum_at_least e.detector (string s) ≡ some w
  unfolding redact_value
  string_of s pointer w fs h =
      let r = bind-ok (process s pointer) rewritten_string (w, fs) h in
      rw (redact_value, process_text-redact_string e l s pointer r.0 r.1)
        (ap some (first-ok (string r.0.redacted_text) w r.0.policy.findings fs r.2))

  mutual
    unfolding rewrite redact_value

    same_value :
        (pointer : Text) (v w : Value) (fs : List ResolvedFinding)
        → rewrite ignored process pointer v ≡ ok (w, fs)
        → redact_value e.sha256_hex e.sum_at_least e.detector v ≡ some w
    same_value pointer null w fs h = cc
    same_value pointer (boolean b) w fs h = cc
    same_value pointer (number n) w fs h = cc
    same_value pointer (string s) w fs h =
        string_of s pointer w fs (rw (rewrite, l.ignores_none pointer) at h)
    same_value pointer (array items) w fs h =
        let r =
          bind-ok (rewrite_items ignored process pointer 0 items) (λ r. ok (array r.0, r.1)) (w, fs)
            h in
        rw (redact_value, same_items pointer 0 items r.0.0 r.0.1 r.1)
          (ap some (first-ok (array r.0.0) w r.0.1 fs r.2))
    same_value pointer (object fields) w fs h =
        let r =
          bind-ok (rewrite_fields ignored process pointer fields) (λ r. ok (object r.0, r.1))
            (w, fs) h in
        rw (redact_value, same_fields pointer fields r.0.0 r.0.1 r.1)
          (ap some (first-ok (object r.0.0) w r.0.1 fs r.2))

    same_items :
        (pointer : Text) (index : ℕ) (v w : Items) (fs : List ResolvedFinding)
        → rewrite_items ignored process pointer index v ≡ ok (w, fs)
        → redact_items e.sha256_hex e.sum_at_least e.detector v ≡ some w
    same_items pointer index nil w fs h = cc
    same_items pointer index (cons v items) w fs h =
        let r =
          bind-ok (rewrite ignored process (at_token pointer (decimal index)) v)
            (λ r. rewrite_items ignored process pointer (suc index) items >>= λ s.
              ok (cons r.0 s.0, r.1 ++ s.1))
            (w, fs) h in
        let s =
          bind-ok (rewrite_items ignored process pointer (suc index) items)
            (λ s. ok (cons r.0.0 s.0, r.0.1 ++ s.1)) (w, fs) r.2 in
        rw
          (
            redact_value,
            same_value (at_token pointer (decimal index)) v r.0.0 r.0.1 r.1,
            same_items pointer (suc index) items s.0.0 s.0.1 s.1,
          )
          (ap some (first-ok (cons r.0.0 s.0.0) w (r.0.1 ++ s.0.1) fs s.2))

    same_fields :
        (pointer : Text) (v w : Fields) (fs : List ResolvedFinding)
        → rewrite_fields ignored process pointer v ≡ ok (w, fs)
        → redact_fields e.sha256_hex e.sum_at_least e.detector v ≡ some w
    same_fields pointer end w fs h = cc
    same_fields pointer (field k v fields) w fs h =
        let r =
          bind-ok (rewrite ignored process (at_token pointer (escape_key k)) v)
            (λ r. rewrite_fields ignored process pointer fields >>= λ s.
              ok (field k r.0 s.0, r.1 ++ s.1))
            (w, fs) h in
        let s =
          bind-ok (rewrite_fields ignored process pointer fields)
            (λ s. ok (field k r.0.0 s.0, r.0.1 ++ s.1)) (w, fs) r.2 in
        rw
          (
            redact_value,
            same_value (at_token pointer (escape_key k)) v r.0.0 r.0.1 r.1,
            same_fields pointer fields s.0.0 s.0.1 s.1,
          )
          (ap some (first-ok (field k r.0.0 s.0.0) w (r.0.1 ++ s.0.1) fs s.2))

-- Without the analyzer, a tokenizer and ignored pointers, and with pointers that address slots as
-- they are documented to: a JSON value whose maps have unique keys, and that the gateway sanitizes
-- for the local principal, is scrubbed to the very same value by the API outside of the gateway.
pub sanitize_json_value-redact_value :
    (assign : Text → Text → Value → Option Value) (e : Engines) (v : Value) (r : JsonProcessResult)
    → PointerLaws assign
    → HasUniqueKeys v
    → IsLocal e
    → sanitize_json_value assign e local_principal v request ≡ ok r
    → redact_value e.sha256_hex e.sum_at_least e.detector v ≡ some r.redacted_value
sanitize_json_value-redact_value assign e v r laws unique l h =
    let s =
      bind-ok (rewrite (ignored e l) (process e l) [] v) (λ s. ok (json_result s)) r
        (sym (sanitize_json_value-rewrite assign e local_principal v request laws unique) ∙ h) in
    same_value e l [] v s.0.0 s.0.1 s.1 ∙ ap some (result-ok (json_result s.0) r s.2)
