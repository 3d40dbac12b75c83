-- ===== src/Core/RedactApi.antt =====
-- crates/ctxward-core/src/redact_api.rs: the scrubbing of a body outside of the gateway. A panic is
-- none.
pub mod Moved
use ctxward.Prelude.{ℕ, Bool, Option, none, some, List, [], ◌∷◌, Text, bytes}
use ctxward.Core.Auth.{Principal}
use ctxward.Core.Types.{public, request}
use ctxward.Core.Detect.Findings.{DetectionFinding}
use ctxward.Core.Detect.Scan.{
  Detector, DetectionConfig, DetectorResult, ok, invalid_regex, scan_text,
}
use ctxward.Core.Policy.{resolve}
use ctxward.Core.Redact.{Redacted, redact_text}
use ctxward.Core.Redact
use ctxward.Json.{
  Value, null, boolean, number, string, array, object, Items, nil, cons, Fields, end, field,
}

abbrev pub local_principal : Principal
local_principal = record {
  name = bytes "extension";
  tenant_id = bytes "local";
  role = bytes "local";
  clearance = public;
  allowed_labels = [];
}

-- The text, where the masks fail.
abbrev pub unwrap_or : Text → Redacted Text → Option Text
unwrap_or s (Redact.ok t) = some t
unwrap_or s (Redact.err e) = some s
unwrap_or s Redact.panicked = none

abbrev pub wrapped {ℓ} : {A : Type ℓ} → (A → Value) → Option A → Option Value
wrapped f none = none
wrapped f (some a) = some (f a)

abbrev pub joined {ℓ} : {A : Type ℓ} → (Value → A → A) → Option Value → Option A → Option A
joined f none rest = none
joined f (some v) none = none
joined f (some v) (some rest) = some (f v rest)

module _ (sha256_hex : Text → Text) (sum_at_least : ℕ → List ℕ → ℕ → Bool) where
  -- What is made of the findings in a text; without any the text stays.
  unfoldable pub redact_found : Text → Option (List DetectionFinding) → Option Text
  unfolding redact_text resolve
  redact_found s none = none
  redact_found s (some []) = some s
  redact_found s (some (f ∷ fs)) =
      unwrap_or s
        (redact_text sha256_hex s (resolve local_principal (f ∷ fs) request).findings none)

  unfoldable pub redact_string : Detector → Text → Option Text
  unfolding redact_found scan_text
  redact_string d s = redact_found s (scan_text sha256_hex sum_at_least d s (bytes "/"))

  unfoldable mutual
    unfolding redact_string

    pub redact_value : Detector → Value → Option Value
    redact_value d null = some null
    redact_value d (boolean b) = some (boolean b)
    redact_value d (number n) = some (number n)
    redact_value d (string s) = wrapped string (redact_string d s)
    redact_value d (array items) = wrapped array (redact_items d items)
    redact_value d (object fields) = wrapped object (redact_fields d fields)

    pub redact_items : Detector → Items → Option Items
    redact_items d nil = some nil
    redact_items d (cons item items) = joined cons (redact_value d item) (redact_items d items)

    pub redact_fields : Detector → Fields → Option Fields
    redact_fields d end = some end
    redact_fields d (field key item fields) =
        joined (field key) (redact_value d item) (redact_fields d fields)

-- `serde_json`, and the compilation of a detector.
pub record ApiCrates : Type 0 where
  pub parse_config : Text → Option DetectionConfig
  pub new_detector : DetectionConfig → DetectorResult Detector
  pub parse_value : Text → Option Value
  pub print_value : Value → Option Text

abbrev pub or_body : Text → Option Text → Text
or_body body none = body
or_body body (some t) = t

module _ (crates : ApiCrates) (sha256_hex : Text → Text)
    (sum_at_least : ℕ → List ℕ → ℕ → Bool) where
  -- The body, as JSON or as a plain text.
  pub redact_body : Detector → Text → Option Text
  unfolding redact_value redact_text resolve scan_text
  redact_body d body = elim (crates.parse_value body) [
    | some value ↦ elim (redact_value sha256_hex sum_at_least d value) [
      | none ↦ none
      | some v ↦ some (or_body body (crates.print_value v))
    ]
    | none ↦ elim (scan_text sha256_hex sum_at_least d body (bytes "/")) [
      | none ↦ none
      | some fs ↦
          unwrap_or body
            (redact_text sha256_hex body (resolve local_principal fs request).findings none)
    ]
  ]

  unfoldable pub redact_json : Text → Text → Option Text
  unfolding redact_body
  redact_json detection_config_json body = elim (crates.parse_config detection_config_json) [
    | none ↦ some body
    | some config ↦ elim (crates.new_detector config) [
      | invalid_regex name ↦ some body
      | ok d ↦ redact_body d body
    ]
  ]
