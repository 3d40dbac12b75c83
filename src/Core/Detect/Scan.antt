-- ===== src/Core/Detect/Scan.antt =====
-- crates/ctxward-core/src/detect.rs: the detector, built from a configuration, and its scan.
pub mod Prefilter
use ctxward.Prelude.{
  ℕ, zero, suc, Bool, true, false, ltb, Option, none, some, List, [], ◌∷◌, ◌++◌, map, Text, bytes,
  contains, eq_text, if◌then◌else◌,
}
use ctxward.Core.Types.{Clearance, DecisionAction, MaskingStrategy, Severity}
use ctxward.Core.Detect.Findings.{RuleMetadata, DetectionFinding, new_finding}
use ctxward.Core.Detect.Entropy.{EntropyToken, high_entropy_tokens}

-- `DetectionRuleConfig` and `HighEntropyRuleConfig` of config.rs
pub record DetectionRuleConfig : Type 0 where
  pub name : Text
  pub label : Text
  pub pattern : Text
  pub severity : Severity
  pub authorized_action : DecisionAction
  pub unauthorized_action : DecisionAction
  pub min_clearance : Clearance
  pub masking : MaskingStrategy

-- `min_entropy` is the bit pattern of an `f64`.
pub record HighEntropyRuleConfig : Type 0 where
  pub enabled : Bool
  pub min_length : ℕ
  pub min_entropy : ℕ
  pub label : Text
  pub severity : Severity
  pub authorized_action : DecisionAction
  pub unauthorized_action : DecisionAction
  pub min_clearance : Clearance
  pub masking : MaskingStrategy

pub record DetectionConfig : Type 0 where
  pub ignore_json_pointers : List Text
  pub high_entropy : Option HighEntropyRuleConfig
  pub rules : List DetectionRuleConfig

-- A match of the `regex` crate: its byte offsets and its text.
pub record Match : Type 0 where
  pub start : ℕ
  pub end : ℕ
  pub text : Text

-- What the detector uses of a compiled `Regex`: the number of its capture groups with the whole
-- match counted, group 1 and group 0 of each capture, its matches, and whether there is one.
pub record Regex : Type 0 where
  pub captures_len : ℕ
  pub captures_iter : Text → List (Option Match × Option Match)
  pub find_iter : Text → List Match
  pub is_match : Text → Bool

pub record CompiledRule : Type 0 where
  pub regex : Regex
  pub metadata : RuleMetadata

pub record CompiledHighEntropyRule : Type 0 where
  pub min_length : ℕ
  pub min_entropy : ℕ
  pub metadata : RuleMetadata

-- `rule_set` is what `RegexSet::matches` gives for a text: indices of patterns.
pub record Detector : Type 0 where
  pub ignore_json_pointers : List Text
  pub rules : List CompiledRule
  pub rule_set : Option (Text → List ℕ)
  pub high_entropy : Option CompiledHighEntropyRule

-- `DetectorError::InvalidRegex`, with the rule's name
pub data DetectorResult {ℓ} (A : Type ℓ) : Type ℓ where
  ok : A → DetectorResult A
  invalid_regex : Text → DetectorResult A

unfoldable pub to_metadata : DetectionRuleConfig → RuleMetadata
to_metadata rule = record {
  rule_name = rule.name;
  label = rule.label;
  severity = rule.severity;
  authorized_action = rule.authorized_action;
  unauthorized_action = rule.unauthorized_action;
  min_clearance = rule.min_clearance;
  masking = rule.masking;
}

pub to_high_entropy_metadata : HighEntropyRuleConfig → RuleMetadata
to_high_entropy_metadata rule = record {
  rule_name = bytes "high_entropy";
  label = rule.label;
  severity = rule.severity;
  authorized_action = rule.authorized_action;
  unauthorized_action = rule.unauthorized_action;
  min_clearance = rule.min_clearance;
  masking = rule.masking;
}

unfoldable pub compile_high_entropy : Option HighEntropyRuleConfig → Option CompiledHighEntropyRule
unfolding to_high_entropy_metadata
compile_high_entropy none = none
compile_high_entropy (some rule) =
    if rule.enabled
    then some (record {
      min_length = rule.min_length;
      min_entropy = rule.min_entropy;
      metadata = to_high_entropy_metadata rule;
    })
    else none

-- `Regex::new` and `RegexSet::new`
module _ (compile : Text → Option Regex) where
  unfoldable pub compile_rules : List DetectionRuleConfig → DetectorResult (List CompiledRule)
  unfolding to_metadata
  compile_rules [] = ok []
  compile_rules (rule ∷ rules) =
      let rest = compile_rules rules in
      elim (compile rule.pattern) [
        | none ↦ invalid_regex rule.name
        | some regex ↦ elim rest [
          | invalid_regex name ↦ invalid_regex name
          | ok cs ↦ ok (record { regex = regex; metadata = to_metadata rule } ∷ cs)
        ]
      ]

module _ (compile_set : List Text → Option (Text → List ℕ)) where
  -- `(!config.rules.is_empty()).then(|| RegexSet::new(..)).transpose()`
  unfoldable pub compile_rule_set :
      List DetectionRuleConfig → DetectorResult (Option (Text → List ℕ))
  compile_rule_set [] = ok none
  compile_rule_set (rule ∷ rules) =
      elim (compile_set (map (λ (r : DetectionRuleConfig). r.pattern) (rule ∷ rules))) [
        | none ↦ invalid_regex (bytes "__regex_set__")
        | some matches ↦ ok (some matches)
      ]

module _ (compile : Text → Option Regex) (compile_set : List Text → Option (Text → List ℕ)) where
  -- `Detector::new`
  unfoldable pub new : DetectionConfig → DetectorResult Detector
  unfolding compile_rules compile_rule_set compile_high_entropy
  new config = elim (compile_rules compile config.rules) [
    | invalid_regex name ↦ invalid_regex name
    | ok rules ↦ elim (compile_rule_set compile_set config.rules) [
      | invalid_regex name ↦ invalid_regex name
      | ok rule_set ↦ ok (record {
        ignore_json_pointers = config.ignore_json_pointers;
        rules = rules;
        rule_set = rule_set;
        high_entropy = compile_high_entropy config.high_entropy;
      })
    ]
  ]

unfoldable pub should_ignore_pointer : Detector → Text → Bool
should_ignore_pointer d pointer = contains d.ignore_json_pointers pointer

-- `self.rules[idx]` panics out of range: `none`.
pub rule_at : List CompiledRule → ℕ → Option CompiledRule
rule_at [] i = none
rule_at (r ∷ rs) zero = some r
rule_at (r ∷ rs) (suc i) = rule_at rs i

module _ (sha256_hex : Text → Text) where
  abbrev pub finding_at : Text → RuleMetadata → Match → DetectionFinding
  finding_at pointer metadata m = new_finding sha256_hex m.start m.end m.text pointer metadata

  -- `captures.get(1).or_else(|| captures.get(0))`
  unfoldable pub capture_findings :
      Text → RuleMetadata → List (Option Match × Option Match) → List DetectionFinding
  capture_findings pointer metadata [] = []
  capture_findings pointer metadata ((some m, whole) ∷ cs) =
      finding_at pointer metadata m ∷ capture_findings pointer metadata cs
  capture_findings pointer metadata ((none, some m) ∷ cs) =
      finding_at pointer metadata m ∷ capture_findings pointer metadata cs
  capture_findings pointer metadata ((none, none) ∷ cs) = capture_findings pointer metadata cs

  -- The findings of one rule.
  unfoldable pub rule_findings : Text → Text → CompiledRule → List DetectionFinding
  unfolding capture_findings
  rule_findings text pointer rule =
      if ltb 1 rule.regex.captures_len
      then capture_findings pointer rule.metadata (rule.regex.captures_iter text)
      else map (finding_at pointer rule.metadata) (rule.regex.find_iter text)

  unfoldable pub set_findings :
      Text → Text → List CompiledRule → List ℕ → Option (List DetectionFinding)
  unfolding rule_at rule_findings
  set_findings text pointer rules [] = some []
  set_findings text pointer rules (i ∷ is) =
      let rest = set_findings text pointer rules is in
      elim (rule_at rules i) [
        | none ↦ none
        | some rule ↦ elim rest [
          | none ↦ none
          | some fs ↦ some (rule_findings text pointer rule ++ fs)
        ]
      ]

module _ (sha256_hex : Text → Text) (sum_at_least : ℕ → List ℕ → ℕ → Bool) where
  abbrev pub entropy_findings : Text → Text → Option CompiledHighEntropyRule → List DetectionFinding
  entropy_findings text pointer none = []
  entropy_findings text pointer (some rule) =
      map (λ (t : EntropyToken). new_finding sha256_hex t.start t.end t.value pointer rule.metadata)
        (high_entropy_tokens sum_at_least rule.min_length rule.min_entropy text)

  abbrev pub regex_findings : Text → Text → Detector → Option (List DetectionFinding)
  regex_findings text pointer d = elim d.rule_set [
    | none ↦ some []
    | some matches ↦ set_findings sha256_hex text pointer d.rules (matches text)
  ]

  -- `Detector::scan_text`; `none` is the panic of an index out of range.
  unfoldable pub scan_text : Detector → Text → Text → Option (List DetectionFinding)
  unfolding set_findings
  scan_text d text pointer = elim (regex_findings text pointer d) [
    | none ↦ none
    | some fs ↦ some (fs ++ entropy_findings text pointer d.high_entropy)
  ]
