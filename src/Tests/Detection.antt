-- ===== src/Tests/Detection.antt =====
-- Scans of short texts, with literal patterns as the regular expressions.
use ctxward.Prelude.{
  ℕ, zero, suc, ◌≤◌, ◌<◌, ◌≡◌, refl, sym, ap, ◌∙◌, Bool, true, false, Option, none, some, List, [],
  ◌∷◌, ◌++◌, Text, bytes, text_eq, length, map, All, leb, eq_text, arith, if◌then◌else◌,
}
use mathlib.Core.Path.{subst}
use ctxward.Prelude.Ascii.{is_digit, is_upper, is_lower}
use ctxward.Core.Types.{public, high, allow, redact, placeholder}
use ctxward.Core.Detect.Entropy.{high_entropy_tokens, entropy_at_least, is_entropy_char}
use ctxward.Core.Detect.Entropy.Runs.{IsRun, Has, token_byte}
use ctxward.Core.Detect.Entropy.Exact.{
  IsReported, high_entropy_tokens-IsReported, high_entropy_tokens-Has,
}
use ctxward.Core.Detect.Scan.{
  DetectionRuleConfig, DetectionConfig, Match, Regex, CompiledRule, Detector, DetectorResult, ok,
  invalid_regex, compile_high_entropy, to_metadata, compile_rules, compile_rule_set, new, scan_text,
  entropy_findings,
}
use ctxward.Core.Detect.Scan.Prefilter.{RegexLaws, matching, all_findings, scan_text-all_findings}

-- An entropy test that counts the distinct bytes.
abbrev pub distinct : ℕ → List ℕ → ℕ → Bool
distinct least counts n = leb least (length counts)

abbrev token_text : Text
token_text = bytes " ab"

high_entropy_tokens-IsReported_example :
    All (IsReported distinct 2 2 token_text) (high_entropy_tokens distinct 2 2 token_text)
high_entropy_tokens-IsReported_example = high_entropy_tokens-IsReported distinct 2 2 token_text

in_run : (i : ℕ) → 1 ≤ i → i < 3 → token_byte token_text i ≡ true
unfolding is_entropy_char is_digit is_upper is_lower
in_run zero a b = absurd (omega arith)
in_run (suc zero) a b = refl
in_run (suc (suc zero)) a b = refl
in_run (suc (suc (suc i))) a b = absurd (omega arith)

last-IsRun : IsRun token_text 1 3
unfolding is_entropy_char is_digit is_upper is_lower
last-IsRun = record { nonempty = omega arith; opens = refl; inside = in_run; closes = refl }

high_entropy_tokens-Has_example : Has 1 3 (high_entropy_tokens distinct 2 2 token_text)
unfolding entropy_at_least
high_entropy_tokens-Has_example =
    high_entropy_tokens-Has distinct 2 2 token_text 1 3 last-IsRun (omega arith) refl

-- A pattern matches the text that it is.
abbrev whole : Text → Text → List Match
whole pattern text =
    if text_eq pattern text then record { start = 0; end = length text; text = text } ∷ [] else []

abbrev regex_of : Text → Regex
regex_of pattern = record {
  captures_len = 1;
  captures_iter = λ text. map (λ m. (none, some m)) (whole pattern text);
  find_iter = whole pattern;
  is_match = text_eq pattern;
}

abbrev pub compile : Text → Option Regex
compile pattern = some (regex_of pattern)

abbrev indices : Text → ℕ → List Text → List ℕ
indices text i [] = []
indices text i (p ∷ ps) =
    let rest = indices text (suc i) ps in if text_eq p text then i ∷ rest else rest

abbrev pub compile_set : List Text → Option (Text → List ℕ)
compile_set ps = some (λ text. indices text 0 ps)

-- The compiled rules, where all of them compile.
rules_ok :
    (rest : DetectorResult (List CompiledRule)) (c : CompiledRule) (cs : List CompiledRule)
    → elim rest as (λ _. DetectorResult (List CompiledRule)) [
      | invalid_regex name ↦ invalid_regex name
      | ok ds ↦ ok (c ∷ ds)
    ]
      ≡ ok cs
    → (ds : List CompiledRule) × (rest ≡ ok ds) × (c ∷ ds ≡ cs)
rules_ok (invalid_regex name) c cs h = absurd (ground arith)
rules_ok (ok ds) c cs h = (ds, refl, ground arith)

indices-matching :
    (text : Text) (i : ℕ) (rules : List DetectionRuleConfig) (cs : List CompiledRule)
    → compile_rules compile rules ≡ ok cs
    → indices text i (map (λ (r : DetectionRuleConfig). r.pattern) rules) ≡ matching text i cs
unfolding compile_rules
indices-matching text i [] cs h = let made : [] ≡ cs = ground arith in ap (matching text i) made
indices-matching text i (r ∷ rules) cs h =
    let regex = regex_of r.pattern in
    let made =
      rules_ok (compile_rules compile rules) (record { regex = regex; metadata = to_metadata r }) cs
        h in
    rw (indices-matching text (suc i) rules made.0 made.1) (ap (matching text i) made.2)

literal_laws : RegexLaws compile compile_set
literal_laws = record {
  set_matches = λ rules m cs h c text.
      let same : (λ t. indices t 0 (map (λ (r : DetectionRuleConfig). r.pattern) rules)) ≡ m =
        ground arith in
      ap (λ (f : Text → List ℕ). f text) (sym same) ∙ indices-matching text 0 rules cs c;
  no_match = λ pattern r h text miss.
      let same : regex_of pattern ≡ r = ground arith in
      subst
        (λ (q : Regex).
          q.is_match text ≡ false → (q.captures_iter text ≡ []) × (q.find_iter text ≡ []))
        same (λ m. (rw m refl, rw m refl)) miss;
}

abbrev pub email_rule : DetectionRuleConfig
email_rule = record {
  name = bytes "email";
  label = bytes "EMAIL";
  pattern = bytes "a@b";
  severity = high;
  authorized_action = allow;
  unauthorized_action = redact;
  min_clearance = public;
  masking = placeholder;
}

abbrev config : DetectionConfig
config = record { ignore_json_pointers = []; high_entropy = none; rules = email_rule ∷ [] }

abbrev pub detector : Detector
detector = record {
  ignore_json_pointers = [];
  rules = record { regex = regex_of (bytes "a@b"); metadata = to_metadata email_rule } ∷ [];
  rule_set = some (λ text. indices text 0 (bytes "a@b" ∷ []));
  high_entropy = none;
}

abbrev pub digest : Text → Text
digest s = 99 ∷ s

scan_text-all_findings_example :
    scan_text digest distinct detector (bytes "a@b") (bytes "/x")
    ≡ some (
        all_findings digest (bytes "a@b") (bytes "/x") detector.rules
        ++ entropy_findings digest distinct (bytes "a@b") (bytes "/x") none)
unfolding new compile_rules compile_rule_set compile_high_entropy
scan_text-all_findings_example =
    scan_text-all_findings compile compile_set literal_laws digest distinct config detector
      (bytes "a@b") (bytes "/x") refl
