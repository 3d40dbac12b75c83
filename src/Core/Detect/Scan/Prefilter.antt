-- ===== src/Core/Detect/Scan/Prefilter.antt =====
-- The `RegexSet` of the detector is only a prefilter: the scan finds what all the rules find.
use ctxward.Prelude.{
  ℕ, suc, ◌≡◌, refl, ap, sym, Bool, false, Bool-cases, inl, inr, Option, none, some, List, [], ◌∷◌,
  ◌++◌, map, Text, length, arith, if◌then◌else◌,
}
use mathlib.Core.List.{append_assoc}
use ctxward.Core.Detect.Findings.{DetectionFinding}
use ctxward.Core.Detect.Scan.{
  DetectionRuleConfig, DetectionConfig, Regex, CompiledRule, Detector, ok, compile_rules,
  compile_rule_set, new, capture_findings, rule_findings, rule_at, set_findings, entropy_findings,
  scan_text,
}

-- The indices, from `i` on, of the rules whose pattern matches the text.
abbrev pub matching : Text → ℕ → List CompiledRule → List ℕ
matching text i [] = []
matching text i (r ∷ rs) =
    let rest = matching text (suc i) rs in if r.regex.is_match text then i ∷ rest else rest

-- `regex`: a `RegexSet` reports the patterns that match, in order, and a pattern that does not
-- match has no captures and no matches.
pub record RegexLaws (compile : Text → Option Regex)
    (compile_set : List Text → Option (Text → List ℕ)) : Type 0 where
  pub set_matches :
      (rules : List DetectionRuleConfig) (m : Text → List ℕ) (cs : List CompiledRule)
      → compile_set (map (λ (r : DetectionRuleConfig). r.pattern) rules) ≡ some m
      → compile_rules compile rules ≡ ok cs
      → (text : Text) → m text ≡ matching text 0 cs
  pub no_match :
      (pattern : Text) (r : Regex)
      → compile pattern ≡ some r
      → (text : Text) → r.is_match text ≡ false
      → (r.captures_iter text ≡ []) × (r.find_iter text ≡ [])

rule_at-append :
    (pre : List CompiledRule) (r : CompiledRule) (rs : List CompiledRule)
    → rule_at (pre ++ r ∷ rs) (length pre) ≡ some r
unfolding rule_at
rule_at-append [] r rs = refl
rule_at-append (p ∷ pre) r rs = rule_at-append pre r rs

abbrev snoc {ℓ} : {A : Type ℓ} → List A → A → List A
snoc xs x = xs ++ x ∷ []

length-snoc {ℓ} : {A : Type ℓ} (xs : List A) (x : A) → length (snoc xs x) ≡ suc (length xs)
length-snoc [] x = refl
length-snoc (y ∷ xs) x = ap suc (length-snoc xs x)

-- Each rule that does not match the text finds nothing.
abbrev pub Silent : Text → List CompiledRule → Type 0
Silent text [] = Unit
Silent text (r ∷ rs) =
    (r.regex.is_match text ≡ false
      → (r.regex.captures_iter text ≡ []) × (r.regex.find_iter text ≡ []))
    × Silent text rs

module _ (sha256_hex : Text → Text) where
  -- The findings of every rule, one after the other.
  abbrev pub all_findings : Text → Text → List CompiledRule → List DetectionFinding
  all_findings text pointer [] = []
  all_findings text pointer (r ∷ rs) =
      rule_findings sha256_hex text pointer r ++ all_findings text pointer rs

  rule_findings-no_match :
      (text pointer : Text) (r : CompiledRule)
      → (r.regex.captures_iter text ≡ []) × (r.regex.find_iter text ≡ [])
      → rule_findings sha256_hex text pointer r ≡ []
  unfolding rule_findings capture_findings
  rule_findings-no_match text pointer r h = rw (h.0, h.1) (ground arith)

  set_findings-matching :
      (text pointer : Text) (pre rules : List CompiledRule)
      → Silent text rules
      → set_findings sha256_hex text pointer (pre ++ rules) (matching text (length pre) rules)
        ≡ some (all_findings text pointer rules)
  unfolding set_findings
  set_findings-matching text pointer pre [] q = refl
  set_findings-matching text pointer pre (r ∷ rs) q =
      let rest : set_findings sha256_hex text pointer (pre ++ r ∷ rs)
            (matching text (suc (length pre)) rs)
          ≡ some (all_findings text pointer rs) =
        rw
          (
            ← length-snoc pre r,
            let e : pre ++ r ∷ rs ≡ snoc pre r ++ rs = sym (append_assoc pre (r ∷ []) rs) in e,
          )
          (set_findings-matching text pointer (snoc pre r) rs q.1) in
      elim (Bool-cases (r.regex.is_match text)) [
        | inl hit ↦ ground (arith, rule_at-append pre r rs, rest)
        | inr miss ↦ rw (miss, rest, rule_findings-no_match text pointer r (q.0 miss))
      ]

compile_rules-Silent :
    (compile : Text → Option Regex)
    → ((pattern : Text) (r : Regex)
        → compile pattern ≡ some r
        → (text : Text) → r.is_match text ≡ false
        → (r.captures_iter text ≡ []) × (r.find_iter text ≡ []))
    → (text : Text) (rules : List DetectionRuleConfig) (cs : List CompiledRule)
    → compile_rules compile rules ≡ ok cs
    → Silent text cs
unfolding compile_rules
compile_rules-Silent compile law text [] (c ∷ cs) h = cc
compile_rules-Silent compile law text rules [] h = tt
compile_rules-Silent compile law text (rule ∷ rules) (c ∷ cs) h =
    let made : (compile rule.pattern ≡ some c.regex) × (compile_rules compile rules ≡ ok cs) =
      ground arith in
    (law rule.pattern c.regex made.0 text, compile_rules-Silent compile law text rules cs made.1)

module _ (compile : Text → Option Regex) (compile_set : List Text → Option (Text → List ℕ))
    (laws : RegexLaws compile compile_set) (sha256_hex : Text → Text)
    (sum_at_least : ℕ → List ℕ → ℕ → Bool) where
  regex_findings-all :
      (text pointer : Text) (rules : List DetectionRuleConfig) (cs : List CompiledRule)
      (rs : Option (Text → List ℕ))
      → compile_rules compile rules ≡ ok cs
      → compile_rule_set compile_set rules ≡ ok rs
      → (elim rs [ none ↦ some [] | some m ↦ set_findings sha256_hex text pointer cs (m text) ])
        ≡ some (all_findings sha256_hex text pointer cs)
  unfolding compile_rule_set compile_rules
  regex_findings-all text pointer [] (c ∷ cs) rs h k = cc
  regex_findings-all text pointer [] [] none h k = refl
  regex_findings-all text pointer [] [] (some m) h k = cc
  regex_findings-all text pointer (rule ∷ rules) cs none h k = ground arith
  regex_findings-all text pointer (rule ∷ rules) cs (some m) h k =
      let set : compile_set (map (λ (r : DetectionRuleConfig). r.pattern) (rule ∷ rules)) ≡ some m =
        ground arith in
      let silent = compile_rules-Silent compile laws.no_match text (rule ∷ rules) cs h in
      rw (laws.set_matches (rule ∷ rules) m cs set h text)
        (set_findings-matching sha256_hex text pointer [] cs silent)

  -- A scan by a detector that `new` built does not fail, and finds what each rule finds by itself,
  -- in the order of the rules, and then the high-entropy tokens: the prefilter drops nothing.
  pub scan_text-all_findings :
      (config : DetectionConfig) (d : Detector) (text pointer : Text)
      → new compile compile_set config ≡ ok d
      → scan_text sha256_hex sum_at_least d text pointer
        ≡ some (
            all_findings sha256_hex text pointer d.rules
            ++ entropy_findings sha256_hex sum_at_least text pointer d.high_entropy)
  unfolding scan_text new
  scan_text-all_findings config d text pointer h =
      let made : (compile_rules compile config.rules ≡ ok d.rules)
          × (compile_rule_set compile_set config.rules ≡ ok d.rule_set) =
        ground arith in
      let found = regex_findings-all text pointer config.rules d.rules d.rule_set made.0 made.1 in
      rw (found, scan_text)
