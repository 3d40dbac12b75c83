-- ===== src/Core/RedactApi/Moved.antt =====
-- The pointer of a text changes the pointers of its findings, and nothing else.
use ctxward.Prelude.{
  ℕ, ◌≡◌, refl, sym, ap, ◌∙◌, Bool, Bool-cases, inl, inr, ltb, Option, Option-cases, none, some,
  List, [], ◌∷◌, ◌++◌, map, filter, Text,
}
use mathlib.Core.List.{map-append}
use ctxward.Core.Auth.{Principal}
use ctxward.Core.Types.{Direction, DecisionAction, combine, allow}
use ctxward.Core.Detect.Findings.{RuleMetadata, DetectionFinding, new_finding}
use ctxward.Core.Detect.Entropy.{EntropyToken, high_entropy_tokens}
use ctxward.Core.Detect.Scan.{
  Match, Detector, CompiledRule, CompiledHighEntropyRule, finding_at, capture_findings,
  rule_findings, rule_at, set_findings, regex_findings, entropy_findings, scan_text,
}
use ctxward.Core.Policy.{ResolvedFinding, resolve_finding, resolve_loop, resolve, action_for}
use ctxward.Core.Redact.{
  TokenizerAt, is_selected, sorts_first, insert_sorted, sort_findings, keep_disjoint, chosen,
  replace_all, mask_finding, redact_text, ◌>>=◌, replace_range,
}

abbrev pub with_pointer : Text → DetectionFinding → DetectionFinding
with_pointer q f = record f { pointer = q }

abbrev pub moved : Text → ResolvedFinding → ResolvedFinding
moved q f = record f { pointer = q }

abbrev pub map_found :
    (DetectionFinding → DetectionFinding)
    → Option (List DetectionFinding)
    → Option (List DetectionFinding)
map_found f none = none
map_found f (some fs) = some (map f fs)

module _ (sha256_hex : Text → Text) (sum_at_least : ℕ → List ℕ → ℕ → Bool) (p q : Text) where
  found-moved :
      (m : RuleMetadata) (ms : List Match)
      → map (finding_at sha256_hex q m) ms
        ≡ map (with_pointer q) (map (finding_at sha256_hex p m) ms)
  unfolding new_finding
  found-moved m [] = refl
  found-moved m (x ∷ ms) = ap (λ r. finding_at sha256_hex q m x ∷ r) (found-moved m ms)

  capture-moved :
      (m : RuleMetadata) (cs : List (Option Match × Option Match))
      → capture_findings sha256_hex q m cs
        ≡ map (with_pointer q) (capture_findings sha256_hex p m cs)
  unfolding capture_findings new_finding
  capture-moved m [] = refl
  capture-moved m ((some x, w) ∷ cs) =
      ap (λ r. finding_at sha256_hex q m x ∷ r) (capture-moved m cs)
  capture-moved m ((none, some x) ∷ cs) =
      ap (λ r. finding_at sha256_hex q m x ∷ r) (capture-moved m cs)
  capture-moved m ((none, none) ∷ cs) = capture-moved m cs

  rule-moved :
      (text : Text) (rule : CompiledRule)
      → rule_findings sha256_hex text q rule
        ≡ map (with_pointer q) (rule_findings sha256_hex text p rule)
  unfolding rule_findings
  rule-moved text rule = elim (Bool-cases (ltb 1 rule.regex.captures_len)) [
    | inl e ↦ rw e (capture-moved rule.metadata (rule.regex.captures_iter text))
    | inr e ↦ rw e (found-moved rule.metadata (rule.regex.find_iter text))
  ]

  set-moved :
      (text : Text) (rules : List CompiledRule) (is : List ℕ)
      → set_findings sha256_hex text q rules is
        ≡ map_found (with_pointer q) (set_findings sha256_hex text p rules is)
  unfolding set_findings
  set-moved text rules [] = refl
  set-moved text rules (i ∷ is) = elim (Option-cases (rule_at rules i)) [
    | inl e ↦ rw (set_findings, e) refl
    | inr (rule, e) ↦ elim (Option-cases (set_findings sha256_hex text p rules is)) [
      | inl n ↦ rw (set_findings, e, set-moved text rules is, n) refl
      | inr (fs, n) ↦
          rw
            (
              set_findings,
              e,
              set-moved text rules is,
              n,
              rule-moved text rule,
              map-append (with_pointer q) (rule_findings sha256_hex text p rule) fs,
            )
            refl
    ]
  ]

  abbrev tokens : Text → CompiledHighEntropyRule → List EntropyToken
  tokens text rule = high_entropy_tokens sum_at_least rule.min_length rule.min_entropy text

  token-moved :
      (m : RuleMetadata) (ts : List EntropyToken)
      → map (λ (t : EntropyToken). new_finding sha256_hex t.start t.end t.value q m) ts
        ≡ map
            (with_pointer q)
            (map (λ (t : EntropyToken). new_finding sha256_hex t.start t.end t.value p m) ts)
  unfolding new_finding
  token-moved m [] = refl
  token-moved m (t ∷ ts) =
      ap (λ r. new_finding sha256_hex t.start t.end t.value q m ∷ r) (token-moved m ts)

  entropy-moved :
      (text : Text) (o : Option CompiledHighEntropyRule)
      → entropy_findings sha256_hex sum_at_least text q o
        ≡ map (with_pointer q) (entropy_findings sha256_hex sum_at_least text p o)
  entropy-moved text none = refl
  entropy-moved text (some rule) = token-moved rule.metadata (tokens text rule)

  regex-moved :
      (d : Detector) (text : Text)
      → regex_findings sha256_hex sum_at_least text q d
        ≡ map_found (with_pointer q) (regex_findings sha256_hex sum_at_least text p d)
  regex-moved d text = elim (Option-cases d.rule_set) [
    | inl e ↦ rw (regex_findings, e) refl
    | inr (matches, e) ↦ rw (regex_findings, e) (set-moved text d.rules (matches text))
  ]

  pub scan_text-moved :
      (d : Detector) (text : Text)
      → scan_text sha256_hex sum_at_least d text q
        ≡ map_found (with_pointer q) (scan_text sha256_hex sum_at_least d text p)
  unfolding scan_text
  scan_text-moved d text = elim (Option-cases (regex_findings sha256_hex sum_at_least text p d)) [
    | inl e ↦ rw (scan_text, regex-moved d text, e) refl
    | inr (fs, e) ↦
        rw
          (
            scan_text,
            regex-moved d text,
            e,
            entropy-moved text d.high_entropy,
            map-append (with_pointer q) fs
                (entropy_findings sha256_hex sum_at_least text p d.high_entropy),
          )
          refl
  ]

resolve_loop-moved :
    (principal : Principal) (direction : Direction) (q : Text) (decision : DecisionAction)
    (rs : List ResolvedFinding) (fs : List DetectionFinding)
    → (resolve_loop principal direction decision
        (map (moved q) rs)
        (map (with_pointer q) fs)).findings
      ≡ map (moved q) (resolve_loop principal direction decision rs fs).findings
unfolding resolve_loop resolve_finding
resolve_loop-moved principal direction q decision rs [] = refl
resolve_loop-moved principal direction q decision rs (f ∷ fs) =
    ap
      (λ r.
        (resolve_loop principal direction (combine decision (action_for principal f.metadata)) r
          (map (with_pointer q) fs)).findings)
      (sym (map-append (moved q) rs (resolve_finding principal direction f ∷ [])))
    ∙ resolve_loop-moved principal direction q (combine decision (action_for principal f.metadata))
        (rs ++ resolve_finding principal direction f ∷ []) fs

filter-moved :
    (q : Text) (fs : List ResolvedFinding)
    → filter is_selected (map (moved q) fs) ≡ map (moved q) (filter is_selected fs)
unfolding is_selected
filter-moved q [] = refl
filter-moved q (f ∷ fs) = elim (Bool-cases (is_selected f)) [
  | inl e ↦ rw (is_selected, e) (ap (λ r. moved q f ∷ r) (filter-moved q fs))
  | inr e ↦ rw (is_selected, e) (filter-moved q fs)
]

insert-moved :
    (q : Text) (f : ResolvedFinding) (fs : List ResolvedFinding)
    → insert_sorted (moved q f) (map (moved q) fs) ≡ map (moved q) (insert_sorted f fs)
unfolding insert_sorted sorts_first
insert-moved q f [] = refl
insert-moved q f (g ∷ fs) = elim (Bool-cases (sorts_first f g)) [
  | inl e ↦ rw (sorts_first, e) refl
  | inr e ↦ rw (sorts_first, e) (ap (λ r. moved q g ∷ r) (insert-moved q f fs))
]

sort-moved :
    (q : Text) (fs : List ResolvedFinding)
    → sort_findings (map (moved q) fs) ≡ map (moved q) (sort_findings fs)
unfolding sort_findings
sort-moved q [] = refl
sort-moved q (f ∷ fs) =
    ap (insert_sorted (moved q f)) (sort-moved q fs) ∙ insert-moved q f (sort_findings fs)

keep-moved :
    (q : Text) (occupied : ℕ) (fs : List ResolvedFinding)
    → keep_disjoint occupied (map (moved q) fs) ≡ map (moved q) (keep_disjoint occupied fs)
unfolding keep_disjoint
keep-moved q occupied [] = refl
keep-moved q occupied (f ∷ fs) = elim (Bool-cases (ltb f.start occupied)) [
  | inl e ↦ rw e (keep-moved q occupied fs)
  | inr e ↦ rw e (ap (λ r. moved q f ∷ r) (keep-moved q f.end fs))
]

chosen-moved :
    (q : Text) (fs : List ResolvedFinding) → chosen (map (moved q) fs) ≡ map (moved q) (chosen fs)
unfolding chosen
chosen-moved q fs =
    ap (λ r. keep_disjoint 0 (sort_findings r)) (filter-moved q fs)
    ∙ ap (keep_disjoint 0) (sort-moved q (filter is_selected fs))
    ∙ keep-moved q 0 (sort_findings (filter is_selected fs))

replace_all-moved :
    (sha256_hex : Text → Text) (tokenizer : TokenizerAt) (q s : Text) (fs : List ResolvedFinding)
    → replace_all (mask_finding sha256_hex tokenizer) s (map (moved q) fs)
      ≡ replace_all (mask_finding sha256_hex tokenizer) s fs
unfolding replace_all mask_finding
replace_all-moved sha256_hex tokenizer q s [] = refl
replace_all-moved sha256_hex tokenizer q s (f ∷ fs) =
    ap
      (λ m.
        m >>= λ out. mask_finding sha256_hex tokenizer f >>= λ r. replace_range out f.start f.end r)
      (replace_all-moved sha256_hex tokenizer q s fs)

-- A text is redacted in the same way whatever the pointer of its findings.
pub redact_text-moved :
    (sha256_hex : Text → Text) (tokenizer : TokenizerAt) (q s : Text) (fs : List ResolvedFinding)
    → redact_text sha256_hex s (map (moved q) fs) tokenizer ≡ redact_text sha256_hex s fs tokenizer
unfolding redact_text
redact_text-moved sha256_hex tokenizer q s fs =
    ap (replace_all (mask_finding sha256_hex tokenizer) s) (chosen-moved q fs)
    ∙ replace_all-moved sha256_hex tokenizer q s (chosen fs)

pub resolve-moved :
    (principal : Principal) (direction : Direction) (q : Text) (fs : List DetectionFinding)
    → (resolve principal (map (with_pointer q) fs) direction).findings
      ≡ map (moved q) (resolve principal fs direction).findings
unfolding resolve
resolve-moved principal direction q fs = resolve_loop-moved principal direction q allow [] fs
