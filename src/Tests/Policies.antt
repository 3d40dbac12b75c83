-- ===== src/Tests/Policies.antt =====
-- Two findings, and two principals.
use ctxward.Prelude.{
  ◌≤◌, ◌≡◌, refl, ◌⊎◌, true, none, some, List, [], ◌∷◌, Text, bytes, map, All, Some, arith,
}
use mathlib.Core.List.{Perm}
use mathlib.Core.List.Perm
use ctxward.Core.Types.{
  public, confidential, high, allow, redact, block, rank, placeholder, request, level,
}
use ctxward.Core.Auth.{Principal}
use ctxward.Core.Detect.Findings.{RuleMetadata, DetectionFinding}
use ctxward.Core.Policy.{PolicyOutcome, action_for, resolve_finding, resolve}
use ctxward.Core.Policy.Strictest.{IsMorePrivileged, IsLenient, resolve-strictest, resolve_mono}
use ctxward.Proxy.Outcome.{OpaAuthorizer, replied, apply_opa_policy}
use ctxward.Proxy.Outcome.Merge.{apply_opa_policy-stricter}

abbrev metadata : Text → RuleMetadata
metadata label = record {
  rule_name = label;
  label = label;
  severity = high;
  authorized_action = allow;
  unauthorized_action = block;
  min_clearance = confidential;
  masking = placeholder;
}

abbrev found : Text → DetectionFinding
found label = record {
  start = 0;
  end = 1;
  matched = bytes "x";
  matched_sha256 = [];
  pointer = [];
  metadata = metadata label;
}

abbrev guest : Principal
guest = record {
  name = bytes "guest";
  tenant_id = bytes "t";
  role = bytes "user";
  clearance = public;
  allowed_labels = [];
}

abbrev alice : Principal
alice = record guest { clearance = confidential; allowed_labels = bytes "a" ∷ [] }

abbrev email : DetectionFinding
email = found (bytes "a")

abbrev phone : DetectionFinding
phone = found (bytes "b")

abbrev both : List DetectionFinding
both = email ∷ phone ∷ []

resolve-strictest_example :
    ((resolve alice both request).findings ≡ map (resolve_finding alice request) both)
    × All
        (λ f. rank (action_for alice f.metadata) ≤ rank (resolve alice both request).decision)
        both
    × (((resolve alice both request).decision ≡ allow)
        ⊎ Some (λ f. action_for alice f.metadata ≡ (resolve alice both request).decision) both)
resolve-strictest_example = resolve-strictest alice request both

swapped : Perm both (phone ∷ email ∷ [])
swapped = Perm.swap phone email []

more : IsMorePrivileged guest alice
unfolding level
more = record { clearance = omega arith; labels = λ l h. absurd (ground arith) }

lenient : All IsLenient both
unfolding rank
lenient = (omega arith, (omega arith, tt))

resolve_mono_example :
    rank (resolve alice both request).decision ≤ rank (resolve guest both request).decision
resolve_mono_example = resolve_mono guest alice request both more lenient

abbrev base : PolicyOutcome
base = record { decision = redact; findings = []; source = bytes "builtin"; reason = none }

abbrev lax : OpaAuthorizer
lax = record {
  fail_open = true;
  evaluate = λ input. replied (some (record { action = allow; reason = none }));
}

abbrev merged : PolicyOutcome
merged = record base { source = bytes "opa" }

apply_opa_policy-stricter_example : (rank redact ≤ rank merged.decision) × (merged.findings ≡ [])
unfolding apply_opa_policy
apply_opa_policy-stricter_example =
    apply_opa_policy-stricter (some lax) alice request (bytes "/v1") true base merged refl
