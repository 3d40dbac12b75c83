-- ===== src/Proxy/Response/Guard.antt =====
-- src/proxy.rs: the original body of a response is passed on only if every judge allows it.
use ctxward.Prelude.{◌⊎◌, ◌≡◌, Bool, true, false, Option, some, none, Text}
use ctxward.Core.Auth.{Principal}
use ctxward.Core.Types.{DecisionAction, allow, redact, response}
use ctxward.Core.Policy.{PolicyOutcome}
use ctxward.Proxy.Outcome.{OpaAuthorizer, outcome, apply_opa_policy}
use ctxward.Proxy.Response.{ProcessedPayload, passthrough, redacted_json, generic_redacted_body}

-- What allows a response after OPA: OPA gave an outcome, which allows it, as the base does.
abbrev pub IsAllowedBy : Option OpaAuthorizer → Principal → Text → Bool → PolicyOutcome → Type 0
IsAllowedBy opa principal path escalated base =
    (base.decision ≡ allow)
    × (after : PolicyOutcome) × (apply_opa_policy opa principal response path escalated base
        ≡ outcome after)
    × (after.decision ≡ allow)

-- The body that goes on is the original one, as an allowed one, or else one that was made here.
abbrev pub IsOriginal : Text → Text × DecisionAction → Type 0
IsOriginal original out = (out.1 ≡ allow) × (out.0 ≡ original)

abbrev pub IsReplaced : Option Text → Text → Text × DecisionAction → Type 0
IsReplaced content_type sanitized out =
    (out.1 ≡ redact) × ((out.0 ≡ sanitized) ⊎ (out.0 ≡ generic_redacted_body content_type))

-- What comes of a response: the original body only after a decision to allow it, of the analysis
-- and of OPA, or where nothing is filtered, of OPA alone; and otherwise a body that is made here.
abbrev pub IsGuarded :
    Option OpaAuthorizer
    → Principal
    → Text
    → Bool
    → Option Text
    → Text
    → Bool
    → Option ProcessedPayload
    → Text × DecisionAction
    → Type 0
IsGuarded opa principal path escalated content_type body true (some p) out =
    (IsAllowedBy opa principal path escalated p.policy × IsOriginal body out)
    ⊎ IsReplaced content_type p.sanitized_body out
IsGuarded opa principal path escalated content_type body true none out =
    (out.1 ≡ redact) × ((out.0 ≡ redacted_json) ⊎ (out.0 ≡ generic_redacted_body content_type))
IsGuarded opa principal path escalated content_type body false result out =
    (IsAllowedBy opa principal path escalated (passthrough body).policy × IsOriginal body out)
    ⊎ IsReplaced content_type body out
