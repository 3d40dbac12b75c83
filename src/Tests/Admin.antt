-- ===== src/Tests/Admin.antt =====
-- An admin's calls, and a request from its arrival.
use ctxward.Prelude.{
  ℕ, true, Option, List, Text, inl, inr, ◌⊎◌, sym, ◌∙◌, ◌++◌, ◌≡◌, refl, false, Bool, none, some,
  [], ◌∷◌, bytes, text_eq, arith,
}
use ctxward.Prelude.Table
use ctxward.Core.Auth.{Principal}
use ctxward.Core.Auth
use ctxward.Core.Types.{block}
use ctxward.Review.Tickets.{
  ReviewTicket, override_rejected, override_for, resolve_ticket, new_pending,
}
use ctxward.Review.Lifecycle.{IsWaiting}
use ctxward.Audit.{AuditRecord, AuditStore, read_recent}
use ctxward.Attachments.Errors.{done}
use ctxward.Proxy.Outcome.{action_code, apply_opa_policy}
use ctxward.Proxy.Decide.{Gateway, review_fingerprint, record_session, request_decision}
use ctxward.Proxy.Request.{refused, handle_proxy}
use ctxward.Proxy.Request.Override.{answer_to}
use ctxward.Proxy.Admin.{both, AuditQuery, AdminRuntime, resolve_review, find_audits, admin_call}
use ctxward.Proxy.Admin.Audits.{source_records, IsLawful, IsListed, find_audits-IsListed}
use ctxward.Proxy.Admin.Audits.Complete.{Has}
use ctxward.Proxy.Admin.Decides.{admin_call-handle_proxy}
use ctxward.Proxy.Handler.{Runtime, ClientRequest}
use ctxward.Tests.Gateway.{runtime, asked, fresh, cleaned, alice, gateway_headers}
use ctxward.Tests.Reviews.{ticket}
use ctxward.Tests.Payloads.{engines}
use ctxward.Tests.Attachments.{attachments}
use ctxward.Tests.Tokens.{crates}
use ctxward.Tests.Interception as Interception

abbrev admin : Principal
admin = record alice { name = bytes "bob"; role = bytes "admin" }

abbrev admin_runtime : AdminRuntime
admin_runtime = record {
  principal = Auth.ok admin;
  tokenizer = none;
  approval_ttl_secs = 60;
  audit_lines = none;
}

abbrev same_request : AuditRecord → AuditRecord → Bool
same_request a b = text_eq a.request_id b.request_id

abbrev query : AuditQuery
query = record {
  limit = some 3;
  source = some (bytes "both");
  principal = some (bytes "alice");
  decision = none;
  label = none;
  direction = none;
  session_id = none;
  policy_source = none;
  request_id = none;
  error_stage = none;
  error_kind = none;
}

abbrev record_of : Text → Text → ℕ → AuditRecord
record_of id name ts = record {
  ts = ts;
  request_id = id;
  principal = name;
  tenant_id = bytes "t";
  direction = bytes "request";
  path = bytes "/";
  decision = bytes "allow";
  policy_source = bytes "builtin";
  decision_reason = none;
  matched_labels = [];
  matched_rules = [];
  findings = [];
  session_id = none;
  session_escalated = false;
  status_code = none;
  error_stage = none;
  error_kind = none;
}

abbrev first : AuditRecord
first = record_of (bytes "r1") (bytes "alice") 1

abbrev second : AuditRecord
second = record_of (bytes "r2") (bytes "alice") 2

abbrev of_bob : AuditRecord
of_bob = record_of (bytes "r3") (bytes "bob") 3

abbrev buffer : AuditStore AuditRecord
buffer = record { capacity = 8; records = second ∷ of_bob ∷ [] }

-- The file has an older record, and one that is in the buffer too.
abbrev lines : Option (List (Option AuditRecord))
lines = some (some first ∷ some second ∷ [])

abbrev IsOne : AuditRecord → Type 0
IsOne r = (r ≡ first) ⊎ (r ≡ second) ⊎ (r ≡ of_bob)

listed-IsOne :
    (r : AuditRecord) → Has (source_records same_request query buffer lines both) r → IsOne r
unfolding read_recent
listed-IsOne r (inl e) = inr (inl (sym e))
listed-IsOne r (inr (inl e)) = inr (inr (sym e))
listed-IsOne r (inr (inr (inl e))) = inl (sym e)
listed-IsOne r (inr (inr (inr (inl e)))) = inr (inl (sym e))
listed-IsOne r (inr (inr (inr (inr e)))) = absurd e

told_apart : (a b : AuditRecord) → IsOne a → IsOne b → same_request a b ≡ true → a ≡ b
unfolding text_eq
told_apart a b (inl e) (inl f) h = e ∙ sym f
told_apart a b (inl e) (inr (inl f)) h = cc (rw (e, f) at h)
told_apart a b (inl e) (inr (inr f)) h = cc (rw (e, f) at h)
told_apart a b (inr (inl e)) (inl f) h = cc (rw (e, f) at h)
told_apart a b (inr (inl e)) (inr (inl f)) h = e ∙ sym f
told_apart a b (inr (inl e)) (inr (inr f)) h = cc (rw (e, f) at h)
told_apart a b (inr (inr e)) (inl f) h = cc (rw (e, f) at h)
told_apart a b (inr (inr e)) (inr (inl f)) h = cc (rw (e, f) at h)
told_apart a b (inr (inr e)) (inr (inr f)) h = e ∙ sym f

lawful : IsLawful same_request query buffer lines
lawful a b h k = told_apart a b (listed-IsOne a h) (listed-IsOne b k)

find_audits-IsListed_example : IsListed same_request query buffer lines (second ∷ first ∷ [])
unfolding find_audits text_eq read_recent
find_audits-IsListed_example = find_audits-IsListed same_request query buffer lines lawful

-- A gateway in which a ticket waits for the request.
abbrev waiting_ticket : ReviewTicket
waiting_ticket = record ticket { fingerprint = bytes "t|/v1|00" }

abbrev gateway : Gateway
gateway = record fresh {
  reviews = record fresh.reviews {
    inner = record fresh.reviews.inner { tickets = (bytes "T1", waiting_ticket) ∷ [] };
  };
}

waits : IsWaiting gateway.reviews (bytes "T1") waiting_ticket
unfolding Table.get text_eq new_pending
waits = record { found = refl; waiting = refl }

admin_call-handle_proxy_example :
    (handle_proxy runtime 8
      (bytes "T2")
      none
      asked
      (admin_call crates same_request 7 none admin_runtime
        (resolve_review (bytes "T1") false none)
        gateway).0).1
    ≡ refused 403 (action_code block)
unfolding answer_to apply_opa_policy review_fingerprint override_for resolve_ticket new_pending
    record_session request_decision
admin_call-handle_proxy_example =
    admin_call-handle_proxy crates same_request 7 admin_runtime admin (bytes "T1") false none
      gateway 8 runtime asked waiting_ticket (override_rejected (bytes "T1") (bytes "bob"))
      (bytes "T2") none cleaned.policy (refused 403 (action_code block)) refl refl (omega arith)
      (omega arith) waits refl refl refl refl refl

abbrev gateway_runtime : Runtime
gateway_runtime = record {
  authenticator = record {
    header_name = bytes "authorization";
    principal_by_hash = (bytes "key", alice) ∷ [];
  };
  crates = Interception.crates;
  engines = engines;
  attachments = attachments;
  proxy = runtime;
  to_str = some;
  message = λ e. [];
  upstream_headers = gateway_headers;
  env = λ name. some (bytes "Bearer up");
  join = λ path. some (bytes "http://up/" ++ path);
  reqwest_method = done;
}

abbrev arriving : ClientRequest
arriving = record {
  request_id = bytes "r1";
  method = bytes "POST";
  path_and_query = bytes "/v1";
  headers = (bytes "authorization", bytes "Bearer key") ∷ [];
  read = done (bytes "a@b");
}
