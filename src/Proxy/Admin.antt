-- ===== src/Proxy/Admin.antt =====
-- src/proxy.rs: the handlers of an admin's requests on reviews, audits and tokens.
pub mod Gate
pub mod Decides
pub mod Audits
use ctxward.Prelude.{
  ℕ, Bool, true, false, not, ◌&&◌, ◌||◌, Option, none, some, List, [], ◌∷◌, ◌++◌, Text, bytes,
  text_eq, eq_text, any, filter, take, length, ltb, leb, eqb, min, contains, if◌then◌else◌,
}
use mathlib.Core.List.{reverse}
use ctxward.Core.Auth.{Principal, AuthError, AuthResult}
use ctxward.Core.Auth
use ctxward.Core.Tokenize.{Tokenizer, TokenizationError, DetokenizedValue, Tokenized, detokenize}
use ctxward.Core.Tokenize
use ctxward.Review.Tickets.{
  ReviewStatus, approved, rejected, ReviewTicket, ReviewFilterStatus, only_pending, only_approved,
  only_rejected, all_tickets, ReviewStoreError, ReviewResolveError,
}
use ctxward.Review.{ReviewStore, ResolveResult, resolved_ok, list, resolve, pending_count}
use ctxward.Review
use ctxward.Audit.{AuditFinding, AuditRecord, AuditStore, snapshot, read_recent}
use ctxward.Proxy.Decide.{Gateway}

pub data AuditSource : Type 0 where
  memory file both : AuditSource

pub record AuditQuery : Type 0 where
  pub limit : Option ℕ
  pub source : Option Text
  pub principal : Option Text
  pub decision : Option Text
  pub label : Option Text
  pub direction : Option Text
  pub session_id : Option Text
  pub policy_source : Option Text
  pub request_id : Option Text
  pub error_stage : Option Text
  pub error_kind : Option Text

-- The requests: `ReviewQuery`, `ResolveReviewRequest`, `AuditQuery` and `DetokenizeRequest`.
pub data AdminCall : Type 0 where
  reviews : Option ℕ → Option Text → AdminCall
  resolve_review : Text → Bool → Option Text → AdminCall
  audits : AuditQuery → AdminCall
  detokenize_token : Text → AdminCall

pub data AdminReply : Type 0 where
  unauthorized : AuthError → AdminReply
  forbidden : AdminReply
  tickets : ReviewFilterStatus → List ReviewTicket → AdminReply
  resolved_ticket : ReviewTicket → AdminReply
  review_resolve_failed : ReviewResolveError → AdminReply
  records : AuditSource → List AuditRecord → AdminReply
  opened : DetokenizedValue → AdminReply
  tokenization_disabled : AdminReply
  invalid_token : TokenizationError → AdminReply
  admin_panicked : AdminReply

-- What the handlers read, beside the state: the principal of the request, the tokenizer, the time to
-- live of approvals, and the records of the audit file's lines, or none if it cannot be read.
pub record AdminRuntime : Type 0 where
  pub principal : AuthResult Principal
  pub tokenizer : Option Tokenizer
  pub approval_ttl_secs : ℕ
  pub audit_lines : Option (List (Option AuditRecord))

abbrev pub unwrap_or {ℓ} : {A : Type ℓ} → A → Option A → A
unwrap_or a none = a
unwrap_or a (some b) = b

unfoldable pub parse_audit_source : Option Text → AuditSource
unfolding text_eq
parse_audit_source raw =
    let s = unwrap_or (bytes "memory") raw in
    if text_eq s (bytes "file") then file else if text_eq s (bytes "both") then both else memory

pub parse_review_status : Option Text → ReviewFilterStatus
unfolding text_eq
parse_review_status raw =
    let s = unwrap_or (bytes "pending") raw in
    if text_eq s (bytes "approved")
    then only_approved
    else if text_eq s (bytes "rejected")
    then only_rejected
    else if text_eq s (bytes "all")
    then all_tickets
    else only_pending

abbrev pub limit_of : Option ℕ → ℕ
limit_of limit = min (unwrap_or 50 limit) 500

-- The filters of `admin_audits`, on a field that is there, that may be there, and on the labels.
abbrev pub is_expected : Option Text → Text → Bool
is_expected none value = true
is_expected (some expected) value = text_eq value expected

abbrev pub is_expected_option : Option Text → Option Text → Bool
is_expected_option none value = true
is_expected_option (some expected) none = false
is_expected_option (some expected) (some value) = text_eq value expected

abbrev pub has_label : Option Text → List Text → Bool
has_label none labels = true
has_label (some expected) labels = any (λ label. text_eq label expected) labels

unfoldable pub is_queried : AuditQuery → AuditRecord → Bool
is_queried q r =
    is_expected q.principal r.principal
    && (is_expected q.decision r.decision
        && (is_expected q.policy_source r.policy_source
            && (is_expected q.direction r.direction
                && (is_expected q.request_id r.request_id
                    && (is_expected_option q.session_id r.session_id
                        && (has_label q.label r.matched_labels
                            && (is_expected_option q.error_stage r.error_stage
                                && is_expected_option q.error_kind r.error_kind)))))))

-- `sort_by_key` of `Reverse(record.ts)`, which is stable
unfoldable pub insert_newest : AuditRecord → List AuditRecord → List AuditRecord
insert_newest r [] = r ∷ []
insert_newest r (s ∷ ss) = if leb s.ts r.ts then r ∷ s ∷ ss else s ∷ insert_newest r ss

unfoldable pub sort_newest : List AuditRecord → List AuditRecord
unfolding insert_newest
sort_newest [] = []
sort_newest (r ∷ rs) = insert_newest r (sort_newest rs)

-- `same` is the derived equality of records.
module _ (same : AuditRecord → AuditRecord → Bool) where
  -- `retain` with a set of what was seen
  unfoldable pub retain_first : List AuditRecord → List AuditRecord → List AuditRecord
  retain_first seen [] = []
  retain_first seen (r ∷ rs) = elim (any (same r) seen) [
    | true ↦ retain_first seen rs
    | false ↦ r ∷ retain_first (r ∷ seen) rs
  ]

  abbrev pub file_records : Option (List (Option AuditRecord)) → ℕ → List AuditRecord
  file_records none limit = []
  file_records (some lines) limit = read_recent lines limit

  unfoldable pub records_of :
      AuditSource
      → ℕ
      → AuditStore AuditRecord
      → Option (List (Option AuditRecord))
      → List AuditRecord
  unfolding read_recent sort_newest retain_first
  records_of memory limit store lines = reverse (snapshot store)
  records_of file limit store lines = reverse (file_records lines limit)
  records_of both limit store lines =
      retain_first [] (sort_newest (snapshot store ++ file_records lines limit))

  -- The answer of `admin_audits`.
  unfoldable pub find_audits :
      AuditQuery → AuditStore AuditRecord → Option (List (Option AuditRecord)) → List AuditRecord
  unfolding records_of is_queried parse_audit_source
  find_audits q store lines = take (limit_of q.limit) (
      filter (is_queried q)
        (records_of (parse_audit_source q.source) (limit_of q.limit) store lines))

-- `if payload.approve { Approved } else { Rejected }`
abbrev pub resolution_status : Bool → ReviewStatus
resolution_status true = approved
resolution_status false = rejected

-- After a ticket is resolved, the gauge of the queue is read, which prunes the overrides.
abbrev pub answer_resolved : ℕ → Gateway → ReviewStore × ResolveResult → Gateway × AdminReply
answer_resolved now g (store, resolved_ok ticket) = (
  record g { reviews = record store { inner = (pending_count now store.inner).0 } },
  resolved_ticket ticket,
)
answer_resolved now g (store, Review.refused e) =
    (record g { reviews = store }, review_resolve_failed e)
answer_resolved now g (store, Review.panicked) = (record g { reviews = store }, admin_panicked)

module _ (crates : Tokenize.Crates) (same : AuditRecord → AuditRecord → Bool) where
  abbrev pub opened_or : Tokenized DetokenizedValue → AdminReply
  opened_or (Tokenize.ok value) = opened value
  opened_or (Tokenize.err e) = invalid_token e

  pub admin_detokenize : Option Tokenizer → Text → AdminReply
  unfolding detokenize
  admin_detokenize none token = tokenization_disabled
  admin_detokenize (some t) token = opened_or (detokenize crates t token)

  -- What each handler does for an admin, at the time `now`.
  pub admin_reviews : ℕ → Option ℕ → Option Text → Gateway → Gateway × AdminReply
  unfolding list parse_review_status
  admin_reviews now limit status g =
      let filter_status = parse_review_status status in
      let listed = list now filter_status (limit_of limit) g.reviews.inner in
      (record g { reviews = record g.reviews { inner = listed.0 } }, tickets filter_status listed.1)

  -- `fault` is the failure of an append, if there is one.
  pub admin_reviews_resolve :
      ℕ
      → Option ReviewStoreError
      → AdminRuntime
      → Principal
      → Text
      → Bool
      → Option Text
      → Gateway
      → Gateway × AdminReply
  unfolding resolve pending_count
  admin_reviews_resolve now fault rt principal id approve note g = answer_resolved now g (
      resolve now fault id (resolution_status approve) principal.name note rt.approval_ttl_secs
        g.reviews)

  abbrev pub admin_audits : AdminRuntime → AuditQuery → Gateway → AdminReply
  admin_audits rt q g =
      records (parse_audit_source q.source) (find_audits same q g.audit rt.audit_lines)

  pub carry_out_call :
      ℕ
      → Option ReviewStoreError
      → AdminRuntime
      → Principal
      → AdminCall
      → Gateway
      → Gateway × AdminReply
  unfolding admin_reviews admin_reviews_resolve parse_audit_source find_audits admin_detokenize
  carry_out_call now fault rt principal (reviews limit status) g = admin_reviews now limit status g
  carry_out_call now fault rt principal (resolve_review id approve note) g =
      admin_reviews_resolve now fault rt principal id approve note g
  carry_out_call now fault rt principal (audits q) g = (g, admin_audits rt q g)
  carry_out_call now fault rt principal (detokenize_token token) g =
      (g, admin_detokenize rt.tokenizer token)

  -- The test of the principal, which all handlers begin with.
  pub for_admin :
      ℕ
      → Option ReviewStoreError
      → AdminRuntime
      → AdminCall
      → Gateway
      → AuthResult Principal
      → Gateway × AdminReply
  unfolding carry_out_call text_eq
  for_admin now fault rt call g (Auth.err e) = (g, unauthorized e)
  for_admin now fault rt call g (Auth.ok principal) =
      if text_eq principal.role (bytes "admin")
      then carry_out_call now fault rt principal call g
      else (g, forbidden)

  pub admin_call :
      ℕ → Option ReviewStoreError → AdminRuntime → AdminCall → Gateway → Gateway × AdminReply
  unfolding for_admin
  admin_call now fault rt call g = for_admin now fault rt call g rt.principal
