-- ===== src/Proxy/Request/Forwarded.antt =====
-- src/proxy.rs: what a request must have passed for its body to be sent upstream.
use ctxward.Prelude.{
  ℕ, ◌≤◌, ◌≡◌, refl, ap, sym, ◌∙◌, ◌⊎◌, inl, inr, Bool, true, false, Option, none, some, ◌&&◌,
  text_eq, eq_text, if◌then◌else◌, Text, arith,
}
use ctxward.Core.Session.{SessionConfig}
use ctxward.Core.Types.{DecisionAction, combine, allow, redact, review, block, rank, request}
use ctxward.Core.Types.Order.{rank_injective, rank-allow, rank-redact, rank-combine}
use ctxward.Core.Policy.{PolicyOutcome}
use ctxward.Proxy.Outcome.{OpaOutcome, outcome, opa_error, apply_opa_policy}
use ctxward.Proxy.Outcome.Merge.{apply_opa_policy-stricter}
use ctxward.Review.Tickets.{ReviewTicket, pending, ReviewStoreError}
use ctxward.Review.{
  Inner, get, lookup_override, pending_count, Upserted, upsert_pending, ticket_ok, store_error,
}
use ctxward.Proxy.Request.Audited.{AuditContext}
use ctxward.Proxy.Decide.{
  ProxyRequest, Gateway, ProxyRuntime, review_fingerprint, Decided, decided, undecided,
  record_session, request_decision, review_override, decide_request, decide_outcome, header_ticket,
  override_by_decision, is_own_ticket, with_session, read_gauges,
}
use ctxward.Proxy.Request.{
  new_ticket, forwarded, carry_out, answer_review, answer_upserted, handle_proxy, finish_request,
}

-- The body sent upstream for a decision.
abbrev pub BodyFor : ProxyRequest → DecisionAction → Text → Type 0
BodyFor r decision body =
    ((decision ≡ allow) × (body ≡ r.body))
    ⊎ ((decision ≡ redact) × (body ≡ r.processed.sanitized_body))

-- The answer to a review, whatever the store did, is no body for the upstream.
answer_upserted-refuses :
    (now : ℕ) (r : ProxyRequest) (policy : PolicyOutcome) (context : AuditContext) (g : Gateway)
    (u : Upserted) (body : Text)
    → ¬ ((answer_upserted now r policy context g u).1 ≡ forwarded body)
unfolding answer_upserted
answer_upserted-refuses now r policy context g (store_error err) body h = absurd (ground arith)
answer_upserted-refuses now r policy context g (ticket_ok t) body h = absurd (ground arith)

answer_review-refuses :
    (rt : ProxyRuntime) (now : ℕ) (id : Text) (fault : Option ReviewStoreError) (r : ProxyRequest)
    (policy : PolicyOutcome) (context : AuditContext) (g : Gateway) (body : Text)
    → ¬ ((answer_review rt now id fault r policy context g).1 ≡ forwarded body)
unfolding answer_review
answer_review-refuses rt now id fault r policy context g body =
    let u =
      upsert_pending now id fault (new_ticket rt r policy context.session_escalated) g.reviews in
    answer_upserted-refuses now r policy context (record g { reviews = u.0 }) u.1 body

carry_out-forwards :
    (rt : ProxyRuntime) (now : ℕ) (id : Text) (fault : Option ReviewStoreError) (r : ProxyRequest)
    (policy : PolicyOutcome) (context : AuditContext) (g : Gateway) (body : Text)
    → (carry_out rt now id fault r policy context g).1 ≡ forwarded body
    → BodyFor r policy.decision body
unfolding carry_out
carry_out-forwards rt now id fault r policy context g body =
    elim policy.decision
      as (λ k.
        (carry_out rt now id fault r (record policy { decision = k }) context g).1 ≡ forwarded body
        → BodyFor r k body) [
          | allow ↦ λ h. inl (refl, ground arith)
          | redact ↦ λ h. inr (refl, ground arith)
          | review ↦ λ h. absurd (
              answer_review-refuses rt now id fault r (record policy { decision = review }) context
                g body h)
          | block ↦ λ h. absurd (ground arith)
        ]

finish-forwards :
    (rt : ProxyRuntime) (now : ℕ) (id : Text) (fault : Option ReviewStoreError) (r : ProxyRequest)
    (g : Gateway) (d : Decided) (base : DecisionAction) (body : Text)
    → ((policy : PolicyOutcome) (context : AuditContext)
        → d ≡ decided policy context
        → rank base ≤ rank policy.decision)
    → (finish_request rt now id fault r g d).1 ≡ forwarded body
    → (rank base ≤ rank redact)
      × ((body ≡ r.processed.sanitized_body) ⊎ ((base ≡ allow) × (body ≡ r.body)))
unfolding finish_request
finish-forwards rt now id fault r g (undecided err) base body stricter h = absurd (ground arith)
finish-forwards rt now id fault r g (decided policy context) base body stricter h =
    let le = stricter policy context refl in
    elim (carry_out-forwards rt now id fault r policy context g body h) [
      | inl (a, b) ↦ (
        omega (arith, le, ap rank a, rank-allow, rank-redact),
        inr (rank_injective base allow (omega (arith, le, ap rank a, rank-allow)), b),
      )
      | inr (a, b) ↦ (omega (arith, le, ap rank a), inl b)
    ]

-- A ticket that is missing, or pending, or one of another request.
abbrev pub IsForeign : ProxyRequest → Option ReviewTicket → Type 0
IsForeign r none = Unit
IsForeign r (some t) =
    (t.status ≡ pending)
    ⊎ (text_eq t.principal r.principal.name ≡ false)
    ⊎ (text_eq t.path r.path_and_query ≡ false)
    ⊎ (text_eq t.request_sha256 r.request_sha256 ≡ false)

abbrev pub HasNoTicket : ℕ → ProxyRequest → Inner → Option Text → Type 0
HasNoTicket now r s none = Unit
HasNoTicket now r s (some id) = IsForeign r (get now id s).1

-- The header names no ticket or a foreign one, and nothing is stored under the request's
-- fingerprint.
pub record IsNotOverridden (rt : ProxyRuntime) (now : ℕ) (r : ProxyRequest) (g : Gateway)
    : Type 0 where
  pub no_ticket : HasNoTicket now r (pending_count now g.reviews.inner).0 r.review_ticket_header
  pub no_decision :
      (lookup_override now
        (review_fingerprint rt.sha256_hex r.principal r.path_and_query r.request_sha256)
        (header_ticket now r (pending_count now g.reviews.inner).0).0).1
      ≡ none

and_false : (a : Bool) → (a && false) ≡ false
and_false true = refl
and_false false = refl

foreign-is_own_ticket :
    (r : ProxyRequest) (t : ReviewTicket) → IsForeign r (some t) → is_own_ticket r t ≡ false
unfolding is_own_ticket
foreign-is_own_ticket r t (inl e) = rw (is_own_ticket, e) refl
foreign-is_own_ticket r t (inr (inl e)) = rw (is_own_ticket, e) (and_false _)
foreign-is_own_ticket r t (inr (inr (inl e))) = rw (is_own_ticket, e, and_false) (and_false _)
foreign-is_own_ticket r t (inr (inr (inr e))) =
    rw (is_own_ticket, e, and_false, and_false) (and_false _)

found-none :
    (r : ProxyRequest) (o : Option ReviewTicket)
    → IsForeign r o
    → ◌≡◌ {A = Option ReviewTicket}
        (elim o [ none ↦ none | some t ↦ if is_own_ticket r t then some t else none ])
        none
found-none r none h = refl
found-none r (some t) h = rw (foreign-is_own_ticket r t h) refl

header_ticket-foreign :
    (now : ℕ) (r : ProxyRequest) (s : Inner) (o : Option Text)
    → r.review_ticket_header ≡ o
    → HasNoTicket now r s o
    → (header_ticket now r s).1 ≡ none
unfolding header_ticket
header_ticket-foreign now r s none e h = rw (header_ticket, e) refl
header_ticket-foreign now r s (some id) e h =
    rw (header_ticket, e) (found-none r (get now id s).1 h)

-- The built-in decision, with the session's.
abbrev pub session_decision : ProxyRuntime → ℕ → ProxyRequest → Gateway → DecisionAction
session_decision rt now r g =
    request_decision rt.session (record_session rt.session now r g.sessions).1
      r.processed.policy.decision

pub header_ticket-none :
    (now : ℕ) (r : ProxyRequest) (s : Inner)
    → r.review_ticket_header ≡ none
    → header_ticket now r s ≡ (s, none)
unfolding header_ticket
header_ticket-none now r s h = rw (header_ticket, h) refl

review_override-none :
    (now : ℕ) (fingerprint : Text) (r : ProxyRequest) (policy : PolicyOutcome) (s : Inner)
    → (header_ticket now r s).1 ≡ none
    → (lookup_override now fingerprint (header_ticket now r s).0).1 ≡ none
    → (review_override now fingerprint r policy s).1 ≡ policy
unfolding review_override override_by_decision
review_override-none now fingerprint r policy s no_ticket no_decision =
    rw (review_override, no_ticket, no_decision) refl

decide_outcome-stricter :
    (rt : ProxyRuntime) (now : ℕ) (r : ProxyRequest) (escalated : Bool) (g : Gateway)
    (o : OpaOutcome) (base : DecisionAction) (policy : PolicyOutcome) (context : AuditContext)
    → (header_ticket now r g.reviews.inner).1 ≡ none
    → (lookup_override now
        (review_fingerprint rt.sha256_hex r.principal r.path_and_query r.request_sha256)
        (header_ticket now r g.reviews.inner).0).1
      ≡ none
    → ((p : PolicyOutcome) → o ≡ outcome p → rank base ≤ rank p.decision)
    → (decide_outcome rt now r escalated g o).1 ≡ decided policy context
    → rank base ≤ rank policy.decision
unfolding decide_outcome
decide_outcome-stricter rt now r escalated g (opa_error err) base policy context t d stricter h =
    absurd (ground arith)
decide_outcome-stricter rt now r escalated g (outcome p) base policy context t d stricter h =
    let kept =
      review_override-none now
        (review_fingerprint rt.sha256_hex r.principal r.path_and_query r.request_sha256) r p
        g.reviews.inner t d in
    let same : (review_override now
          (review_fingerprint rt.sha256_hex r.principal r.path_and_query r.request_sha256) r p
          g.reviews.inner).1
        ≡ policy =
      ground arith in
    omega (arith, stricter p refl, ap (λ q. rank q.decision) (sym kept ∙ same))

decide_request-stricter :
    (rt : ProxyRuntime) (now : ℕ) (r : ProxyRequest) (g : Gateway) (policy : PolicyOutcome)
    (context : AuditContext)
    → IsNotOverridden rt now r g
    → (decide_request rt now r g).1 ≡ decided policy context
    → rank (session_decision rt now r g) ≤ rank policy.decision
unfolding decide_request read_gauges
decide_request-stricter rt now r g policy context n h =
    let session = record_session rt.session now r g.sessions in
    let base = with_session rt.session session.1 r.processed.policy in
    decide_outcome-stricter rt now r session.1 (read_gauges rt.session now session.0 g)
      (apply_opa_policy rt.opa r.principal request r.path_and_query session.1 base) base.decision
      policy context
      (header_ticket-foreign now r (pending_count now g.reviews.inner).0 r.review_ticket_header refl
        n.no_ticket)
      n.no_decision
      (λ p e.
        (apply_opa_policy-stricter rt.opa r.principal request r.path_and_query session.1 base p
          e).0)
      h

handle_proxy-session :
    (rt : ProxyRuntime) (now : ℕ) (id : Text) (fault : Option ReviewStoreError) (r : ProxyRequest)
    (g : Gateway) (body : Text)
    → IsNotOverridden rt now r g
    → (handle_proxy rt now id fault r g).1 ≡ forwarded body
    → (rank (session_decision rt now r g) ≤ rank redact)
      × ((body ≡ r.processed.sanitized_body)
          ⊎ ((session_decision rt now r g ≡ allow) × (body ≡ r.body)))
unfolding handle_proxy
handle_proxy-session rt now id fault r g body n h =
    let step = decide_request rt now r g in
    finish-forwards rt now id fault r step.0 step.1 (session_decision rt now r g) body
      (λ policy context e. decide_request-stricter rt now r g policy context n e) h

-- What the decision on the content and the escalation of the session let through.
abbrev pub IsLetThrough : DecisionAction → DecisionAction → Bool → ProxyRequest → Text → Type 0
IsLetThrough builtin trigger escalated r body =
    (rank builtin ≤ rank redact)
    × ((escalated ≡ false) ⊎ (rank trigger ≤ rank redact))
    × ((body ≡ r.processed.sanitized_body)
        ⊎ ((builtin ≡ allow) × ((escalated ≡ false) ⊎ (trigger ≡ allow)) × (body ≡ r.body)))

below-left : (a b : DecisionAction) (n : ℕ) → rank (combine a b) ≤ n → rank a ≤ n
below-left a b n h = omega (arith, h, rank-combine a b)

below-right : (a b : DecisionAction) (n : ℕ) → rank (combine a b) ≤ n → rank b ≤ n
below-right a b n h = omega (arith, h, rank-combine a b)

at-allow : (a : DecisionAction) → rank a ≤ 0 → a ≡ allow
at-allow a h = rank_injective a allow (omega (arith, h, rank-allow))

combined-IsLetThrough :
    (config : SessionConfig) (builtin : DecisionAction) (escalated : Bool) (r : ProxyRequest)
    (body : Text)
    → rank (request_decision config escalated builtin) ≤ rank redact
    → (body ≡ r.processed.sanitized_body)
      ⊎ ((request_decision config escalated builtin ≡ allow) × (body ≡ r.body))
    → IsLetThrough builtin config.trigger_action escalated r body
unfolding request_decision
combined-IsLetThrough config builtin false r body le (inl b) = (le, inl refl, inl b)
combined-IsLetThrough config builtin false r body le (inr (a, b)) =
    (le, inl refl, inr (a, inl refl, b))
combined-IsLetThrough config builtin true r body le (inl b) =
    let t = config.trigger_action in
    (below-left builtin t (rank redact) le, inr (below-right builtin t (rank redact) le), inl b)
combined-IsLetThrough config builtin true r body le (inr (a, b)) =
    let t = config.trigger_action in
    let zero : rank (combine builtin t) ≤ 0 = omega (arith, ap rank a, rank-allow) in
    (
      below-left builtin t (rank redact) le,
      inr (below-right builtin t (rank redact) le),
      inr (
        at-allow builtin (below-left builtin t 0 zero),
        inr (at-allow t (below-right builtin t 0 zero)),
        b,
      ),
    )

-- A request that no review overrides is sent upstream only if the decision on its content neither
-- blocks it nor asks for a review, and neither does the action of the session's trigger where the
-- session's turn escalates; and the body that is sent is the sanitized one, unless the content is
-- allowed, and the session's turn does not escalate or its trigger's action is to allow too. No
-- review overrides it also where the header names a ticket that is missing, pending or not of this
-- request.
pub handle_proxy-forwards :
    (rt : ProxyRuntime) (now : ℕ) (id : Text) (fault : Option ReviewStoreError) (r : ProxyRequest)
    (g : Gateway) (body : Text)
    → IsNotOverridden rt now r g
    → (handle_proxy rt now id fault r g).1 ≡ forwarded body
    → IsLetThrough r.processed.policy.decision rt.session.trigger_action
        (record_session rt.session now r g.sessions).1
        r
        body
handle_proxy-forwards rt now id fault r g body n h =
    let s = handle_proxy-session rt now id fault r g body n h in
    combined-IsLetThrough rt.session r.processed.policy.decision
      (record_session rt.session now r g.sessions).1 r body s.0 s.1
