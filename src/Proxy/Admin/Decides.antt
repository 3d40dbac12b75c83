-- ===== src/Proxy/Admin/Decides.antt =====
-- src/proxy.rs: from an admin's decision on a ticket to the answer to the next request.
use ctxward.Prelude.{
  ℕ, ◌+◌, ◌≤◌, ◌<◌, ◌≡◌, refl, sym, ap, ◌∙◌, Bool, Option, none, some, Text, bytes, text_eq_iff,
  eq_text, ltb, lt→ltb, ltb→lt, arith,
}
use ctxward.Prelude.Table
use ctxward.Prelude.Table.{retain-retain}
use ctxward.Core.Auth.{Principal}
use ctxward.Core.Auth
use ctxward.Core.Types.{request}
use ctxward.Core.Policy.{PolicyOutcome}
use ctxward.Core.Tokenize.{Crates}
use ctxward.Audit.{AuditRecord}
use ctxward.Review.Tickets.{ReviewTicket, ReviewDecisionOverride, StoredOverride, ReviewStoreError}
use ctxward.Review.{
  Inner, ReviewStore, ResolveResult, resolved_ok, prune_expired_overrides, lookup_override,
  pending_count, resolve, seconds,
}
use ctxward.Review
use ctxward.Review.Lifecycle.{IsWaiting, IsDecided, resolve-lookup_override}
use ctxward.Proxy.Outcome.{outcome, apply_opa_policy}
use ctxward.Proxy.Decide.{
  ProxyRequest, Gateway, ProxyRuntime, record_session, with_session, review_fingerprint,
}
use ctxward.Proxy.Request.{ProxyResult, handle_proxy}
use ctxward.Proxy.Request.Override.{answer_to, handle_proxy-decided}
use ctxward.Proxy.Admin.{
  resolve_review, AdminReply, AdminRuntime, resolution_status, answer_resolved, carry_out_call,
  admin_reviews_resolve, for_admin, admin_call,
}

-- Overrides that were over before do not count later.
lookup_override-pruned :
    (now later : ℕ) (fingerprint : Text) (s : Inner)
    → now ≤ later
    → (lookup_override later fingerprint (prune_expired_overrides now s)).1
      ≡ (lookup_override later fingerprint s).1
unfolding lookup_override prune_expired_overrides
lookup_override-pruned now later fingerprint s h =
    ap
      (λ (t : Table.Table Text StoredOverride).
        elim (Table.get fingerprint t) as (λ _. Option ReviewDecisionOverride) [
          | none ↦ none
          | some o ↦ some o.decision
        ])
      (retain-retain (λ k (o : StoredOverride). ltb now o.expires_at)
        (λ k (o : StoredOverride). ltb later o.expires_at) s.overrides_by_fingerprint
        (λ k o e. lt→ltb now o.expires_at (omega (arith, h, ltb→lt later o.expires_at e))))

pending_count-pruned :
    (now later : ℕ) (fingerprint : Text) (s : Inner)
    → now ≤ later
    → (lookup_override later fingerprint (pending_count now s).0).1
      ≡ (lookup_override later fingerprint s).1
unfolding pending_count
pending_count-pruned now later fingerprint s h = lookup_override-pruned now later fingerprint s h

answer_resolved-lookup :
    (now later : ℕ) (fingerprint : Text) (g : Gateway) (store : ReviewStore) (o : ResolveResult)
    → now ≤ later
    → (lookup_override later fingerprint (answer_resolved now g (store, o)).0.reviews.inner).1
      ≡ (lookup_override later fingerprint store.inner).1
answer_resolved-lookup now later fingerprint g store (resolved_ok t) h =
    pending_count-pruned now later fingerprint store.inner h
answer_resolved-lookup now later fingerprint g store (Review.refused e) h = refl
answer_resolved-lookup now later fingerprint g store Review.panicked h = refl

answer_resolved-sessions :
    (now : ℕ) (g : Gateway) (o : ReviewStore × ResolveResult)
    → (answer_resolved now g o).0.sessions ≡ g.sessions
answer_resolved-sessions now g (store, resolved_ok t) = refl
answer_resolved-sessions now g (store, Review.refused e) = refl
answer_resolved-sessions now g (store, Review.panicked) = refl

module _ (crates : Crates) (same : AuditRecord → AuditRecord → Bool) (now : ℕ) (art : AdminRuntime)
    (p : Principal) (id : Text) (approve : Bool) (note : Option Text) (g : Gateway) where
  for_admin-resolves :
      art.principal ≡ Auth.ok p
      → p.role ≡ bytes "admin"
      → admin_call crates same now none art (resolve_review id approve note) g
        ≡ answer_resolved now g (
            resolve now none id
              (resolution_status approve)
              p.name
              note
              art.approval_ttl_secs
              g.reviews)
  unfolding admin_call for_admin carry_out_call admin_reviews_resolve
  for_admin-resolves a r =
      ap (for_admin crates same now none art (resolve_review id approve note) g) a
      ∙ rw ((text_eq_iff p.role (bytes "admin")).1 r) refl

  module _ (later : ℕ) (rt : ProxyRuntime) (r : ProxyRequest) (ticket : ReviewTicket)
      (d : ReviewDecisionOverride) where
    abbrev gateway : Gateway
    gateway = (admin_call crates same now none art (resolve_review id approve note) g).0

    abbrev decided_store : ReviewStore
    decided_store =
        (resolve now none id (resolution_status approve) p.name note art.approval_ttl_secs
          g.reviews).0

    admin_call-lookup :
        art.principal ≡ Auth.ok p
        → p.role ≡ bytes "admin"
        → now ≤ later
        → later < now + seconds art.approval_ttl_secs
        → IsWaiting g.reviews id ticket
        → IsDecided now art.approval_ttl_secs id p.name note
            (resolution_status approve)
            g.reviews
            ticket
            d
        → (lookup_override later ticket.fingerprint (pending_count later gateway.reviews.inner).0).1
          ≡ some d
    admin_call-lookup a role t soon w decided =
        let o =
          resolve now none id (resolution_status approve) p.name note art.approval_ttl_secs
            g.reviews in
        pending_count-pruned later later ticket.fingerprint gateway.reviews.inner (omega arith)
        ∙ ap
            (λ (x : Gateway × AdminReply).
              (lookup_override later ticket.fingerprint x.0.reviews.inner).1)
            (for_admin-resolves a role)
        ∙ answer_resolved-lookup now later ticket.fingerprint g o.0 o.1 t
        ∙ resolve-lookup_override now art.approval_ttl_secs id p.name note
            (resolution_status approve) g.reviews ticket d later w decided
        ∙ rw (lt→ltb later (now + seconds art.approval_ttl_secs) soon) refl

    -- If an admin approves or rejects a waiting ticket, with the event written, then the next request
    -- with the fingerprint of the ticket, without a ticket of its own and within the time to live, gets
    -- that decision, unless OPA fails: it is blocked, or its body or its sanitized body is sent.
    pub admin_call-handle_proxy :
        (id' : Text) (fault : Option ReviewStoreError) (policy : PolicyOutcome)
        (answer : ProxyResult)
        → art.principal ≡ Auth.ok p
        → p.role ≡ bytes "admin"
        → now ≤ later
        → later < now + seconds art.approval_ttl_secs
        → IsWaiting g.reviews id ticket
        → IsDecided now art.approval_ttl_secs id p.name note
            (resolution_status approve)
            g.reviews
            ticket
            d
        → ticket.fingerprint
          ≡ review_fingerprint rt.sha256_hex r.principal r.path_and_query r.request_sha256
        → r.review_ticket_header ≡ none
        → (let escalated = (record_session rt.session later r gateway.sessions).1 in
            apply_opa_policy rt.opa r.principal request r.path_and_query escalated
              (with_session rt.session escalated r.processed.policy))
          ≡ outcome policy
        → answer_to r d ≡ some answer
        → (handle_proxy rt later id' fault r gateway).1 ≡ answer
    admin_call-handle_proxy id' fault policy answer a role t soon w decided f no_ticket o answers =
        handle_proxy-decided rt later id' fault r gateway policy d answer no_ticket
          (ap (λ x. (lookup_override later x (pending_count later gateway.reviews.inner).0).1)
              (sym f)
            ∙ admin_call-lookup a role t soon w decided)
          o answers
