-- ===== src/Review/Lifecycle.antt =====
-- src/review.rs: a ticket from its resolution to the expiry of its override.
use ctxward.Prelude.{
  ℕ, ◌+◌, Option-cases, inl, inr, ◌≡◌, Bool, Option, none, some, Text, ltb, eq_text, text_eq_refl,
  ap, refl, [], ◌∷◌, ◌++◌, arith, if◌then◌else◌,
}
use ctxward.Prelude.Table
use ctxward.Prelude.Table.{Table, get-insert, get-retain-insert}
use ctxward.Review.Tickets.{
  ReviewStatus, pending, approved, rejected, ReviewTicket, ReviewDecisionOverride, Resolved,
  StoredOverride, ReviewStoreError, resolved, resolve_ticket, override_for, already_resolved,
}
use ctxward.Review.{
  Inner, ReviewStore, prune_expired_overrides, store_override, unlist_pending, lookup_override,
  put_ticket, resolved_ok, ResolveResult, panicked, refused, finish_resolve, resolve_found,
  resolution, resolve, seconds,
}

pub get_self :
    (id : Text) (t : ReviewTicket) (ts : Table Text ReviewTicket)
    → Table.get id (Table.insert id t ts) ≡ some t
get_self id t ts = ground (arith, get-insert id id t ts, text_eq_refl id)

keep_decision :
    {o : Option StoredOverride} (v : StoredOverride) (b : Bool)
    → o ≡ (if b then some v else none)
    → elim o as (λ _. Option ReviewDecisionOverride) [ none ↦ none | some s ↦ some s.decision ]
      ≡ (if b then some v.decision else none)
keep_decision v b h = ground (arith, h)

store_override-tickets :
    (r : Resolved) (t : ReviewTicket) (s : Inner) → (store_override r t s).tickets ≡ s.tickets
unfolding store_override
store_override-tickets r t s = elim (Option-cases (override_for r t)) [
  | inl e ↦ rw (store_override, e) refl
  | inr (o, e) ↦ rw (store_override, e) refl
]

IsSettled : ReviewStatus → Type 0
IsSettled pending = ⊥
IsSettled approved = Unit
IsSettled rejected = Unit

resolve_found-settled :
    (fault : Option ReviewStoreError) (r : Resolved) (t : ReviewTicket) (store : ReviewStore)
    (k : ReviewStatus)
    → t.status ≡ k
    → IsSettled k
    → resolve_found fault r t store ≡ (store, refused (already_resolved k))
unfolding resolve_found IsSettled
resolve_found-settled fault r t store pending e k = absurd k
resolve_found-settled fault r t store approved e k = rw (resolve_found, e) refl
resolve_found-settled fault r t store rejected e k = rw (resolve_found, e) refl

override_for-IsSettled :
    (r : Resolved) (t : ReviewTicket) (d : ReviewDecisionOverride) (k : ReviewStatus)
    → r.status ≡ k
    → override_for r t ≡ some d
    → IsSettled k
unfolding override_for IsSettled
override_for-IsSettled r t d pending e h = absurd (ground arith)
override_for-IsSettled r t d approved e h = tt
override_for-IsSettled r t d rejected e h = tt

-- The ticket is there and waits for its resolution.
pub record IsWaiting (store : ReviewStore) (id : Text) (ticket : ReviewTicket) : Type 0 where
  pub found : Table.get id store.inner.tickets ≡ some ticket
  pub waiting : ticket.status ≡ pending

module _ (now ttl_secs : ℕ) (id by : Text) (note : Option Text) (status : ReviewStatus)
    (store : ReviewStore) (ticket : ReviewTicket) (decision : ReviewDecisionOverride) where
  abbrev the_resolution : Resolved
  the_resolution = resolution now id status by note ttl_secs

  abbrev the_ticket : ReviewTicket
  the_ticket = resolve_ticket the_resolution ticket

  abbrev put : Inner
  put = put_ticket id the_ticket (prune_expired_overrides now store.inner)

  -- The store after the resolution.
  abbrev pub after : ReviewStore
  after = record {
    inner = store_override the_resolution the_ticket (unlist_pending the_ticket.fingerprint put);
    log = store.log ++ resolved the_resolution ∷ [];
  }

  abbrev pub IsDecided : Type 0
  IsDecided = override_for the_resolution the_ticket ≡ some decision

  finish_resolve-decided :
      (st : ReviewStore)
      → IsDecided
      → finish_resolve the_resolution the_ticket st ≡ (
        record st {
          inner =
              store_override the_resolution the_ticket
                (unlist_pending the_ticket.fingerprint st.inner);
        },
        resolved_ok the_ticket,
      )
  unfolding finish_resolve
  finish_resolve-decided st d =
      ap
        (λ (o : Option ReviewDecisionOverride). elim o as (λ _. ReviewStore × ResolveResult) [
          | none ↦ (record st { inner = unlist_pending the_ticket.fingerprint st.inner }, panicked)
          | some _ ↦ (
            record st {
              inner =
                  store_override the_resolution the_ticket
                    (unlist_pending the_ticket.fingerprint st.inner);
            },
            resolved_ok the_ticket,
          )
        ])
        d

  resolve_found-decided :
      ticket.status ≡ pending
      → IsDecided
      → resolve_found none the_resolution ticket
          (record store { inner = prune_expired_overrides now store.inner })
        ≡ (after, resolved_ok the_ticket)
  unfolding resolve_found
  resolve_found-decided w d =
      simp (resolve_found, w)
        (finish_resolve-decided
          (record { inner = put; log = store.log ++ resolved the_resolution ∷ [] }) d)

  pub resolve-decided :
      IsWaiting store id ticket
      → IsDecided
      → resolve now none id status by note ttl_secs store ≡ (after, resolved_ok the_ticket)
  unfolding resolve prune_expired_overrides
  resolve-decided w d = rw (resolve, w.found) (resolve_found-decided w.waiting d)

  -- A waiting ticket that is approved or rejected, with the event written, answers for its
  -- fingerprint: a later lookup gives the decision until the time to live is over, and nothing
  -- from then on.
  pub resolve-lookup_override :
      (later : ℕ)
      → IsWaiting store id ticket
      → IsDecided
      → (lookup_override later ticket.fingerprint
          (resolve now none id status by note ttl_secs store).0.inner).1
        ≡ (if ltb later (now + seconds ttl_secs) then some decision else none)
  unfolding lookup_override store_override prune_expired_overrides resolve_ticket
  resolve-lookup_override later w d =
      rw (resolve-decided w d, lookup_override, store_override, d)
        (keep_decision (record { decision = decision; expires_at = now + seconds ttl_secs })
          (ltb later (now + seconds ttl_secs))
          (get-retain-insert (λ k o. ltb later o.expires_at) ticket.fingerprint
            (record { decision = decision; expires_at = now + seconds ttl_secs })
            (unlist_pending the_ticket.fingerprint put).overrides_by_fingerprint))

  -- Whoever resolves it once more, whenever and as whatever, is told how it was resolved, and
  -- changes no ticket and writes nothing.
  pub resolve-again :
      (later ttl' : ℕ) (fault : Option ReviewStoreError) (by' : Text) (note' : Option Text)
      (status' : ReviewStatus)
      → IsWaiting store id ticket
      → IsDecided
      → let once = (resolve now none id status by note ttl_secs store).0 in
        let twice = resolve later fault id status' by' note' ttl' once in
        (twice.1 ≡ refused (already_resolved status))
        × (twice.0.log ≡ once.log)
        × (twice.0.inner.tickets ≡ once.inner.tickets)
  unfolding resolve prune_expired_overrides unlist_pending Table.get
  resolve-again later ttl' fault by' note' status' w d =
      let kept : after.inner.tickets ≡ Table.insert id the_ticket store.inner.tickets =
        store_override-tickets the_resolution the_ticket
          (unlist_pending the_ticket.fingerprint put) in
      let found : Table.get id after.inner.tickets ≡ some the_ticket =
        rw kept (get_self id the_ticket store.inner.tickets) in
      let refusal =
        resolve_found-settled fault (resolution later id status' by' note' ttl') the_ticket
          (record after { inner = prune_expired_overrides later after.inner }) status refl
          (override_for-IsSettled the_resolution the_ticket decision status refl d) in
      rw (resolve-decided w d, found, refusal) (refl, refl, refl)
