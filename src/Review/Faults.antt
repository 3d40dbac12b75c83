-- ===== src/Review/Faults.antt =====
-- src/review.rs: a resolution whose event cannot be written.
use ctxward.Prelude.{ℕ, ◌≡◌, refl, ap, ◌∙◌, Option, some, Text, eq_text}
use ctxward.Prelude.Table
use ctxward.Prelude.Table.{Table, get-insert}
use ctxward.Review.Tickets.{
  ReviewStatus, ReviewTicket, NewReviewTicket, ReviewStoreError, not_found, resolve_ticket,
}
use ctxward.Review.{
  ReviewStore, ticket_ok, refused, put_ticket, prune_expired_overrides, find_pending,
  upsert_pending, resolve_found, resolution, resolve,
}
use ctxward.Review.Lifecycle.{IsWaiting, get_self}

module _ (now ttl_secs : ℕ) (id by : Text) (note : Option Text) (status : ReviewStatus)
    (error : ReviewStoreError) (store : ReviewStore) (ticket : ReviewTicket) where
  abbrev the_ticket : ReviewTicket
  the_ticket = resolve_ticket (resolution now id status by note ttl_secs) ticket

  -- The store after the resolution failed.
  abbrev failed : ReviewStore
  failed = record store {
    inner = put_ticket id the_ticket (prune_expired_overrides now store.inner);
  }

  resolve-failed :
      IsWaiting store id ticket
      → resolve now (some error) id status by note ttl_secs store ≡ (failed, refused not_found)
  unfolding resolve resolve_found
  resolve-failed w = rw (resolve, w.found) (rw (resolve_found, w.waiting) refl)

  found_again :
      (later : ℕ)
      → Table.get ticket.fingerprint store.inner.pending_by_fingerprint ≡ some id
      → find_pending ticket.fingerprint (prune_expired_overrides later failed.inner)
        ≡ some the_ticket
  unfolding find_pending prune_expired_overrides
  found_again later i = rw (find_pending, i) (get_self id the_ticket store.inner.tickets)

  -- The operator is told that the ticket is not there, and nothing is written; yet the ticket is
  -- resolved in memory: while it is in the index, a new request with its fingerprint gets no
  -- ticket that waits, but this resolved one.
  pub resolve-append_fails :
      (later : ℕ) (id' : Text) (fault' : Option ReviewStoreError) (n : NewReviewTicket)
      → IsWaiting store id ticket
      → Table.get ticket.fingerprint store.inner.pending_by_fingerprint ≡ some id
      → n.fingerprint ≡ ticket.fingerprint
      → let r = resolve now (some error) id status by note ttl_secs store in
        (r.1 ≡ refused not_found)
        × (r.0.log ≡ store.log)
        × ((upsert_pending later id' fault' n r.0).1 ≡ ticket_ok the_ticket)
  unfolding upsert_pending
  resolve-append_fails later id' fault' n w i same =
      let again : find_pending n.fingerprint (prune_expired_overrides later failed.inner)
          ≡ some the_ticket =
        ap (λ f. find_pending f (prune_expired_overrides later failed.inner)) same
        ∙ found_again later i in
      rw (resolve-failed w) (refl, refl, rw (upsert_pending, again) refl)
