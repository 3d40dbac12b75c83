-- ===== src/Review/Steps.antt =====
-- src/review.rs: runs of the store, and what holds of it after every one.
use ctxward.Prelude.{
  ℕ, max, ◌≡◌, ◌++◌, refl, Option-cases, inl, inr, Option, none, some, [], ◌∷◌, Text, eq_text,
  arith, ◌≤◌,
}
use ctxward.Prelude.Table
use ctxward.Review.Tickets.{
  ReviewStatus, pending, approved, rejected, ReviewTicket, NewReviewTicket, ReviewStoreError,
  Resolved, new_pending, resolve_ticket, override_for, created,
}
use ctxward.Review.{
  Inner, ReviewStore, prune_expired_overrides, find_pending, upsert_pending, lookup_override, get,
  pending_count, unlist_pending, store_override, finish_resolve, resolve_found, resolution, resolve,
  set_capacity, trim_to_capacity,
}
use ctxward.Review.Bounds.{IsBounded, trim_to_capacity-IsBounded}
use ctxward.Review.Index.{
  IsIndexed, put_ticket-Listed, create-Listed, prune-IsIndexed, trim_to_capacity-IsIndexed,
}

-- A call on the store by a request, an operator or a reload. The UUID of a new ticket is new, a
-- resolution is not as pending (its handlers are `approve` and `reject`), and its event is written.
pub data Step : ReviewStore → ReviewStore → Type 0 where
  upsert_step :
      (now : ℕ) (id : Text) (fault : Option ReviewStoreError) (n : NewReviewTicket)
      (s : ReviewStore)
      → Table.get id s.inner.tickets ≡ none
      → Step s (upsert_pending now id fault n s).0
  resolve_step :
      (now ttl : ℕ) (id by : Text) (note : Option Text) (status : ReviewStatus) (s : ReviewStore)
      → Step s (resolve now none id status by note ttl s).0
  lookup_step :
      (now : ℕ) (fingerprint : Text) (s : ReviewStore)
      → Step s (record s { inner = (lookup_override now fingerprint s.inner).0 })
  get_step :
      (now : ℕ) (id : Text) (s : ReviewStore) → Step s (record s { inner = (get now id s.inner).0 })
  count_step :
      (now : ℕ) (s : ReviewStore) → Step s (record s { inner = (pending_count now s.inner).0 })
  capacity_step :
      (capacity : ℕ) (s : ReviewStore) → Step s (record s { inner = set_capacity capacity s.inner })

-- Any number of calls.
pub data Run : ReviewStore → ReviewStore → Type 0 where
  done : (s : ReviewStore) → Run s s
  next : (s t u : ReviewStore) → Step s t → Run t u → Run s u

pub record IsOk (s : ReviewStore) : Type 0 where
  pub bounded : IsBounded s.inner
  pub indexed : IsIndexed s.inner

prune-IsBounded : (now : ℕ) (s : Inner) → IsBounded s → IsBounded (prune_expired_overrides now s)
unfolding prune_expired_overrides
prune-IsBounded now s h = record { positive = h.positive; listed = h.listed }

-- The store after a lookup.
prune-IsOk :
    (now : ℕ) (s : ReviewStore)
    → IsOk s
    → IsOk (record s { inner = prune_expired_overrides now s.inner })
prune-IsOk now s h = record {
  bounded = prune-IsBounded now s.inner h.bounded;
  indexed = prune-IsIndexed now s.inner h.indexed;
}

trim-IsOk :
    (s : ReviewStore)
    → 1 ≤ s.inner.capacity
    → IsIndexed s.inner
    → IsOk (record s { inner = trim_to_capacity s.inner })
trim-IsOk s positive h = record {
  bounded = trim_to_capacity-IsBounded s.inner positive;
  indexed = trim_to_capacity-IsIndexed s.inner h;
}

-- The store with a new ticket, before the oldest ones go.
abbrev added : ℕ → Text → NewReviewTicket → ReviewStore → ReviewStore
added now id n s =
    let inner = prune_expired_overrides now s.inner in
    record {
      inner = record inner {
        order = inner.order ++ id ∷ [];
        tickets = Table.insert id (new_pending id now n) inner.tickets;
        pending_by_fingerprint = Table.insert n.fingerprint id inner.pending_by_fingerprint;
      };
      log = s.log ++ created (new_pending id now n) ∷ [];
    }

upsert-IsOk :
    (now : ℕ) (id : Text) (fault : Option ReviewStoreError) (n : NewReviewTicket) (s : ReviewStore)
    → Table.get id s.inner.tickets ≡ none
    → IsOk s
    → IsOk (upsert_pending now id fault n s).0
unfolding upsert_pending prune_expired_overrides new_pending
upsert-IsOk now id (some f) n s fresh h =
    elim (Option-cases (find_pending n.fingerprint (prune_expired_overrides now s.inner))) [
      | inr (t, e) ↦ rw (upsert_pending, e) (prune-IsOk now s h)
      | inl e ↦ rw (upsert_pending, e) (prune-IsOk now s h)
    ]
upsert-IsOk now id none n s fresh h =
    elim (Option-cases (find_pending n.fingerprint (prune_expired_overrides now s.inner))) [
      | inr (t, e) ↦ rw (upsert_pending, e) (prune-IsOk now s h)
      | inl e ↦
          rw (upsert_pending, e)
            (trim-IsOk (added now id n s) h.bounded.positive (record {
              listed =
                  create-Listed s.inner.tickets s.inner.pending_by_fingerprint id
                    (new_pending id now n) fresh refl h.indexed.listed;
            }))
    ]

store_override-IsOk :
    (r : Resolved) (t : ReviewTicket) (s : ReviewStore)
    → IsOk s
    → IsOk (record s { inner = store_override r t s.inner })
unfolding store_override
store_override-IsOk r t s h = elim (Option-cases (override_for r t)) [
  | inl e ↦ rw (store_override, e) h
  | inr (o, e) ↦
      rw (store_override, e)
        (record {
          bounded = record { positive = h.bounded.positive; listed = h.bounded.listed };
          indexed = record { listed = h.indexed.listed };
        })
]

finish_resolve-IsOk :
    (r : Resolved) (t : ReviewTicket) (s : ReviewStore)
    → IsOk (record s { inner = unlist_pending t.fingerprint s.inner })
    → IsOk (finish_resolve r t s).0
unfolding finish_resolve
finish_resolve-IsOk r t s h = elim (Option-cases (override_for r t)) [
  | inl e ↦ rw (finish_resolve, e) h
  | inr (o, e) ↦ rw (finish_resolve, e) (store_override-IsOk r t _ h)
]

resolve_found-IsOk :
    (r : Resolved) (t : ReviewTicket) (s : ReviewStore)
    → Table.get r.ticket_id s.inner.tickets ≡ some t
    → IsOk s
    → IsOk (resolve_found none r t s).0
unfolding resolve_found unlist_pending resolve_ticket
resolve_found-IsOk r t s e h =
    elim t.status as (λ k. IsOk (resolve_found none r (record t { status = k }) s).0) [
      | pending ↦ finish_resolve-IsOk r _ _ (record {
        bounded = record { positive = h.bounded.positive; listed = h.bounded.listed };
        indexed = record {
          listed =
              put_ticket-Listed s.inner.tickets s.inner.pending_by_fingerprint r.ticket_id t
                (resolve_ticket r t) e h.indexed.listed;
        };
      })
      | approved ↦ h
      | rejected ↦ h
    ]

resolve-IsOk :
    (now ttl : ℕ) (id by : Text) (note : Option Text) (status : ReviewStatus) (s : ReviewStore)
    → IsOk s
    → IsOk (resolve now none id status by note ttl s).0
unfolding resolve prune_expired_overrides
resolve-IsOk now ttl id by note status s h = elim (Option-cases (Table.get id s.inner.tickets)) [
  | inl e ↦ rw (resolve, e) (prune-IsOk now s h)
  | inr (t, e) ↦
      rw (resolve, e)
        (resolve_found-IsOk (resolution now id status by note ttl) t
          (record s { inner = prune_expired_overrides now s.inner }) e (prune-IsOk now s h))
]

Step-IsOk : (s t : ReviewStore) → Step s t → IsOk s → IsOk t
unfolding lookup_override get pending_count set_capacity
Step-IsOk s t (upsert_step now id fault n s' fresh) h = upsert-IsOk now id fault n s' fresh h
Step-IsOk s t (resolve_step now ttl id by note status s') h =
    resolve-IsOk now ttl id by note status s' h
Step-IsOk s t (lookup_step now f s') h = prune-IsOk now s' h
Step-IsOk s t (get_step now id s') h = prune-IsOk now s' h
Step-IsOk s t (count_step now s') h = prune-IsOk now s' h
Step-IsOk s t (capacity_step c s') h =
    let positive : 1 ≤ max c 1 = omega arith in
    trim-IsOk (record s' { inner = record s'.inner { capacity = max c 1 } }) positive
      (record { listed = h.indexed.listed })

-- Whatever calls are made, with every resolution's event written: the ids listed stay within the
-- capacity, and each fingerprint of the index leads to a ticket of its own that waits.
pub Run-IsOk : (s t : ReviewStore) → Run s t → IsOk s → IsOk t
Run-IsOk s t (done s') h = h
Run-IsOk s t (next s' m t' step rest) h = Run-IsOk m t' rest (Step-IsOk s' m step h)
