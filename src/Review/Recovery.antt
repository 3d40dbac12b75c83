-- ===== src/Review/Recovery.antt =====
-- src/review.rs: the replay of the events at the start brings back the state that wrote them.
use ctxward.Prelude.{
  ℕ, ◌≤◌, ◌+◌, ◌≡◌, refl, ap, sym, ◌∙◌, ◌++◌, map, Bool, false, ltb, Option, Option-cases, inl, inr,
  none, some, List, [], ◌∷◌, Text, length, length-append, eq_text, arith,
}
use mathlib.Core.Path.{subst}
use ctxward.Prelude.Table
use ctxward.Prelude.Table.{Table, retain-retain, retain-insert-retain}
use ctxward.Review.Tickets.{
  ReviewStatus, pending, approved, rejected, ReviewTicket, StoredOverride, NewReviewTicket,
  ReviewStoreError, Resolved, ReviewEvent, created, resolved, new_pending, resolve_ticket,
  override_for,
}
use ctxward.Review.{
  Inner, ReviewStore, empty, prune_expired_overrides, trim_loop, trim_to_capacity, find_pending,
  upsert_pending, apply_review_event, replay, insert_ticket, list_pending, unlist_pending,
  store_override, put_ticket, push_back, finish_resolve, resolve_found, resolution, resolve,
}

replay-append :
    (es : List ReviewEvent) (e : ReviewEvent) (s : Inner)
    → replay (map some (es ++ e ∷ [])) s ≡ apply_review_event e (replay (map some es) s)
unfolding replay
replay-append [] e s = refl
replay-append (f ∷ es) e s = replay-append es e (apply_review_event f s)

abbrev is_current : ℕ → Text → StoredOverride → Bool
is_current now k o = ltb now o.expires_at

-- A later prune removes whatever an earlier one did.
prune-prune :
    (now later : ℕ) (s : Inner)
    → now ≤ later
    → prune_expired_overrides later (prune_expired_overrides now s)
      ≡ prune_expired_overrides later s
unfolding prune_expired_overrides
prune-prune now later s h =
    ap (λ o. record s { overrides_by_fingerprint = o })
      (retain-retain (is_current now) (is_current later) s.overrides_by_fingerprint
        (λ k o q. ground arith))

prune-store_override :
    (now : ℕ) (r : Resolved) (t : ReviewTicket) (s : Inner)
    → prune_expired_overrides now (store_override r t (prune_expired_overrides now s))
      ≡ prune_expired_overrides now (store_override r t s)
unfolding prune_expired_overrides store_override
prune-store_override now r t s = elim (Option-cases (override_for r t)) [
  | inl e ↦ rw (store_override, e) (prune-prune now now s (omega arith))
  | inr (o, e) ↦
      rw (store_override, e)
        (ap (λ os. record s { overrides_by_fingerprint = os })
          (retain-insert-retain (is_current now) t.fingerprint
            (record { decision = o; expires_at = r.expires_at }) s.overrides_by_fingerprint))
]

prune-insert_ticket :
    (now : ℕ) (t : ReviewTicket) (k : ReviewStatus) (s : Inner)
    → let t' = record t { status = k } in
      prune_expired_overrides now
        (insert_ticket t' (list_pending t' (push_back t.id (prune_expired_overrides now s))))
      ≡ prune_expired_overrides now (insert_ticket t' (list_pending t' (push_back t.id s)))
unfolding prune_expired_overrides insert_ticket list_pending
prune-insert_ticket now t pending s =
    let t' = record t { status = pending } in
    prune-prune now now (insert_ticket t' (list_pending t' (push_back t.id s))) (omega arith)
prune-insert_ticket now t approved s =
    let t' = record t { status = approved } in
    prune-prune now now (insert_ticket t' (list_pending t' (push_back t.id s))) (omega arith)
prune-insert_ticket now t rejected s =
    let t' = record t { status = rejected } in
    prune-prune now now (insert_ticket t' (list_pending t' (push_back t.id s))) (omega arith)

-- An event does the same to a state whose expired overrides are gone already.
prune-apply_review_event :
    (now : ℕ) (e : ReviewEvent) (s : Inner)
    → prune_expired_overrides now (apply_review_event e (prune_expired_overrides now s))
      ≡ prune_expired_overrides now (apply_review_event e s)
unfolding apply_review_event prune_expired_overrides
prune-apply_review_event now (created t) s = prune-insert_ticket now t t.status s
prune-apply_review_event now (resolved r) s =
    elim (Option-cases (Table.get r.ticket_id s.tickets)) [
      | inl e ↦ rw (apply_review_event, e) (prune-prune now now s (omega arith))
      | inr (t, e) ↦
          rw (apply_review_event, e)
            (prune-store_override now r (resolve_ticket r t)
              (unlist_pending t.fingerprint (put_ticket r.ticket_id (resolve_ticket r t) s)))
    ]

-- At the time `now`, the replay of the file with the capacity `c` gives the state in memory, but
-- for overrides that are over.
pub record Recovers (c now : ℕ) (store : ReviewStore) : Type 0 where
  pub agrees :
      prune_expired_overrides now (replay (map some store.log) (empty c))
      ≡ prune_expired_overrides now store.inner

Recovers-later :
    (c now later : ℕ) (store : ReviewStore)
    → now ≤ later
    → Recovers c now store
    → Recovers c later store
Recovers-later c now later store le h =
    let read = replay (map some store.log) (empty c) in
    record {
      agrees =
          sym (prune-prune now later read le)
          ∙ (ap (prune_expired_overrides later) h.agrees ∙ prune-prune now later store.inner le);
    }

-- An operation that does what its event does, on a state without expired overrides, and writes it.
Recovers-event :
    (c now : ℕ) (e : ReviewEvent) (store : ReviewStore)
    → Recovers c now store
    → Recovers c now (record {
      inner = apply_review_event e (prune_expired_overrides now store.inner);
      log = store.log ++ e ∷ [];
    })
Recovers-event c now e store h =
    let read = replay (map some store.log) (empty c) in
    let apply = λ (s : Inner). prune_expired_overrides now (apply_review_event e s) in
    record {
      agrees =
          ap (prune_expired_overrides now) (replay-append store.log e (empty c))
          ∙ (sym (prune-apply_review_event now e read) ∙ ap apply h.agrees);
    }

Recovers-pruned :
    (c now : ℕ) (store : ReviewStore)
    → Recovers c now store
    → Recovers c now (record store { inner = prune_expired_overrides now store.inner })
Recovers-pruned c now store h = record {
  agrees = h.agrees ∙ sym (prune-prune now now store.inner (omega arith));
}

-- Below the capacity nothing is trimmed.
trim_loop-below :
    (ids : List Text) (s : Inner) → length ids ≤ s.capacity → s.order ≡ ids → trim_loop ids s ≡ s
unfolding trim_loop
trim_loop-below [] s h e = ap (λ o. record s { order = o }) (sym e)
trim_loop-below (id ∷ ids) s h e =
    let fits : ltb s.capacity (length (id ∷ ids)) ≡ false = ground arith in
    rw fits (ap (λ o. record s { order = o }) (sym e))

trim-below : (s : Inner) → length s.order ≤ s.capacity → trim_to_capacity s ≡ s
unfolding trim_to_capacity
trim-below s h = trim_loop-below s.order s h refl

below_capacity :
    (c now : ℕ) (s : Inner) (log : List ReviewEvent)
    → length s.order ≤ s.capacity
    → Recovers c now (record { inner = s; log = log })
    → Recovers c now (record { inner = trim_to_capacity s; log = log })
below_capacity c now s log fits h =
    subst (λ t. Recovers c now (record { inner = t; log = log })) (sym (trim-below s fits)) h

-- A request, however its append ends: what it writes is read back.
pub upsert-Recovers :
    (c now later : ℕ) (id : Text) (fault : Option ReviewStoreError) (n : NewReviewTicket)
    (store : ReviewStore)
    → now ≤ later
    → length store.inner.order + 1 ≤ store.inner.capacity
    → Recovers c now store
    → Recovers c later (upsert_pending later id fault n store).0
unfolding upsert_pending apply_review_event
upsert-Recovers c now later id (some f) n store le room h =
    let same = Recovers-pruned c later store (Recovers-later c now later store le h) in
    elim (Option-cases (find_pending n.fingerprint (prune_expired_overrides later store.inner))) [
      | inr (t, e) ↦ rw (upsert_pending, e) same
      | inl e ↦ rw (upsert_pending, e) same
    ]
upsert-Recovers c now later id none n store le room h =
    let current = Recovers-later c now later store le h in
    elim (Option-cases (find_pending n.fingerprint (prune_expired_overrides later store.inner))) [
      | inr (t, e) ↦ rw (upsert_pending, e) (Recovers-pruned c later store current)
      | inl e ↦
          rw (upsert_pending, e)
            (below_capacity c later
              (apply_review_event (created (new_pending id later n))
                (prune_expired_overrides later store.inner))
              (store.log ++ created (new_pending id later n) ∷ [])
              (omega (arith, length-append store.inner.order (id ∷ [])))
              (Recovers-event c later (created (new_pending id later n)) store current))
    ]

finish_resolve-store :
    (r : Resolved) (t : ReviewTicket) (store : ReviewStore)
    → (finish_resolve r t store).0
      ≡ record store { inner = store_override r t (unlist_pending t.fingerprint store.inner) }
unfolding finish_resolve store_override
finish_resolve-store r t store = elim (Option-cases (override_for r t)) [
  | inl e ↦ rw (finish_resolve, store_override, e) refl
  | inr (o, e) ↦ rw (finish_resolve, e) refl
]

resolve_found-Recovers :
    (c now : ℕ) (r : Resolved) (t : ReviewTicket) (store : ReviewStore)
    → Table.get r.ticket_id store.inner.tickets ≡ some t
    → Recovers c now store
    → Recovers c now
        (resolve_found none r t
          (record store { inner = prune_expired_overrides now store.inner })).0
unfolding resolve_found apply_review_event prune_expired_overrides resolve_ticket
resolve_found-Recovers c now r t store e h =
    let s = prune_expired_overrides now store.inner in
    let t' = resolve_ticket r t in
    let log = store.log ++ resolved r ∷ [] in
    let after = store_override r t' (unlist_pending t.fingerprint (put_ticket r.ticket_id t' s)) in
    let event : apply_review_event (resolved r) s ≡ after = rw (apply_review_event, e) refl in
    elim t.status
      as (λ k.
        Recovers c now
          (resolve_found none r (record t { status = k }) (record store { inner = s })).0) [
            | pending ↦
                rw
                  (finish_resolve-store r t'
                    (record { inner = put_ticket r.ticket_id t' s; log = log }))
                  (subst (λ i. Recovers c now (record { inner = i; log = log })) event
                    (Recovers-event c now (resolved r) store h))
            | approved ↦ Recovers-pruned c now store h
            | rejected ↦ Recovers-pruned c now store h
          ]

-- A resolution, whatever it finds, with its event written.
pub resolve-Recovers :
    (c now later ttl : ℕ) (id by : Text) (note : Option Text) (status : ReviewStatus)
    (store : ReviewStore)
    → now ≤ later
    → Recovers c now store
    → Recovers c later (resolve later none id status by note ttl store).0
unfolding resolve prune_expired_overrides
resolve-Recovers c now later ttl id by note status store le h =
    let current = Recovers-later c now later store le h in
    elim (Option-cases (Table.get id store.inner.tickets)) [
      | inl e ↦ rw (resolve, e) (Recovers-pruned c later store current)
      | inr (t, e) ↦
          rw (resolve, e)
            (resolve_found-Recovers c later (resolution later id status by note ttl) t store e
              current)
    ]
