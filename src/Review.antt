-- ===== src/Review.antt =====
-- src/review.rs: the review store. The lock is held for the whole of each operation, so an
-- operation is one step on the state; the file is the list of its events, and whether an append
-- fails is an argument of the step.
pub mod Tickets
pub mod Lifecycle
pub mod Bounds
pub mod Index
pub mod Steps
pub mod Recovery
pub mod Faults
use ctxward.Prelude.{
  ℕ, ◌+◌, ◌*◌, Bool, true, false, Option, none, some, List, [], ◌∷◌, ◌++◌, Text, length, take,
  filter, map, max, leb, ltb, eq_text, if◌then◌else◌,
}
use mathlib.Core.List.{reverse}
use ctxward.Prelude.Table
use ctxward.Prelude.Table.{Table}
use Tickets.{
  ReviewStatus, pending, approved, rejected, ReviewTicket, NewReviewTicket, ReviewDecisionOverride,
  ReviewFilterStatus, only_pending, only_approved, only_rejected, all_tickets, StoredOverride,
  Resolved, ReviewEvent, created, resolved, ReviewStoreError, ReviewResolveError, not_found,
  already_resolved, new_pending, resolve_ticket, override_for,
}

-- `ReviewStoreInner`
pub record Inner : Type 0 where
  pub capacity : ℕ
  pub order : List Text
  pub tickets : Table Text ReviewTicket
  pub pending_by_fingerprint : Table Text Text
  pub overrides_by_fingerprint : Table Text StoredOverride

-- The store, with the events in its file.
pub record ReviewStore : Type 0 where
  pub inner : Inner
  pub log : List ReviewEvent

unfoldable pub prune_expired_overrides : ℕ → Inner → Inner
prune_expired_overrides now s = record s {
  overrides_by_fingerprint = Table.retain (λ k o. ltb now o.expires_at) s.overrides_by_fingerprint;
}

-- The removal of a ticket whose id was popped from the order.
pub forget : Text → Inner → Inner
forget id s = elim (Table.get id s.tickets) [
  | none ↦ s
  | some ticket ↦ record s {
    tickets = Table.remove id s.tickets;
    pending_by_fingerprint = Table.remove ticket.fingerprint s.pending_by_fingerprint;
    overrides_by_fingerprint = Table.remove ticket.fingerprint s.overrides_by_fingerprint;
  }
]

-- The loop of `trim_to_capacity` over the ids still in the order.
pub trim_loop : List Text → Inner → Inner
unfolding forget
trim_loop [] s = record s { order = [] }
trim_loop (id ∷ ids) s =
    let rest = trim_loop ids (forget id s) in
    if ltb s.capacity (length (id ∷ ids)) then rest else record s { order = id ∷ ids }

pub trim_to_capacity : Inner → Inner
unfolding trim_loop
trim_to_capacity s = trim_loop s.order s

-- The override of a resolution, stored under the ticket's fingerprint.
pub store_override : Resolved → ReviewTicket → Inner → Inner
unfolding override_for
store_override r ticket s = elim (override_for r ticket) [
  | none ↦ s
  | some decision ↦ record s {
    overrides_by_fingerprint =
        Table.insert ticket.fingerprint (record { decision = decision; expires_at = r.expires_at })
          s.overrides_by_fingerprint;
  }
]

unfoldable pub insert_ticket : ReviewTicket → Inner → Inner
insert_ticket ticket s = record s { tickets = Table.insert ticket.id ticket s.tickets }

pub unlist_pending : Text → Inner → Inner
unlist_pending fingerprint s = record s {
  pending_by_fingerprint = Table.remove fingerprint s.pending_by_fingerprint;
}

unfoldable pub list_pending : ReviewTicket → Inner → Inner
list_pending ticket s = elim ticket.status [
  | pending ↦ record s {
    pending_by_fingerprint = Table.insert ticket.fingerprint ticket.id s.pending_by_fingerprint;
  }
  | _ ↦ s
]

abbrev pub push_back : Text → Inner → Inner
push_back id s = record s { order = s.order ++ id ∷ [] }

-- `get_mut` writes the ticket back under the key that it was found under.
abbrev pub put_ticket : Text → ReviewTicket → Inner → Inner
put_ticket id ticket s = record s { tickets = Table.insert id ticket s.tickets }

unfoldable pub apply_review_event : ReviewEvent → Inner → Inner
unfolding list_pending insert_ticket unlist_pending store_override resolve_ticket
apply_review_event (created ticket) s =
    insert_ticket ticket (list_pending ticket (push_back ticket.id s))
apply_review_event (resolved r) s = elim (Table.get r.ticket_id s.tickets) [
  | none ↦ s
  | some ticket ↦
      store_override r (resolve_ticket r ticket)
        (unlist_pending ticket.fingerprint (put_ticket r.ticket_id (resolve_ticket r ticket) s))
]

-- `load_existing`, without its last step: a line that does not parse is skipped.
unfoldable pub replay : List (Option ReviewEvent) → Inner → Inner
unfolding apply_review_event
replay [] s = s
replay (none ∷ lines) s = replay lines s
replay (some e ∷ lines) s = replay lines (apply_review_event e s)

abbrev pub empty : ℕ → Inner
empty capacity = record {
  capacity = max capacity 1;
  order = [];
  tickets = [];
  pending_by_fingerprint = [];
  overrides_by_fingerprint = [];
}

-- `ReviewStore::new`, where the file can be opened.
unfoldable pub new : ℕ → ℕ → List (Option ReviewEvent) → Inner
unfolding replay prune_expired_overrides trim_to_capacity
new now capacity lines =
    trim_to_capacity (prune_expired_overrides now (replay lines (empty capacity)))

unfoldable pub set_capacity : ℕ → Inner → Inner
unfolding trim_to_capacity
set_capacity capacity s = trim_to_capacity (record s { capacity = max capacity 1 })

-- The ticket that a pending request with this fingerprint has already.
pub find_pending : Text → Inner → Option ReviewTicket
find_pending fingerprint s = elim (Table.get fingerprint s.pending_by_fingerprint) [
  | none ↦ none
  | some id ↦ Table.get id s.tickets
]

pub data Upserted : Type 0 where
  ticket_ok : ReviewTicket → Upserted
  store_error : ReviewStoreError → Upserted

-- `upsert_pending`; `id` is the new UUID, and `fault` the error of the append, if it fails. An append
-- that fails is taken to leave no line in the file.
unfoldable pub upsert_pending :
    ℕ → Text → Option ReviewStoreError → NewReviewTicket → ReviewStore → ReviewStore × Upserted
unfolding prune_expired_overrides trim_to_capacity find_pending new_pending
upsert_pending now id fault n store =
    let s = prune_expired_overrides now store.inner in
    elim (find_pending n.fingerprint s) [
      | some ticket ↦ (record store { inner = s }, ticket_ok ticket)
      | none ↦
          let ticket = new_pending id now n in
          elim fault [
            | some e ↦ (record store { inner = s }, store_error e)
            | none ↦ (
              record {
                inner = trim_to_capacity (record s {
                  order = s.order ++ id ∷ [];
                  tickets = Table.insert id ticket s.tickets;
                  pending_by_fingerprint = Table.insert n.fingerprint id s.pending_by_fingerprint;
                });
                log = store.log ++ created ticket ∷ [];
              },
              ticket_ok ticket,
            )
          ]
    ]

unfoldable pub lookup_override : ℕ → Text → Inner → Inner × Option ReviewDecisionOverride
unfolding prune_expired_overrides
lookup_override now fingerprint s =
    let s' = prune_expired_overrides now s in
    (
      s',
      elim (Table.get fingerprint s'.overrides_by_fingerprint) [
        | none ↦ none
        | some o ↦ some o.decision
      ],
    )

unfoldable pub get : ℕ → Text → Inner → Inner × Option ReviewTicket
unfolding prune_expired_overrides
get now id s = let s' = prune_expired_overrides now s in (s', Table.get id s'.tickets)

abbrev pub matches : ReviewFilterStatus → ReviewStatus → Bool
matches only_pending pending = true
matches only_approved approved = true
matches only_rejected rejected = true
matches all_tickets status = true
matches _ _ = false

-- The tickets that the ids of the order name.
pub tickets_of : List Text → Table Text ReviewTicket → List ReviewTicket
tickets_of [] t = []
tickets_of (id ∷ ids) t =
    let rest = tickets_of ids t in
    elim (Table.get id t) [ none ↦ rest | some ticket ↦ ticket ∷ rest ]

-- `ReviewStore::list`: the newest first.
unfoldable pub list : ℕ → ReviewFilterStatus → ℕ → Inner → Inner × List ReviewTicket
unfolding prune_expired_overrides tickets_of
list now status limit s =
    let s' = prune_expired_overrides now s in
    (
      s',
      take limit (filter (λ t. matches status t.status) (tickets_of (reverse s'.order) s'.tickets)),
    )

unfoldable pub pending_count : ℕ → Inner → Inner × ℕ
unfolding prune_expired_overrides
pending_count now s =
    let s' = prune_expired_overrides now s in
    (s', length (filter (λ t. matches only_pending t.status) (map (λ e. e.1) s'.tickets)))

pub data ResolveResult : Type 0 where
  resolved_ok : ReviewTicket → ResolveResult
  refused : ReviewResolveError → ResolveResult
  panicked : ResolveResult

-- The end of `resolve`, after its event is written; a resolution as pending is unreachable.
pub finish_resolve : Resolved → ReviewTicket → ReviewStore → ReviewStore × ResolveResult
unfolding store_override unlist_pending
finish_resolve r ticket store =
    let s = unlist_pending ticket.fingerprint store.inner in
    elim (override_for r ticket) [
      | none ↦ (record store { inner = s }, panicked)
      | some _ ↦ (record store { inner = store_override r ticket s }, resolved_ok ticket)
    ]

-- `resolve`, once the ticket is found. A failed append is reported as a missing ticket, and the
-- ticket stays resolved in memory.
pub resolve_found :
    Option ReviewStoreError → Resolved → ReviewTicket → ReviewStore → ReviewStore × ResolveResult
unfolding finish_resolve resolve_ticket
resolve_found fault r ticket store = elim ticket.status [
  | pending ↦
      let ticket' = resolve_ticket r ticket in
      let s = put_ticket r.ticket_id ticket' store.inner in
      elim fault [
        | some e ↦ (record store { inner = s }, refused not_found)
        | none ↦ finish_resolve r ticket' (record { inner = s; log = store.log ++ resolved r ∷ [] })
      ]
  | approved ↦ (store, refused (already_resolved approved))
  | rejected ↦ (store, refused (already_resolved rejected))
]

-- `Duration::seconds`, for a time to live that `i64` and the crate's dates can hold; a larger one,
-- for which the cast wraps or the call panics, is not modelled.
abbrev pub seconds : ℕ → ℕ
seconds n = n * 1_000_000_000

abbrev pub resolution : ℕ → Text → ReviewStatus → Text → Option Text → ℕ → Resolved
resolution now id status by note ttl_secs = record {
  ticket_id = id;
  status = status;
  resolved_by = by;
  note = note;
  resolved_at = now;
  expires_at = now + seconds ttl_secs;
}

-- `ReviewStore::resolve`
unfoldable pub resolve :
    ℕ
    → Option ReviewStoreError
    → Text
    → ReviewStatus
    → Text
    → Option Text
    → ℕ
    → ReviewStore
    → ReviewStore × ResolveResult
unfolding prune_expired_overrides resolve_found
resolve now fault id status by note ttl_secs store =
    let store' = record store { inner = prune_expired_overrides now store.inner } in
    elim (Table.get id store'.inner.tickets) [
      | none ↦ (store', refused not_found)
      | some ticket ↦ resolve_found fault (resolution now id status by note ttl_secs) ticket store'
    ]
