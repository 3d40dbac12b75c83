-- ===== src/Tests/Reviews.antt =====
-- A ticket that waits, and what becomes of it.
use ctxward.Prelude.{◌≡◌, refl, false, none, some, [], ◌∷◌, bytes, text_eq, eq_text, arith}
use ctxward.Prelude.Table
use ctxward.Core.Types.{redact}
use ctxward.Review.Tickets.{
  ReviewTicket, NewReviewTicket, ReviewDecisionOverride, override_approved, approved, created,
  append_failed, not_found, new_pending, resolve_ticket, override_for,
}
use ctxward.Review.{
  ReviewStore, apply_review_event, insert_ticket, list_pending, replay, prune_expired_overrides,
  upsert_pending, lookup_override, resolve, resolution, refused, ticket_ok,
}
use ctxward.Review.Lifecycle.{IsWaiting, resolve-lookup_override}
use ctxward.Review.Steps.{resolve_step, done, next, IsOk, Run-IsOk}
use ctxward.Review.Recovery.{Recovers, upsert-Recovers, resolve-Recovers}
use ctxward.Review.Faults.{resolve-append_fails}

abbrev pub asked : NewReviewTicket
asked = record {
  request_id = bytes "r1";
  principal = bytes "alice";
  tenant_id = bytes "t";
  direction = bytes "request";
  path = bytes "/v1";
  policy_source = bytes "builtin";
  decision_reason = none;
  matched_labels = [];
  matched_rules = [];
  findings = [];
  session_id = none;
  session_escalated = false;
  request_sha256 = bytes "00";
  sanitized_preview = none;
  post_approval_action = redact;
  fingerprint = bytes "fp";
}

abbrev pub ticket : ReviewTicket
ticket = new_pending (bytes "T1") 5 asked

-- The store after one request, with room for one more.
abbrev pub store : ReviewStore
store = record {
  inner = record {
    capacity = 2;
    order = bytes "T1" ∷ [];
    tickets = (bytes "T1", ticket) ∷ [];
    pending_by_fingerprint = (bytes "fp", bytes "T1") ∷ [];
    overrides_by_fingerprint = [];
  };
  log = created ticket ∷ [];
}

waiting : IsWaiting store (bytes "T1") ticket
unfolding Table.get text_eq new_pending
waiting = record { found = refl; waiting = refl }

abbrev approval : ReviewDecisionOverride
approval = override_approved (bytes "T1") redact (bytes "bob")

resolve-lookup_override_example :
    (lookup_override 8
      (bytes "fp")
      (resolve 7 none (bytes "T1") approved (bytes "bob") none 60 store).0.inner).1
    ≡ some approval
unfolding override_for resolve_ticket new_pending
resolve-lookup_override_example =
    resolve-lookup_override 7 60 (bytes "T1") (bytes "bob") none approved store ticket approval 8
      waiting refl

store-IsOk : IsOk store
unfolding Table.get text_eq new_pending
store-IsOk = record {
  bounded = record { positive = omega arith; listed = omega arith };
  indexed = record {
    listed = (record { ticket = ticket; found = refl; waits = refl; filed = refl }, tt);
  };
}

abbrev resolved_store : ReviewStore
resolved_store = (resolve 7 none (bytes "T1") approved (bytes "bob") none 60 store).0

Run-IsOk_example : IsOk resolved_store
Run-IsOk_example =
    Run-IsOk store resolved_store
      (next store resolved_store resolved_store
        (resolve_step 7 60 (bytes "T1") (bytes "bob") none approved store) (done resolved_store))
      store-IsOk

store-Recovers : Recovers 2 5 store
unfolding replay apply_review_event list_pending insert_ticket new_pending prune_expired_overrides
    Table.insert Table.remove Table.retain
store-Recovers = record { agrees = refl }

upsert-Recovers_example :
    Recovers 2 6
      (upsert_pending 6 (bytes "T2") none (record asked { fingerprint = bytes "gp" }) store).0
upsert-Recovers_example =
    upsert-Recovers 2 5 6 (bytes "T2") none (record asked { fingerprint = bytes "gp" }) store
      (omega arith) (omega arith) store-Recovers

resolve-Recovers_example : Recovers 2 7 resolved_store
resolve-Recovers_example =
    resolve-Recovers 2 5 7 60 (bytes "T1") (bytes "bob") none approved store (omega arith)
      store-Recovers

resolve-append_fails_example :
    let r = resolve 7 (some append_failed) (bytes "T1") approved (bytes "bob") none 60 store in
    (r.1 ≡ refused not_found)
    × (r.0.log ≡ store.log)
    × ((upsert_pending 8 (bytes "T2") none asked r.0).1
        ≡ ticket_ok
            (resolve_ticket (resolution 7 (bytes "T1") approved (bytes "bob") none 60) ticket))
unfolding Table.get text_eq new_pending
resolve-append_fails_example =
    resolve-append_fails 7 60 (bytes "T1") (bytes "bob") none approved append_failed store ticket 8
      (bytes "T2") none asked waiting refl refl
