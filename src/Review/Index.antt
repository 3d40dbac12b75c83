-- ===== src/Review/Index.antt =====
-- src/review.rs: the index of the pending tickets, kept by every operation whose event is written.
use ctxward.Prelude.{
  ℕ, ltb, ◌≡◌, ◌∙◌, ◌==◌, true, refl, Bool, ap, false, Bool-cases, Option-cases, inl, inr, Option,
  none, some, List, [], ◌∷◌, Text, All, length, text_eq_iff, text_eq_refl, eq_text, arith,
  if◌then◌else◌,
}
use ctxward.Prelude.Table
use ctxward.Prelude.Table.{Table, get-insert, get-remove, All-remove-other}
use ctxward.Review.Tickets.{pending, ReviewTicket}
use ctxward.Review.{Inner, prune_expired_overrides, forget, trim_loop, trim_to_capacity}

-- The id is that of a ticket that waits, under its own fingerprint.
pub record IsWaitingAt (tickets : Table Text ReviewTicket) (fingerprint id : Text) : Type 0 where
  pub ticket : ReviewTicket
  pub found : Table.get id tickets ≡ some ticket
  pub waits : ticket.status ≡ pending
  pub filed : ticket.fingerprint ≡ fingerprint

abbrev pub Listed : Table Text ReviewTicket → Table Text Text → Type 0
Listed tickets index = All (λ (e : Text × Text). IsWaitingAt tickets e.0 e.1) index

-- Every entry of the index is one of a ticket that waits.
pub record IsIndexed (s : Inner) : Type 0 where
  pub listed : Listed s.tickets s.pending_by_fingerprint

same_ticket : {a b : ReviewTicket} {o : Option ReviewTicket} → o ≡ some a → o ≡ some b → a ≡ b
same_ticket e f = ground arith

-- An entry with another fingerprint is one of another ticket.
other_id :
    {ts : Table Text ReviewTicket} (ticket : ReviewTicket) (id : Text) {j v : Text}
    → Table.get id ts ≡ some ticket
    → IsWaitingAt ts j v
    → (j == ticket.fingerprint) ≡ false
    → (id == v) ≡ false
other_id {ts} ticket id {j} {v} e w d = elim (Bool-cases (id == v)) [
  | inr n ↦ n
  | inl y ↦
      let same : id ≡ v = (text_eq_iff id v).0 y in
      let here : Table.get id ts ≡ some w.ticket = ap (λ k. Table.get k ts) same ∙ w.found in
      let filed : ticket.fingerprint ≡ j = ap (λ t. t.fingerprint) (same_ticket e here) ∙ w.filed in
      absurd (ground (arith, text_eq_iff j ticket.fingerprint))
]

if_false : {A : Type 0} {b : Bool} (x : A) {y : A} → b ≡ false → (if b then x else y) ≡ y
if_false x e = ground (arith, e)

if_true : {A : Type 0} {b : Bool} {x : A} (y : A) → b ≡ true → (if b then x else y) ≡ x
if_true y e = ground (arith, e)

fresh_id :
    {ts : Table Text ReviewTicket} (id : Text) {j v : Text}
    → Table.get id ts ≡ none
    → IsWaitingAt ts j v
    → (id == v) ≡ false
fresh_id {ts} id {j} {v} e w = elim (Bool-cases (id == v)) [
  | inr n ↦ n
  | inl y ↦
      let here : Table.get id ts ≡ some w.ticket =
        ap (λ k. Table.get k ts) ((text_eq_iff id v).0 y) ∙ w.found in
      absurd (ground arith)
]

-- An entry stays one of a ticket that waits, where its ticket stays.
keep_entry :
    {ts ts' : Table Text ReviewTicket} {j v : Text}
    → Table.get v ts' ≡ Table.get v ts
    → IsWaitingAt ts j v
    → IsWaitingAt ts' j v
keep_entry e w = record { ticket = w.ticket; found = e ∙ w.found; waits = w.waits; filed = w.filed }

remove_ticket-Listed :
    (ts : Table Text ReviewTicket) (index : Table Text Text) (id : Text) (ticket : ReviewTicket)
    → Table.get id ts ≡ some ticket
    → Listed ts index
    → Listed (Table.remove id ts) (Table.remove ticket.fingerprint index)
remove_ticket-Listed ts index id ticket e =
    All-remove-other _ _ ticket.fingerprint index
      (λ j v w d. keep_entry (get-remove id v ts ∙ if_false none (other_id ticket id e w d)) w)

pub put_ticket-Listed :
    (ts : Table Text ReviewTicket) (index : Table Text Text) (id : Text) (ticket new : ReviewTicket)
    → Table.get id ts ≡ some ticket
    → Listed ts index
    → Listed (Table.insert id new ts) (Table.remove ticket.fingerprint index)
put_ticket-Listed ts index id ticket new e =
    All-remove-other _ _ ticket.fingerprint index (λ j v w d.
      keep_entry (get-insert id v new ts ∙ if_false (some new) (other_id ticket id e w d)) w)

pub create-Listed :
    (ts : Table Text ReviewTicket) (index : Table Text Text) (id : Text) (new : ReviewTicket)
    → Table.get id ts ≡ none
    → new.status ≡ pending
    → Listed ts index
    → Listed (Table.insert id new ts) (Table.insert new.fingerprint id index)
unfolding Table.insert
create-Listed ts index id new e p h = (
  record {
    ticket = new;
    found = get-insert id id new ts ∙ if_true (Table.get id ts) (text_eq_refl id);
    waits = p;
    filed = refl;
  },
  All-remove-other _ _ new.fingerprint index
      (λ j v w d. keep_entry (get-insert id v new ts ∙ if_false (some new) (fresh_id id e w)) w) h,
)

forget-IsIndexed : (id : Text) (s : Inner) → IsIndexed s → IsIndexed (forget id s)
unfolding forget
forget-IsIndexed id s h = elim (Option-cases (Table.get id s.tickets)) [
  | inl e ↦ rw (forget, e) h
  | inr (t, e) ↦
      rw (forget, e)
        (record {
          listed = remove_ticket-Listed s.tickets s.pending_by_fingerprint id t e h.listed;
        })
]

trim_loop-IsIndexed : (ids : List Text) (s : Inner) → IsIndexed s → IsIndexed (trim_loop ids s)
unfolding trim_loop
trim_loop-IsIndexed [] s h = record { listed = h.listed }
trim_loop-IsIndexed (id ∷ ids) s h = elim (Bool-cases (ltb s.capacity (length (id ∷ ids)))) [
  | inl e ↦ rw e (trim_loop-IsIndexed ids (forget id s) (forget-IsIndexed id s h))
  | inr e ↦ rw e (record { listed = h.listed })
]

pub trim_to_capacity-IsIndexed : (s : Inner) → IsIndexed s → IsIndexed (trim_to_capacity s)
unfolding trim_to_capacity
trim_to_capacity-IsIndexed s h = trim_loop-IsIndexed s.order s h

pub prune-IsIndexed :
    (now : ℕ) (s : Inner) → IsIndexed s → IsIndexed (prune_expired_overrides now s)
unfolding prune_expired_overrides
prune-IsIndexed now s h = record { listed = h.listed }
