-- ===== src/Core/Session/Bounds.antt =====
-- The store never holds more sessions than it may, nor a session or a label twice.
use ctxward.Prelude.{
  ℕ, suc, ◌≤◌, max, ◌≡◌, true, false, Bool-cases, inl, inr, not, ◌&&◌, Option, Option-cases, none,
  some, List, [], ◌∷◌, Text, All, length, contains, text_eq_refl, text_eq_iff, eq_text, leb, arith,
  if◌then◌else◌,
}
use ctxward.Prelude.Table
use ctxward.Prelude.Table.{
  Table, length-retain-le, length-remove-le, length-remove-lt, retain-IsUnique, remove-IsUnique,
  insert-IsUnique, IsUnique, All-remove, All-insert, All-retain, All-get,
}
use ctxward.Core.Session.{
  SessionEntry, SessionConfig, SessionStore, is_live, extend, oldest, has_key, drop_key, make_room,
  labels_of, touch, is_skipped, record_and_check, active_sessions,
}

-- No label occurs twice.
abbrev pub IsSetList : List Text → Type 0
IsSetList [] = Unit
IsSetList (l ∷ ls) = (contains ls l ≡ false) × IsSetList ls

-- Under every key the labels are a set.
abbrev pub HasSets : SessionStore → Type 0
HasSets t = All (λ (e : Text × SessionEntry). IsSetList e.1.labels) t

pub record IsValid (config : SessionConfig) (t : SessionStore) : Type 0 where
  pub unique : IsUnique t
  pub sets : HasSets t
  pub bounded : length t ≤ max config.max_entries 1

extend-IsSetList : (set ls : List Text) → IsSetList set → IsSetList (extend set ls)
unfolding extend
extend-IsSetList set [] h = h
extend-IsSetList set (l ∷ ls) h =
    extend-IsSetList (if contains set l then set else l ∷ set) ls (ground arith)

-- The oldest entry is an entry of the table.
oldest-has_key :
    (t : SessionStore) (k : Text) (e : SessionEntry) → oldest t ≡ some (k, e) → has_key k t ≡ true
unfolding oldest Table.get
oldest-has_key [] k e h = cc
oldest-has_key ((j, f) ∷ t) k e h =
    ground (arith, oldest-has_key t k e, text_eq_refl k, text_eq_iff j k)

length-remove_key :
    (t : SessionStore) (k : Text) → has_key k t ≡ true → suc (length (Table.remove k t)) ≤ length t
length-remove_key t k h = elim (Option-cases (Table.get k t)) [
  | inl e ↦ cc (rw (e, has_key) at h)
  | inr (f, e) ↦ length-remove-lt k t f e
]

oldest-none : (t : SessionStore) → 1 ≤ length t → ¬ (oldest t ≡ none)
unfolding oldest
oldest-none [] h o = absurd (omega arith)
oldest-none ((k, e) ∷ t) h o = ground arith

-- An entry of a table that is not empty can be evicted.
length-drop_oldest :
    (t : SessionStore) → 1 ≤ length t → suc (length (drop_key (oldest t) t)) ≤ length t
length-drop_oldest t h = elim (Option-cases (oldest t)) [
  | inr ((k, e), o) ↦ rw o (length-remove_key t k (oldest-has_key t k e o))
  | inl o ↦ absurd (oldest-none t h o)
]

length-make_room :
    (config : SessionConfig) (id : Text) (t : SessionStore)
    → length t ≤ max config.max_entries 1
    → has_key id t ≡ false
    → suc (length (make_room config id t)) ≤ max config.max_entries 1
unfolding make_room
length-make_room config id [] h k = ground arith
length-make_room config id ((j, e) ∷ t) h k =
    ground (arith, length-drop_oldest ((j, e) ∷ t) (omega arith))

make_room-same :
    (config : SessionConfig) (id : Text) (t : SessionStore)
    → has_key id t ≡ true
    → make_room config id t ≡ t
unfolding make_room
make_room-same config id t k = ground arith

length-insert_room :
    (config : SessionConfig) (id : Text) (e : SessionEntry) (t : SessionStore)
    → length t ≤ max config.max_entries 1
    → length (Table.insert id e (make_room config id t)) ≤ max config.max_entries 1
unfolding Table.insert
length-insert_room config id e t h = elim (Bool-cases (has_key id t)) [
  | inl k ↦ rw (make_room-same config id t k) (omega (arith, length-remove_key t id k))
  | inr k ↦
      omega (arith, length-make_room config id t h k, length-remove-le id (make_room config id t))
]

drop_key-IsUnique :
    (o : Option (Text × SessionEntry)) (t : SessionStore) → IsUnique t → IsUnique (drop_key o t)
drop_key-IsUnique none t u = u
drop_key-IsUnique (some (k, e)) t u = remove-IsUnique k t u

make_room-IsUnique :
    (config : SessionConfig) (id : Text) (t : SessionStore)
    → IsUnique t
    → IsUnique (make_room config id t)
unfolding make_room
make_room-IsUnique config id t u =
    elim (Bool-cases (leb config.max_entries (length t) && not (has_key id t))) [
      | inl e ↦ rw e (drop_key-IsUnique (oldest t) t u)
      | inr e ↦ rw e u
    ]

abbrev EntryOk : Text × SessionEntry → Type 0
EntryOk e = IsSetList e.1.labels

drop_key-HasSets :
    (o : Option (Text × SessionEntry)) (t : SessionStore) → HasSets t → HasSets (drop_key o t)
drop_key-HasSets none t h = h
drop_key-HasSets (some (k, e)) t h = All-remove EntryOk k t h

make_room-HasSets :
    (config : SessionConfig) (id : Text) (t : SessionStore)
    → HasSets t
    → HasSets (make_room config id t)
unfolding make_room
make_room-HasSets config id t h =
    elim (Bool-cases (leb config.max_entries (length t) && not (has_key id t))) [
      | inl e ↦ rw e (drop_key-HasSets (oldest t) t h)
      | inr e ↦ rw e h
    ]

labels_of-IsSetList :
    (id : Text) (t : SessionStore) → HasSets t → IsSetList (labels_of (Table.get id t))
labels_of-IsSetList id t h = elim (Option-cases (Table.get id t)) [
  | inl e ↦ rw e tt
  | inr (f, e) ↦ rw e (All-get EntryOk id t f h e)
]

touch-IsValid :
    (config : SessionConfig) (now : ℕ) (id : Text) (labels : List Text) (t : SessionStore)
    → IsValid config t
    → IsValid config (touch config now id labels t).0
unfolding touch
touch-IsValid config now id labels t v =
    let live = Table.retain (is_live config now) t in
    let room = make_room config id live in
    let sets =
      make_room-HasSets config id live (All-retain EntryOk (is_live config now) t v.sets) in
    let labels' = extend (labels_of (Table.get id room)) labels in
    record {
      unique =
          insert-IsUnique id _ room
            (make_room-IsUnique config id live (retain-IsUnique (is_live config now) t v.unique));
      sets =
          All-insert EntryOk id _ room
            (extend-IsSetList (labels_of (Table.get id room)) labels
              (labels_of-IsSetList id room sets))
            sets;
      bounded =
          length-insert_room config id (record { labels = labels'; updated_at = now }) live
            (omega (arith, length-retain-le (is_live config now) t, v.bounded));
    }

record_and_check-IsValid :
    (config : SessionConfig) (now : ℕ) (id : Text) (labels : List Text) (t : SessionStore)
    → IsValid config t
    → IsValid config (record_and_check config now id labels t).0
unfolding record_and_check
record_and_check-IsValid config now id labels t v = elim (Bool-cases (is_skipped config id)) [
  | inl e ↦ rw e v
  | inr e ↦ rw e (touch-IsValid config now id labels t v)
]

active_sessions-IsValid :
    (config : SessionConfig) (now : ℕ) (t : SessionStore)
    → IsValid config t
    → IsValid config (active_sessions config now t).0
unfolding active_sessions
active_sessions-IsValid config now t v = elim (Bool-cases config.enabled) [
  | inr e ↦ simp e v
  | inl e ↦ simp e (record {
    unique = retain-IsUnique (is_live config now) t v.unique;
    sets = All-retain EntryOk (is_live config now) t v.sets;
    bounded = omega (arith, length-retain-le (is_live config now) t, v.bounded);
  })
]

-- One call of an operation of the store, at some instant.
pub data Call : Type 0 where
  turn : ℕ → Text → List Text → Call
  count : ℕ → Call

abbrev pub after : SessionConfig → SessionStore → List Call → SessionStore
after config t [] = t
after config t (turn now id labels ∷ cs) =
    after config (record_and_check config now id labels t).0 cs
after config t (count now ∷ cs) = after config (active_sessions config now t).0 cs

-- After any calls, at any instants, on a valid store, under one configuration: no session is
-- there twice, the labels of each are a set, and there are at most `max_entries` sessions, or one
-- where `max_entries` is 0.
pub after-IsValid :
    (config : SessionConfig) (t : SessionStore) (calls : List Call)
    → IsValid config t
    → IsValid config (after config t calls)
after-IsValid config t [] v = v
after-IsValid config t (turn now id labels ∷ cs) v =
    after-IsValid config (record_and_check config now id labels t).0 cs
      (record_and_check-IsValid config now id labels t v)
after-IsValid config t (count now ∷ cs) v =
    after-IsValid config (active_sessions config now t).0 cs
      (active_sessions-IsValid config now t v)
