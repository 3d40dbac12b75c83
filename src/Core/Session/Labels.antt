-- ===== src/Core/Session/Labels.antt =====
-- What a turn records, and when it escalates.
use ctxward.Prelude.{
  ℕ, ◌<◌, ◌≡◌, ◌≢◌, refl, sym, ap, ◌∙◌, false, Bool-cases, inl, inr, not, ◌&&◌, ◌||◌, Option,
  Option-cases, none, some, List, [], ◌∷◌, Text, length, contains, text_eq, text_eq_refl,
  text_eq_iff, eq_text, leb, arith, if◌then◌else◌,
}
use ctxward.Prelude.Table
use ctxward.Prelude.Table.{Table, IsUnique, get-remove, get-insert, get-retain}
use ctxward.Core.Session.{
  SessionEntry, SessionConfig, SessionStore, is_live, extend, oldest, has_key, drop_key, make_room,
  labels_of, touch, is_skipped, record_and_check,
}

-- The entry, if it has not expired.
abbrev pub live_entry : SessionConfig → ℕ → Text → Option SessionEntry → Option SessionEntry
live_entry config now id none = none
live_entry config now id (some e) = if is_live config now id e then some e else none

contains-extend :
    (set ls : List Text) (l : Text) → contains (extend set ls) l ≡ (contains set l || contains ls l)
unfolding extend
contains-extend set [] l = ground arith
contains-extend set (m ∷ ls) l =
    contains-extend (if contains set m then set else m ∷ set) ls l ∙ ground (arith, text_eq_iff m l)

get-drop_key :
    (id : Text) (o : Option (Text × SessionEntry)) (t : SessionStore)
    → Table.get id t ≡ none
    → Table.get id (drop_key o t) ≡ none
get-drop_key id none t h = h
get-drop_key id (some (k, e)) t h = get-remove k id t ∙ ground arith

get-make_room :
    (config : SessionConfig) (id : Text) (t : SessionStore)
    → Table.get id (make_room config id t) ≡ Table.get id t
unfolding make_room
get-make_room config id t =
    elim (Bool-cases (leb config.max_entries (length t) && not (has_key id t))) [
      | inr c ↦ rw c
      | inl c ↦ elim (Option-cases (Table.get id t)) [
        | inl e ↦ rw c (get-drop_key id (oldest t) t e ∙ sym e)
        | inr (f, e) ↦ absurd (ground arith)
      ]
    ]

make_room-roomy :
    (config : SessionConfig) (id : Text) (t : SessionStore)
    → length t < config.max_entries
    → make_room config id t ≡ t
unfolding make_room
make_room-roomy config id t h = ground arith

text_eq_ne : (a b : Text) → a ≢ b → text_eq a b ≡ false
text_eq_ne a b ne = elim (Bool-cases (text_eq a b)) [
  | inl e ↦ absurd (ne ((text_eq_iff a b).0 e))
  | inr e ↦ e
]

module _ (config : SessionConfig) (now : ℕ) (id : Text) (labels : List Text) (t : SessionStore)
    (unique : IsUnique t) where
  -- The labels that the session has before the turn.
  abbrev pub known : List Text
  known = labels_of (live_entry config now id (Table.get id t))

  get-retain_live :
      (j : Text)
      → Table.get j (Table.retain (is_live config now) t) ≡ live_entry config now j (Table.get j t)
  get-retain_live j = get-retain (is_live config now) j t unique ∙ same (Table.get j t)
    where
      same :
          (o : Option SessionEntry)
          → (elim o [ none ↦ none | some v ↦ if is_live config now j v then some v else none ])
            ≡ live_entry config now j o
      same none = refl
      same (some v) = refl

  touch-labels : (touch config now id labels t).1 ≡ extend known labels
  unfolding touch
  touch-labels =
      ap (λ o. extend (labels_of o) labels)
        (get-make_room config id (Table.retain (is_live config now) t) ∙ get-retain_live id)

  touch-get :
      Table.get id (touch config now id labels t).0
      ≡ some (record { labels = (touch config now id labels t).1; updated_at = now })
  unfolding touch
  touch-get =
      let room = make_room config id (Table.retain (is_live config now) t) in
      get-insert id id _ room ∙ rw (text_eq_refl id)

  -- While there is room, a turn leaves every other session as it was, or expired.
  pub record_and_check-others :
      (j : Text)
      → id ≢ j
      → length (Table.retain (is_live config now) t) < config.max_entries
      → is_skipped config id ≡ false
      → Table.get j (record_and_check config now id labels t).0
        ≡ live_entry config now j (Table.get j t)
  unfolding record_and_check touch
  record_and_check-others j ne room counts =
      let live = Table.retain (is_live config now) t in
      let kept : make_room config id live ≡ live = make_room-roomy config id live room in
      rw (counts, kept) (get-insert id j _ live ∙ rw (text_eq_ne id j ne) (get-retain_live j))

  -- After a turn that counts, the session has exactly the labels that it had, unless they had
  -- expired, and those of the turn; it is as old as the turn; and the turn escalates exactly
  -- when the session has as many labels as the threshold.
  pub record_and_check-turn :
      is_skipped config id ≡ false
      → (e : SessionEntry) × (Table.get id (record_and_check config now id labels t).0 ≡ some e)
        × (e.updated_at ≡ now)
        × ((l : Text) → contains e.labels l ≡ (contains known l || contains labels l))
        × ((record_and_check config now id labels t).1
            ≡ leb config.correlation_threshold (length e.labels))
  unfolding record_and_check
  record_and_check-turn counts =
      let labels' = (touch config now id labels t).1 in
      (
        record { labels = labels'; updated_at = now },
        rw counts touch-get,
        refl,
        λ l. rw touch-labels (contains-extend known labels l),
        rw counts,
      )
