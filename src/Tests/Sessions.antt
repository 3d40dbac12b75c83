-- ===== src/Tests/Sessions.antt =====
-- Two turns of a session.
use ctxward.Prelude.{
  ◌≡◌, refl, true, text_eq, ◌≢◌, some, ◌||◌, List, [], ◌∷◌, Text, bytes, contains, length, leb,
  eq_text, arith,
}
use ctxward.Prelude.Table
use ctxward.Core.Types.{review}
use ctxward.Core.Session.{
  SessionConfig, SessionEntry, SessionStore, record_and_check, is_skipped, is_live,
}
use ctxward.Core.Session.Bounds.{IsValid, Call, turn, count, after, after-IsValid}
use ctxward.Core.Session.Labels.{record_and_check-turn}

abbrev config : SessionConfig
config = record {
  enabled = true;
  header_name = bytes "x-session-id";
  ttl_secs = 60;
  max_entries = 2;
  correlation_threshold = 2;
  trigger_action = review;
}

abbrev calls : List Call
calls =
    turn 5 (bytes "s1") (bytes "email" ∷ [])
    ∷ turn 6 (bytes "s2") []
    ∷ count 7
    ∷ turn 8 (bytes "s3") (bytes "phone" ∷ bytes "phone" ∷ [])
    ∷ []

empty-IsValid : IsValid config []
empty-IsValid = record { unique = tt; sets = tt; bounded = omega arith }

after-IsValid_example : IsValid config (after config [] calls)
after-IsValid_example = after-IsValid config [] calls empty-IsValid

abbrev one : SessionStore
one = (bytes "s1", record { labels = bytes "email" ∷ []; updated_at = 5 }) ∷ []

one-IsUnique : Table.IsUnique one
unfolding Table.get
one-IsUnique = (refl, tt)

other_session : bytes "s2" ≢ bytes "s1"
other_session h = absurd (ground arith)

record_and_check-turn_example :
    (e : SessionEntry) × (Table.get
        (bytes "s1")
        (record_and_check config 9 (bytes "s1") (bytes "phone" ∷ []) one).0
      ≡ some e)
    × (e.updated_at ≡ 9)
    × ((l : Text)
        → contains e.labels l
          ≡ (contains (bytes "email" ∷ []) l || contains (bytes "phone" ∷ []) l))
    × ((record_and_check config 9 (bytes "s1") (bytes "phone" ∷ []) one).1
        ≡ leb 2 (length e.labels))
unfolding is_skipped is_live Table.retain Table.get text_eq
record_and_check-turn_example =
    record_and_check-turn config 9 (bytes "s1") (bytes "phone" ∷ []) one one-IsUnique refl
