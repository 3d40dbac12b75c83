-- ===== src/Core/Session.antt =====
-- crates/ctxward-core/src/session.rs: the labels seen in each session. Instants are numbers of
-- nanoseconds; `duration_since` stops at 0, as subtraction does here. The lock is held for the
-- whole of each operation, so an operation is one step on the map.
pub mod Bounds
pub mod Labels
use ctxward.Prelude.{
  ℕ, ◌*◌, ◌-◌, Bool, true, false, not, ◌&&◌, ◌||◌, Option, none, some, List, [], ◌∷◌, Text, length,
  contains, text_eq, eq_text, ltb, leb, if◌then◌else◌,
}
use ctxward.Prelude.Table
use ctxward.Prelude.Table.{Table}
use ctxward.Core.Types.{DecisionAction}

pub record SessionEntry : Type 0 where
  pub labels : List Text
  pub updated_at : ℕ

-- `SessionConfig` of config.rs; `trigger_action` is the proxy's.
pub record SessionConfig : Type 0 where
  pub enabled : Bool
  pub header_name : Text
  pub ttl_secs : ℕ
  pub max_entries : ℕ
  pub correlation_threshold : ℕ
  pub trigger_action : DecisionAction

abbrev pub SessionStore : Type 0
SessionStore = Table Text SessionEntry

-- `Duration::from_secs`
abbrev pub ttl : SessionConfig → ℕ
ttl config = config.ttl_secs * 1_000_000_000

unfoldable pub is_live : SessionConfig → ℕ → Text → SessionEntry → Bool
is_live config now id entry = leb (now - entry.updated_at) (ttl config)

-- `HashSet::insert` and `extend`
pub extend : List Text → List Text → List Text
extend set [] = set
extend set (l ∷ ls) = extend (if contains set l then set else l ∷ set) ls

-- `min_by_key(|(_, entry)| entry.updated_at)`: the first of the oldest entries.
pub oldest : SessionStore → Option (Text × SessionEntry)
oldest [] = none
oldest ((k, e) ∷ t) = elim (oldest t) [
  | none ↦ some (k, e)
  | some (k', e') ↦ if ltb e'.updated_at e.updated_at then some (k', e') else some (k, e)
]

abbrev pub has_key : Text → SessionStore → Bool
has_key id t = elim (Table.get id t) [ none ↦ false | some _ ↦ true ]

abbrev pub drop_key : Option (Text × SessionEntry) → SessionStore → SessionStore
drop_key none t = t
drop_key (some (k, e)) t = Table.remove k t

-- The eviction of one entry for a new session.
pub make_room : SessionConfig → Text → SessionStore → SessionStore
unfolding oldest
make_room config id t =
    if leb config.max_entries (length t) && not (has_key id t) then drop_key (oldest t) t else t

-- `or_insert`: the labels that the session has.
abbrev pub labels_of : Option SessionEntry → List Text
labels_of none = []
labels_of (some e) = e.labels

-- The store and the labels of the session, after a turn with these labels.
pub touch : SessionConfig → ℕ → Text → List Text → SessionStore → SessionStore × List Text
unfolding is_live make_room extend
touch config now id labels t =
    let t' = make_room config id (Table.retain (is_live config now) t) in
    let labels' = extend (labels_of (Table.get id t')) labels in
    (Table.insert id (record { labels = labels'; updated_at = now }) t', labels')

unfoldable pub is_skipped : SessionConfig → Text → Bool
is_skipped config id = not config.enabled || text_eq id []

-- `SessionStore::record_and_check`
unfoldable pub record_and_check :
    SessionConfig → ℕ → Text → List Text → SessionStore → SessionStore × Bool
unfolding touch is_skipped
record_and_check config now id labels t =
    if is_skipped config id
    then (t, false)
    else let (t', labels') = touch config now id labels t in
      (t', leb config.correlation_threshold (length labels'))

-- `SessionStore::active_sessions`
unfoldable pub active_sessions : SessionConfig → ℕ → SessionStore → SessionStore × ℕ
unfolding is_live
active_sessions config now t =
    if config.enabled
    then (let t' = Table.retain (is_live config now) t in (t', length t'))
    else (t, 0)
