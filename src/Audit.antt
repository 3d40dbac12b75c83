-- ===== src/Audit.antt =====
-- src/audit.rs: audit records, the buffer of the latest ones, and the reading of the audit file.
-- Writing the file (`AuditSink`) is not modelled.
pub mod Latest
use ctxward.Prelude.{
  ℕ, ◌+◌, ◌-◌, Bool, Option, none, some, List, [], ◌∷◌, ◌++◌, Text, length, drop, max, leb, eqb,
  ltb, if◌then◌else◌,
}

pub record AuditFinding : Type 0 where
  pub label : Text
  pub rule_name : Text
  pub action : Text
  pub pointer : Text
  pub severity : Text
  pub matched_sha256 : Text
  pub matched_len : ℕ

pub record AuditRecord : Type 0 where
  pub ts : ℕ
  pub request_id : Text
  pub principal : Text
  pub tenant_id : Text
  pub direction : Text
  pub path : Text
  pub decision : Text
  pub policy_source : Text
  pub decision_reason : Option Text
  pub matched_labels : List Text
  pub matched_rules : List Text
  pub findings : List AuditFinding
  pub session_id : Option Text
  pub session_escalated : Bool
  pub status_code : Option ℕ
  pub error_stage : Option Text
  pub error_kind : Option Text

-- `AuditStoreInner`, generic in what is recorded
pub record AuditStore {ℓ} (R : Type ℓ) : Type ℓ where
  pub capacity : ℕ
  pub records : List R

module _ {ℓ} {R : Type ℓ} where
  -- `VecDeque::pop_front`
  abbrev pub pop_front : List R → List R
  pop_front [] = []
  pop_front (r ∷ rs) = rs

  -- `while records.len() > capacity { records.pop_front(); }`
  pub pop_excess : ℕ → List R → List R
  pop_excess capacity [] = []
  pop_excess capacity (r ∷ rs) =
      let rest = pop_excess capacity rs in if ltb capacity (length (r ∷ rs)) then rest else r ∷ rs

  unfoldable pub set_capacity : ℕ → AuditStore R → AuditStore R
  unfolding pop_excess
  set_capacity capacity s = record {
    capacity = max capacity 1;
    records = pop_excess (max capacity 1) s.records;
  }

  unfoldable pub new : ℕ → AuditStore R
  unfolding set_capacity
  new capacity = set_capacity capacity (record { capacity = 0; records = [] })

  unfoldable pub push : R → AuditStore R → AuditStore R
  push r s =
      let capacity = if eqb s.capacity 0 then 1000 else s.capacity in
      record {
        capacity = capacity;
        records =
            (if leb capacity (length s.records) then pop_front s.records else s.records) ++ r ∷ [];
      }

  abbrev pub snapshot : AuditStore R → List R
  snapshot s = s.records

  -- `read_recent_audit_file`, on the records of the lines that parse; `none` among the lines is
  -- one that does not.
  pub parsed_lines : List (Option R) → List R
  parsed_lines [] = []
  parsed_lines (none ∷ ls) = parsed_lines ls
  parsed_lines (some r ∷ ls) = r ∷ parsed_lines ls

  unfoldable pub read_recent : List (Option R) → ℕ → List R
  unfolding parsed_lines
  read_recent lines limit =
      let parsed = parsed_lines lines in
      if ltb limit (length parsed) then drop (length parsed - limit) parsed else parsed
