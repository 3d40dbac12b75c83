-- ===== src/Proxy/Admin/Audits/Query.antt =====
-- src/proxy.rs: the filters of `admin_audits`.
use ctxward.Prelude.{
  ◌≡◌, refl, ap, Bool, true, false, Bool-cases, inl, inr, ◌&&◌, Option, none, some, List, [], ◌∷◌,
  Text, text_eq, text_eq_iff, eq_text, any, Some,
}
use ctxward.Audit.{AuditRecord}
use ctxward.Proxy.Admin.{AuditQuery, is_expected, is_expected_option, has_label, is_queried}

-- What the filters of a query ask for.
abbrev pub Asks : Option Text → Text → Type 0
Asks none value = Unit
Asks (some expected) value = value ≡ expected

abbrev pub AsksOption : Option Text → Option Text → Type 0
AsksOption none value = Unit
AsksOption (some expected) value = value ≡ some expected

abbrev pub AsksLabel : Option Text → List Text → Type 0
AsksLabel none labels = Unit
AsksLabel (some expected) labels = Some (λ label. label ≡ expected) labels

pub record IsQueried (q : AuditQuery) (r : AuditRecord) : Type 0 where
  pub principal : Asks q.principal r.principal
  pub decision : Asks q.decision r.decision
  pub policy_source : Asks q.policy_source r.policy_source
  pub direction : Asks q.direction r.direction
  pub request_id : Asks q.request_id r.request_id
  pub session_id : AsksOption q.session_id r.session_id
  pub label : AsksLabel q.label r.matched_labels
  pub error_stage : AsksOption q.error_stage r.error_stage
  pub error_kind : AsksOption q.error_kind r.error_kind

pub expected-Asks : (o : Option Text) (v : Text) → is_expected o v ≡ true → Asks o v
expected-Asks none v h = tt
expected-Asks (some x) v h = (text_eq_iff v x).0 h

pub expected-AsksOption : (o v : Option Text) → is_expected_option o v ≡ true → AsksOption o v
expected-AsksOption none v h = tt
expected-AsksOption (some x) none h = cc
expected-AsksOption (some x) (some v) h = ap some ((text_eq_iff v x).0 h)

pub any-Some :
    (x : Text) (labels : List Text)
    → any (λ l. text_eq l x) labels ≡ true
    → Some (λ l. l ≡ x) labels
any-Some x [] h = cc
any-Some x (l ∷ ls) h = elim (Bool-cases (text_eq l x)) [
  | inl e ↦ inl ((text_eq_iff l x).0 e)
  | inr e ↦ inr (any-Some x ls (rw e at h))
]

pub has_label-AsksLabel :
    (o : Option Text) (labels : List Text) → has_label o labels ≡ true → AsksLabel o labels
has_label-AsksLabel none labels h = tt
has_label-AsksLabel (some x) labels h = any-Some x labels h

pub and_left : (a b : Bool) → (a && b) ≡ true → a ≡ true
and_left true b h = refl
and_left false b h = cc

pub and_right : (a b : Bool) → (a && b) ≡ true → b ≡ true
and_right true b h = h
and_right false b h = cc

pub is_queried-IsQueried :
    (q : AuditQuery) (r : AuditRecord) → is_queried q r ≡ true → IsQueried q r
unfolding is_queried
is_queried-IsQueried q r h0 =
    let h1 = and_right (is_expected q.principal r.principal) _ h0 in
    let h2 = and_right (is_expected q.decision r.decision) _ h1 in
    let h3 = and_right (is_expected q.policy_source r.policy_source) _ h2 in
    let h4 = and_right (is_expected q.direction r.direction) _ h3 in
    let h5 = and_right (is_expected q.request_id r.request_id) _ h4 in
    let h6 = and_right (is_expected_option q.session_id r.session_id) _ h5 in
    let h7 = and_right (has_label q.label r.matched_labels) _ h6 in
    record {
      principal = expected-Asks q.principal r.principal (and_left _ _ h0);
      decision = expected-Asks q.decision r.decision (and_left _ _ h1);
      policy_source = expected-Asks q.policy_source r.policy_source (and_left _ _ h2);
      direction = expected-Asks q.direction r.direction (and_left _ _ h3);
      request_id = expected-Asks q.request_id r.request_id (and_left _ _ h4);
      session_id = expected-AsksOption q.session_id r.session_id (and_left _ _ h5);
      label = has_label-AsksLabel q.label r.matched_labels (and_left _ _ h6);
      error_stage = expected-AsksOption q.error_stage r.error_stage (and_left _ _ h7);
      error_kind = expected-AsksOption q.error_kind r.error_kind (and_right _ _ h7);
    }
