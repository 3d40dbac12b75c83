-- ===== src/Proxy/Admin/Audits.antt =====
-- src/proxy.rs: what an admin gets of the audits.
pub mod Query
pub mod Ordered
pub mod Complete
use ctxward.Prelude.{
  ℕ, zero, suc, ◌≤◌, ◌≡◌, refl, sym, ap, ◌∙◌, Bool, true, false, Bool-cases, inl, inr, ◌⊎◌, not,
  ◌&&◌, ◌||◌, Option, none, some, List, [], ◌∷◌, ◌++◌, Text, text_eq, text_eq_iff, eq_text, any,
  filter, take, length, length-take, leb, leb→le, leb_false→lt, All, All-map, All-append, Some, min,
  arith, if◌then◌else◌,
}
use mathlib.Core.List.{reverse, reverse-cons}
use ctxward.Audit.{AuditRecord, AuditStore, snapshot}
use ctxward.Proxy.Admin.{
  AuditSource, memory, file, both, AuditQuery, unwrap_or, parse_audit_source, limit_of, is_expected,
  is_expected_option, has_label, is_queried, insert_newest, sort_newest, retain_first, file_records,
  records_of, find_audits,
}
use Query.{IsQueried, is_queried-IsQueried}
use Complete.{
  Has, Has-append, Has-reverse, Has-sort, Has-retain, Has-filter, Has-take, IsQueried-is_queried,
}
use Ordered.{
  All-filter, filter-passed, All-take, All-reverse, All-sort, Ordered-filter, Ordered-take,
  IsNewestFirst, sort-IsNewestFirst, All-retain, Ordered-retain, IsDistinct, retain-IsDistinct,
}

All-Has : (rs : List AuditRecord) → All (Has rs) rs
All-Has [] = tt
All-Has (r ∷ rs) = (inl refl, All-map (Has rs) (Has (r ∷ rs)) rs (λ x h. inr h) (All-Has rs))

module _ (same : AuditRecord → AuditRecord → Bool) (q : AuditQuery) (store : AuditStore AuditRecord)
    (lines : Option (List (Option AuditRecord))) where
  -- A record of the buffer, or one of the last of the file.
  abbrev pub IsKnown : AuditRecord → Type 0
  IsKnown r =
      Some (λ x. x ≡ r) store.records
      ⊎ Some (λ x. x ≡ r) (file_records same lines (limit_of q.limit))

  abbrev pub IsMerged : AuditSource → List AuditRecord → Type 0
  IsMerged memory rs = Unit
  IsMerged file rs = Unit
  IsMerged both rs = IsNewestFirst rs × IsDistinct same rs

  -- The records of the source that is asked.
  abbrev pub source_records : AuditSource → List AuditRecord
  source_records memory = store.records
  source_records file = file_records same lines (limit_of q.limit)
  source_records both = store.records ++ file_records same lines (limit_of q.limit)

  -- A record is in the answer, or not asked for, or the answer is full.
  abbrev pub IsShown : List AuditRecord → AuditRecord → Type 0
  IsShown rs r = Has rs r ⊎ (¬ (IsQueried q r)) ⊎ (min (unwrap_or 50 q.limit) 500 ≤ length rs)

  pub record IsListed (rs : List AuditRecord) : Type 0 where
    pub bounded : (length rs ≤ unwrap_or 50 q.limit) × (length rs ≤ 500)
    pub queried : All (IsQueried q) rs
    pub known : All IsKnown rs
    pub complete : All (IsShown rs) (source_records (parse_audit_source q.source))
    pub merged : IsMerged (parse_audit_source q.source) rs

  records-IsKnown :
      (s : AuditSource) → All IsKnown (records_of same s (limit_of q.limit) store lines)
  unfolding records_of
  records-IsKnown memory =
      All-map (Has store.records) IsKnown (reverse store.records) (λ r h. inl h)
        (All-reverse (Has store.records) store.records (All-Has store.records))
  records-IsKnown file =
      let rs = file_records same lines (limit_of q.limit) in
      All-map (Has rs) IsKnown (reverse rs) (λ r h. inr h) (All-reverse (Has rs) rs (All-Has rs))
  records-IsKnown both =
      let rs = file_records same lines (limit_of q.limit) in
      All-retain same IsKnown [] (sort_newest (store.records ++ rs)) (
        All-sort IsKnown (store.records ++ rs) (
          All-append IsKnown store.records rs
            (All-map (Has store.records) IsKnown store.records (λ r h. inl h)
              (All-Has store.records))
            (All-map (Has rs) IsKnown rs (λ r h. inr h) (All-Has rs))))

  merged-IsMerged :
      (s : AuditSource) (n : ℕ) (test : AuditRecord → Bool)
      → IsMerged s (take n (filter test (records_of same s (limit_of q.limit) store lines)))
  unfolding records_of
  merged-IsMerged memory n test = tt
  merged-IsMerged file n test = tt
  merged-IsMerged both n test =
      let all = store.records ++ file_records same lines (limit_of q.limit) in
      let rs = retain_first same [] (sort_newest all) in
      (
        Ordered-take (λ r s. s.ts ≤ r.ts) n (filter test rs)
            (Ordered-filter (λ r s. s.ts ≤ r.ts) test rs
              (Ordered-retain same (λ r s. s.ts ≤ r.ts) [] (sort_newest all)
                (sort-IsNewestFirst all))),
        Ordered-take (λ r s. same s r ≡ false) n (filter test rs)
            (Ordered-filter (λ r s. same s r ≡ false) test rs
              (retain-IsDistinct same [] (sort_newest all))),
      )

  abbrev pub IsLawful : Type 0
  IsLawful =
      (a b : AuditRecord)
      → Has (source_records both) a
      → Has (source_records both) b
      → same a b ≡ true
      → a ≡ b

  source_records-Has :
      (s : AuditSource) (r : AuditRecord)
      → IsLawful
      → Has (source_records s) r
      → Has (records_of same s (limit_of q.limit) store lines) r
  unfolding records_of
  source_records-Has memory r lawful h = Has-reverse store.records r h
  source_records-Has file r lawful h = Has-reverse (file_records same lines (limit_of q.limit)) r h
  source_records-Has both r lawful h =
      let all = source_records both in
      elim (Has-retain same (Has all) lawful [] (sort_newest all) r tt
        (All-sort (Has all) all (All-Has all)) (Has-sort all r h)) [ inl a ↦ a | inr a ↦ absurd a ]

  shown :
      (rs : List AuditRecord) (r : AuditRecord)
      → Has rs r
      → IsShown (take (limit_of q.limit) (filter (is_queried q) rs)) r
  shown rs r h = elim (Bool-cases (is_queried q r)) [
    | inl e ↦
        elim (Has-take (limit_of q.limit) (filter (is_queried q) rs) r
          (Has-filter (is_queried q) rs r e h)) [ inl a ↦ inl a | inr a ↦ inr (inr a) ]
    | inr e ↦ inr (inl (λ asks. cc (IsQueried-is_queried q r asks, e)))
  ]

  source_records-IsShown :
      IsLawful
      → All
          (IsShown (find_audits same q store lines))
          (source_records (parse_audit_source q.source))
  unfolding find_audits
  source_records-IsShown lawful =
      let s = parse_audit_source q.source in
      All-map (Has (source_records s)) (IsShown (find_audits same q store lines)) (source_records s)
        (λ r h.
          shown (records_of same s (limit_of q.limit) store lines) r
            (source_records-Has s r lawful h))
        (All-Has (source_records s))

  -- If same tells the records apart, an admin gets at most as many audit records as asked for, which
  -- is 50 if no limit is named, and at most 500; each satisfies every filter of the query, and is one
  -- of the buffer or of the file; every record of the source that is asked, of the buffer, of the
  -- lines read of the file or of both, is in the answer, unless a filter excludes it or the answer is
  -- full; and where both are asked, no record is newer than one before it, and none is there twice.
  pub find_audits-IsListed : IsLawful → IsListed (find_audits same q store lines)
  unfolding find_audits
  find_audits-IsListed lawful =
      let source = parse_audit_source q.source in
      let limit = limit_of q.limit in
      let rs = records_of same source limit store lines in
      let found = filter (is_queried q) rs in
      record {
        bounded = (omega (arith, length-take limit found), omega (arith, length-take limit found));
        queried = All-take (IsQueried q) limit found (
            All-map (λ r. is_queried q r ≡ true) (IsQueried q) found (is_queried-IsQueried q)
              (filter-passed (is_queried q) rs));
        known =
            All-take IsKnown limit found
              (All-filter IsKnown (is_queried q) rs (records-IsKnown source));
        complete = source_records-IsShown lawful;
        merged = merged-IsMerged source limit (is_queried q);
      }
