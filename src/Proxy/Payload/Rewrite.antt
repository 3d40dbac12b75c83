-- ===== src/Proxy/Payload/Rewrite.antt =====
-- The loop over the pointers of a value's strings is a walk over the value.
use ctxward.Prelude.{
  ℕ, suc, ◌≡◌, refl, sym, ap, ◌∙◌, Bool, true, false, Bool-cases, inl, inr, Option, none, List, [],
  ◌∷◌, ◌++◌, append_nil, append_assoc, Text, bytes,
}
use ctxward.Prelude.Decimal.{decimal}
use ctxward.Core.Auth.{Principal}
use ctxward.Core.Types.{Direction, allow}
use ctxward.Core.Policy.{ResolvedFinding}
use ctxward.Core.Detect.Scan.{should_ignore_pointer}
use ctxward.App.Engines.{Engines}
use ctxward.App.Errors.{bind_cong, bind_assoc, bind_ok, Outcome, ok, ◌>>=◌}
use ctxward.Json.{
  Value, null, boolean, number, string, array, object, Items, nil, cons, Fields, end, field,
  escape_key, at_token, collect_string_nodes, collect_items, collect_fields,
}
use ctxward.Json.Pointers.{
  append_items, count_items, append_fields, PointerLaws, HasUniqueKeys, AllUnique, FieldsUnique,
  append_items-snoc, count_items-snoc, append_fields-snoc,
}
use ctxward.Proxy.Payload.{
  TextProcessResult, JsonProcessResult, process_text, combined, filled, sanitize_nodes,
  sanitize_json_value,
}
use ctxward.Proxy.Payload.Plugs.{Plugs, Plugs-item, Plugs-field, Plugs-here, Plugs-all}

module _ (ignored : Text → Bool) (process : Text → Text → Outcome TextProcessResult) where
  -- A string, unless its pointer is ignored.
  abbrev pub rewrite_string : Text → Text → Bool → Outcome (Value × List ResolvedFinding)
  rewrite_string pointer text true = ok (string text, [])
  rewrite_string pointer text false =
      process text pointer >>= λ r. ok (string r.redacted_text, r.policy.findings)

  -- The walk: each string at its pointer, from the first to the last; the first error ends it.
  unfoldable mutual
    pub rewrite : Text → Value → Outcome (Value × List ResolvedFinding)
    rewrite pointer null = ok (null, [])
    rewrite pointer (boolean b) = ok (boolean b, [])
    rewrite pointer (number n) = ok (number n, [])
    rewrite pointer (string text) = rewrite_string pointer text (ignored pointer)
    rewrite pointer (array items) = rewrite_items pointer 0 items >>= λ r. ok (array r.0, r.1)
    rewrite pointer (object fields) = rewrite_fields pointer fields >>= λ r. ok (object r.0, r.1)

    pub rewrite_items : Text → ℕ → Items → Outcome (Items × List ResolvedFinding)
    rewrite_items pointer index nil = ok (nil, [])
    rewrite_items pointer index (cons item items) =
        rewrite (at_token pointer (decimal index)) item >>= λ r.
        rewrite_items pointer (suc index) items >>= λ s. ok (cons r.0 s.0, r.1 ++ s.1)

    pub rewrite_fields : Text → Fields → Outcome (Fields × List ResolvedFinding)
    rewrite_fields pointer end = ok (end, [])
    rewrite_fields pointer (field key item fields) =
        rewrite (at_token pointer (escape_key key)) item >>= λ r.
        rewrite_fields pointer fields >>= λ s. ok (field key r.0 s.0, r.1 ++ s.1)

-- A walk over a part and then one over the rest are the walk over both.
two_walks {ℓ κ} :
    {C : Type ℓ} {R : Type κ} (m : Outcome (Value × List ResolvedFinding))
    (n : Outcome (C × List ResolvedFinding)) (both : Value → C → C)
    (next : Value × List ResolvedFinding → Outcome R)
    (finish : C × List ResolvedFinding → Outcome R) {start : Outcome R}
    → start ≡ (m >>= next)
    → ((r : Value × List ResolvedFinding) → next r ≡ (n >>= λ s. finish (both r.0 s.0, r.1 ++ s.1)))
    → start ≡ ((m >>= λ r. n >>= λ s. ok (both r.0 s.0, r.1 ++ s.1)) >>= finish)
two_walks m n both next finish e h =
    e
    ∙ bind_cong m next (λ r. (n >>= λ s. ok (both r.0 s.0, r.1 ++ s.1)) >>= finish)
        (λ r. h r ∙ sym (bind_assoc n (λ s. ok (both r.0 s.0, r.1 ++ s.1)) finish))
    ∙ sym (bind_assoc m (λ r. n >>= λ s. ok (both r.0 s.0, r.1 ++ s.1)) finish)

module _ (assign : Text → Text → Value → Option Value) (laws : PointerLaws assign)
    (ignored : Text → Bool) (process : Text → Text → Outcome TextProcessResult) where
  abbrev loop :
      List (Text × Text) → Value → List ResolvedFinding → Outcome (Value × List ResolvedFinding)
  loop = sanitize_nodes assign ignored process

  walk_string :
      (base : Text) (plug : Value → Value) (text : Text) (nodes : List (Text × Text))
      (fs : List ResolvedFinding)
      → Plugs assign base plug
      → loop ((base, text) ∷ nodes) (plug (string text)) fs
        ≡ (rewrite ignored process base (string text) >>= λ r. loop nodes (plug r.0) (fs ++ r.1))
  unfolding sanitize_nodes rewrite
  walk_string base plug text nodes fs p = elim (Bool-cases (ignored base)) [
    | inl e ↦ rw (sanitize_nodes, e, append_nil fs) refl
    | inr e ↦
        rw (sanitize_nodes, e)
          (bind_cong (process text base)
              (λ r.
                loop nodes
                  (filled (plug (string text)) (assign base r.redacted_text (plug (string text))))
                  (fs ++ r.policy.findings))
              (λ r. loop nodes (plug (string r.redacted_text)) (fs ++ r.policy.findings))
              (λ r. rw (Plugs-here assign laws base plug r.redacted_text (string text) p) refl)
            ∙ sym (
                bind_assoc (process text base) (λ r. ok (string r.redacted_text, r.policy.findings))
                  (λ r. loop nodes (plug r.0) (fs ++ r.1))))
  ]

  mutual
    unfolding rewrite collect_string_nodes

    walk :
        (base : Text) (plug : Value → Value) (v : Value) (nodes : List (Text × Text))
        (fs : List ResolvedFinding)
        → Plugs assign base plug
        → HasUniqueKeys v
        → loop (collect_string_nodes v base ++ nodes) (plug v) fs
          ≡ (rewrite ignored process base v >>= λ r. loop nodes (plug r.0) (fs ++ r.1))
    walk base plug null nodes fs p u = rw (append_nil fs) refl
    walk base plug (boolean b) nodes fs p u = rw (append_nil fs) refl
    walk base plug (number n) nodes fs p u = rw (append_nil fs) refl
    walk base plug (string text) nodes fs p u = walk_string base plug text nodes fs p
    walk base plug (array items) nodes fs p u =
        walk_items base plug nil items nodes fs p u
        ∙ sym (
            bind_assoc (rewrite_items ignored process base 0 items) (λ r. ok (array r.0, r.1))
              (λ r. loop nodes (plug r.0) (fs ++ r.1)))
    walk base plug (object fields) nodes fs p u =
        walk_fields base plug end fields nodes fs p u
        ∙ sym (
            bind_assoc (rewrite_fields ignored process base fields) (λ r. ok (object r.0, r.1))
              (λ r. loop nodes (plug r.0) (fs ++ r.1)))

    walk_items :
        (base : Text) (plug : Value → Value) (before items : Items) (nodes : List (Text × Text))
        (fs : List ResolvedFinding)
        → Plugs assign base plug
        → AllUnique items
        → loop
            (collect_items items base (count_items before) ++ nodes)
            (plug (array (append_items before items)))
            fs
          ≡ (rewrite_items ignored process base (count_items before) items >>= λ r.
              loop nodes (plug (array (append_items before r.0))) (fs ++ r.1))
    walk_items base plug before nil nodes fs p u = rw (append_nil fs) refl
    walk_items base plug before (cons v items) nodes fs p u =
        rw
          (append_assoc (collect_string_nodes v (at_token base (decimal (count_items before))))
            (collect_items items base (suc (count_items before))) nodes)
          (two_walks (rewrite ignored process (at_token base (decimal (count_items before))) v)
            (rewrite_items ignored process base (suc (count_items before)) items) cons
            (λ r.
              loop (collect_items items base (suc (count_items before)) ++ nodes)
                (plug (array (append_items before (cons r.0 items)))) (fs ++ r.1))
            (λ r. loop nodes (plug (array (append_items before r.0))) (fs ++ r.1))
            (walk (at_token base (decimal (count_items before)))
              (λ w. plug (array (append_items before (cons w items)))) v
              (collect_items items base (suc (count_items before)) ++ nodes) fs
              (Plugs-item assign laws base plug before items p) u.0)
            (λ r.
              simp (count_items-snoc, append_items-snoc, append_assoc) at
                (walk_items base plug (append_items before (cons r.0 nil)) items nodes (fs ++ r.1) p
                  u.1)))

    walk_fields :
        (base : Text) (plug : Value → Value) (before fields : Fields) (nodes : List (Text × Text))
        (fs : List ResolvedFinding)
        → Plugs assign base plug
        → FieldsUnique fields
        → loop
            (collect_fields fields base ++ nodes)
            (plug (object (append_fields before fields)))
            fs
          ≡ (rewrite_fields ignored process base fields >>= λ r.
              loop nodes (plug (object (append_fields before r.0))) (fs ++ r.1))
    walk_fields base plug before end nodes fs p u = rw (append_nil fs) refl
    walk_fields base plug before (field k v fields) nodes fs p u =
        rw
          (append_assoc (collect_string_nodes v (at_token base (escape_key k)))
            (collect_fields fields base) nodes)
          (two_walks (rewrite ignored process (at_token base (escape_key k)) v)
            (rewrite_fields ignored process base fields) (field k)
            (λ r.
              loop (collect_fields fields base ++ nodes)
                (plug (object (append_fields before (field k r.0 fields)))) (fs ++ r.1))
            (λ r. loop nodes (plug (object (append_fields before r.0))) (fs ++ r.1))
            (walk (at_token base (escape_key k))
              (λ w. plug (object (append_fields before (field k w fields)))) v
              (collect_fields fields base ++ nodes) fs
              (Plugs-field assign laws base plug before k fields u.0 p) u.1)
            (λ r.
              simp (append_fields-snoc, append_assoc) at
                (walk_fields base plug (append_fields before (field k r.0 end)) fields nodes
                  (fs ++ r.1) p u.2)))

  loop_all :
      (v : Value)
      → HasUniqueKeys v
      → loop (collect_string_nodes v []) v [] ≡ rewrite ignored process [] v
  unfolding sanitize_nodes
  loop_all v u =
      ap (λ nodes. loop nodes v []) (sym (append_nil (collect_string_nodes v [])))
      ∙ walk [] (λ w. w) v [] [] (Plugs-all assign) u
      ∙ bind_ok (rewrite ignored process [] v)

-- The builtin outcome of what a walk has found.
abbrev pub json_result : Value × List ResolvedFinding → JsonProcessResult
json_result r = record {
  redacted_value = r.0;
  policy = record {
    decision = combined allow r.1;
    findings = r.1;
    source = bytes "builtin";
    reason = none;
  };
}

-- If pointers address slots as they are documented to, then a value whose maps have unique keys is
-- sanitized by one walk: every string that is not at an ignored pointer is processed once, at its
-- own pointer, and replaced where it stands; the rest of the value stays; the findings are those of
-- the strings, in the order of the walk; and the first string that fails decides the error.
pub sanitize_json_value-rewrite :
    (assign : Text → Text → Value → Option Value) (e : Engines) (principal : Principal) (v : Value)
    (direction : Direction)
    → PointerLaws assign
    → HasUniqueKeys v
    → sanitize_json_value assign e principal v direction ≡ (
        rewrite
          (should_ignore_pointer e.detector)
          (λ text pointer. process_text e principal text pointer direction)
          []
          v
        >>= λ r. ok (json_result r))
unfolding sanitize_json_value
sanitize_json_value-rewrite assign e principal v direction laws unique =
    ap (λ m. m >>= λ r. ok (json_result r))
      (loop_all assign laws (should_ignore_pointer e.detector)
        (λ text pointer. process_text e principal text pointer direction) v unique)
