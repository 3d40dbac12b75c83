-- ===== src/Mitm/Updater/Kept.antt =====
-- What a feed of rule-sets can and cannot do to the classifier.
use ctxward.Prelude.{
  ℕ, ◌≤◌, ◌<◌, ◌≡◌, refl, ap, ◌∙◌, ◌⊎◌, inl, inr, Bool, Bool-cases, true, false, Option, ◌++◌, ◌||◌,
  none, some, List, [], ◌∷◌, Text, Some, ltb, ltb→lt, arith,
}
use ctxward.Mitm.Hosts.{HostPattern, intercept, default_intercept_hosts, default_signs_body_hosts}
use ctxward.Mitm.Ruleset.{Ruleset, RulesetResult, ok, err, Crates, parse_and_verify}
use ctxward.Mitm.Classify.{
  Classifier, Matcher, from_ruleset, add_compiled, matches, compile, compile_all, new, signs_body,
  classify, normal_host, any_matches,
}
use ctxward.Mitm.Updater.{Updater, apply_ruleset, poll, polls}

classify-floor :
    (c : Classifier) (host : Text)
    → any_matches c.floor_intercept (normal_host host) ≡ true
    → classify c host ≡ intercept
unfolding classify
classify-floor c host h = rw h refl

or_mono : (b x y : Bool) → (x ≡ true → y ≡ true) → (b || x) ≡ true → (b || y) ≡ true
or_mono true x y f h = refl
or_mono false x y f h = f h

add_compiled-any :
    (o : Option Matcher) (ms more : List Matcher) (host : Text)
    → (any_matches ms host ≡ true → any_matches more host ≡ true)
    → any_matches (add_compiled o ms) host ≡ true
    → any_matches (add_compiled o more) host ≡ true
add_compiled-any none ms more host f h = f h
add_compiled-any (some m) ms more host f h =
    or_mono (matches m host) (any_matches ms host) (any_matches more host) f h

-- Patterns further down the list do not take a match away.
any_matches-append :
    (build : Text → Option (Text → Bool)) (ps qs : List HostPattern) (host : Text)
    → any_matches (compile_all build ps) host ≡ true
    → any_matches (compile_all build (ps ++ qs)) host ≡ true
unfolding compile_all
any_matches-append build [] qs host h = cc
any_matches-append build (p ∷ ps) qs host h =
    add_compiled-any (compile build p) (compile_all build ps) (compile_all build (ps ++ qs)) host
      (any_matches-append build ps qs host) h

floor-from_ruleset :
    (build : Text → Option (Text → Bool)) (rs : Ruleset) (host : Text)
    → any_matches (compile_all build default_intercept_hosts) (normal_host host) ≡ true
    → classify (from_ruleset build rs) host ≡ intercept
unfolding from_ruleset new
floor-from_ruleset build rs host h = classify-floor (from_ruleset build rs) host h

signs-from_ruleset :
    (build : Text → Option (Text → Bool)) (rs : Ruleset) (host : Text)
    → any_matches (compile_all build default_signs_body_hosts) (normal_host host) ≡ true
    → signs_body (from_ruleset build rs) host ≡ true
unfolding from_ruleset new signs_body
signs-from_ruleset build rs host h =
    any_matches-append build default_signs_body_hosts rs.signs_body (normal_host host) h

module _ (build : Text → Option (Text → Bool)) (crates : Crates) (pubkey : Text) where
  -- The response verifies as this rule-set.
  abbrev pub Verifies : Ruleset → Option Text → Type 0
  Verifies rs none = ⊥
  Verifies rs (some bytes) = parse_and_verify crates bytes pubkey ≡ ok rs

  -- What a classifier that has been replaced comes from.
  pub record IsFrom (responses : List (Option Text)) (version : ℕ) (u : Updater) : Type 0 where
    pub applied : Ruleset
    pub verified : Some (Verifies applied) responses
    pub is_newer : version < applied.version
    pub is_current :
        u ≡ record { classifier = from_ruleset build applied; current_version = applied.version }

  apply-cases :
      (r : RulesetResult Ruleset) (u : Updater)
      → (apply_ruleset build crates pubkey r u ≡ u)
        ⊎ ((rs : Ruleset) × (r ≡ ok rs)
            × (u.current_version < rs.version)
            × (apply_ruleset build crates pubkey r u
                ≡ record { classifier = from_ruleset build rs; current_version = rs.version }))
  unfolding apply_ruleset
  apply-cases (err e) u = inl refl
  apply-cases (ok rs) u = elim (Bool-cases (ltb u.current_version rs.version)) [
    | inl h ↦ inr (rs, refl, ltb→lt u.current_version rs.version h, rw h refl)
    | inr h ↦ inl (rw h refl)
  ]

  widen :
      (r : Option Text) (rs : List (Option Text)) (v w : ℕ) (u : Updater)
      → v ≤ w
      → IsFrom rs w u
      → IsFrom (r ∷ rs) v u
  widen r rs v w u h from = record {
    applied = from.applied;
    verified = inr from.verified;
    is_newer = omega (arith, from.is_newer);
    is_current = from.is_current;
  }

  -- What one poll may do.
  abbrev PollCases : Option Text → Updater → Updater → Type 0
  PollCases r u w =
      (w ≡ u)
      ⊎ ((rs : Ruleset) × Verifies rs r
          × (u.current_version < rs.version)
          × (w ≡ record { classifier = from_ruleset build rs; current_version = rs.version }))

  poll-PollCases : (r : Option Text) (u : Updater) → PollCases r u (poll build crates pubkey r u)
  unfolding poll
  poll-PollCases none u = inl refl
  poll-PollCases (some bytes) u = apply-cases (parse_and_verify crates bytes pubkey) u

  then_more :
      (r : Option Text) (more : List (Option Text)) (u w z : Updater)
      → PollCases r u w
      → (z ≡ w) ⊎ IsFrom more w.current_version z
      → (z ≡ u) ⊎ IsFrom (r ∷ more) u.current_version z
  then_more r more u w z (inl e) (inl d) = inl (d ∙ e)
  then_more r more u w z (inl e) (inr from) = inr (
      widen r more u.current_version w.current_version z
        (omega (arith, ap (λ (x : Updater). x.current_version) e)) from)
  then_more r more u w z (inr (rs, v, lt, e)) (inl d) =
      inr (record { applied = rs; verified = inl v; is_newer = lt; is_current = d ∙ e })
  then_more r more u w z (inr (rs, v, lt, e)) (inr from) = inr (
      widen r more u.current_version w.current_version z
        (omega (arith, lt, ap (λ (x : Updater). x.current_version) e)) from)

  -- After any responses, the classifier and its version are the ones that there were, or those of a
  -- rule-set that one of the responses verifies as and whose version is greater than the one at the
  -- start.
  pub polls-IsFrom :
      (responses : List (Option Text)) (u : Updater)
      → (polls build crates pubkey responses u ≡ u)
        ⊎ IsFrom responses u.current_version (polls build crates pubkey responses u)
  unfolding polls poll
  polls-IsFrom [] u = inl refl
  polls-IsFrom (r ∷ more) u =
      then_more r more u (poll build crates pubkey r u)
        (polls build crates pubkey more (poll build crates pubkey r u)) (poll-PollCases r u)
        (polls-IsFrom more (poll build crates pubkey r u))

  -- A host on the list that is built in and that the classifier intercepts is still intercepted
  -- after any responses, whatever rule-sets they verify as.
  pub polls-intercept :
      (responses : List (Option Text)) (u : Updater) (host : Text)
      → any_matches (compile_all build default_intercept_hosts) (normal_host host) ≡ true
      → classify u.classifier host ≡ intercept
      → classify (polls build crates pubkey responses u).classifier host ≡ intercept
  polls-intercept responses u host h start = elim (polls-IsFrom responses u) [
    | inl e ↦ ap (λ (x : Updater). classify x.classifier host) e ∙ start
    | inr from ↦
        ap (λ (x : Updater). classify x.classifier host) from.is_current
        ∙ floor-from_ruleset build from.applied host h
  ]

  -- A host on the list that is built in of those that sign their bodies, and that the classifier has
  -- for one, stays one after any responses.
  pub polls-signs_body :
      (responses : List (Option Text)) (u : Updater) (host : Text)
      → any_matches (compile_all build default_signs_body_hosts) (normal_host host) ≡ true
      → signs_body u.classifier host ≡ true
      → signs_body (polls build crates pubkey responses u).classifier host ≡ true
  polls-signs_body responses u host h start = elim (polls-IsFrom responses u) [
    | inl e ↦ ap (λ (x : Updater). signs_body x.classifier host) e ∙ start
    | inr from ↦
        ap (λ (x : Updater). signs_body x.classifier host) from.is_current
        ∙ signs-from_ruleset build from.applied host h
  ]
