-- ===== src/Mitm/Updater.antt =====
-- src/proxy_mode.rs: the polls for a new rule-set.
pub mod Kept
pub mod Bounded
use ctxward.Prelude.{
  ℕ, Bool, Option, none, some, List, [], ◌∷◌, ◌++◌, Text, length, ltb, ◌+◌, if◌then◌else◌,
}
use ctxward.Mitm.Ruleset.{
  Ruleset, RulesetResult, ok, err, Crates, parse_and_verify, max_ruleset_bytes,
}
use ctxward.Mitm.Classify.{Classifier, from_ruleset}

pub record Updater : Type 0 where
  pub classifier : Classifier
  pub current_version : ℕ

-- `fetch_ruleset` once a response is there: its content length, if it names one, and its chunks,
-- none for one that cannot be read. The result is none for an error.
pub read_chunks : Text → List (Option Text) → Option Text
read_chunks buf [] = some buf
read_chunks buf (none ∷ chunks) = none
read_chunks buf (some chunk ∷ chunks) =
    let rest = read_chunks (buf ++ chunk) chunks in
    if ltb max_ruleset_bytes (length buf + length chunk) then none else rest

pub fetch_ruleset : Option ℕ → List (Option Text) → Option Text
unfolding read_chunks
fetch_ruleset none chunks = read_chunks [] chunks
fetch_ruleset (some len) chunks = if ltb max_ruleset_bytes len then none else read_chunks [] chunks

module _ (build : Text → Option (Text → Bool)) (crates : Crates) (pubkey : Text) where
  -- A verified rule-set replaces the classifier only if it is newer.
  pub apply_ruleset : RulesetResult Ruleset → Updater → Updater
  unfolding from_ruleset
  apply_ruleset (err e) u = u
  apply_ruleset (ok rs) u =
      if ltb u.current_version rs.version
      then record { classifier = from_ruleset build rs; current_version = rs.version }
      else u

  -- One turn of the loop, for what was fetched.
  pub poll : Option Text → Updater → Updater
  unfolding apply_ruleset parse_and_verify
  poll none u = u
  poll (some bytes) u = apply_ruleset (parse_and_verify crates bytes pubkey) u

  pub polls : List (Option Text) → Updater → Updater
  unfolding poll
  polls [] u = u
  polls (fetched ∷ more) u = polls more (poll fetched u)
