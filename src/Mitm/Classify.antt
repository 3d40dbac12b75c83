-- ===== src/Mitm/Classify.antt =====
-- src/mitm/classify.rs: the classification of hosts and the cache of pinned ones. Instants are
-- numbers of nanoseconds.
pub mod Wildcard
pub mod Pins
use ctxward.Prelude.{
  ℕ, suc, ◌+◌, ◌-◌, ◌*◌, Bool, true, false, ◌&&◌, Option, none, some, List, [], ◌∷◌, ◌++◌, Text,
  bytes, any, drop, length, ltb, eqb, text_eq, eq_text_pair, if◌then◌else◌,
}
use ctxward.Prelude.Ascii.{strip_prefix, to_lowercase}
use ctxward.Prelude.Table
use ctxward.Prelude.Table.{Table}
use ctxward.Mitm.Hosts.{
  HostPattern, exact_host, wildcard_host, regex_host, ProxyAction, intercept, passthrough,
  default_intercept_hosts, default_signs_body_hosts,
}
use ctxward.Mitm.Ruleset.{Ruleset}

-- A compiled regular expression is the test that it is.
pub data Matcher : Type 0 where
  exact : Text → Matcher
  wildcard : Text → Matcher
  regex : (Text → Bool) → Matcher

abbrev pub or_whole : Text → Option Text → Text
or_whole h none = h
or_whole h (some suffix) = suffix

-- `host.as_bytes()[i]`, which the caller's test keeps inside the host
abbrev pub byte_at : Text → ℕ → ℕ
byte_at host i = elim (drop i host) [ [] ↦ 0 | b ∷ rest ↦ b ]

unfoldable pub ends_with : Text → Text → Bool
ends_with suffix host = text_eq (drop (length host - length suffix) host) suffix

-- `Matcher::matches`
unfoldable pub matches : Matcher → Text → Bool
unfolding ends_with
matches (exact h) host = text_eq host h
matches (wildcard suffix) host =
    ends_with suffix host
    && (ltb (length suffix) (length host)
        && eqb (byte_at host (length host - length suffix - 1)) b'.')
matches (regex is_match) host = is_match host

abbrev pub add_compiled : Option Matcher → List Matcher → List Matcher
add_compiled none ms = ms
add_compiled (some m) ms = m ∷ ms

-- `regex::RegexBuilder` with `case_insensitive`
module _ (build : Text → Option (Text → Bool)) where
  -- `Matcher::compile`
  unfoldable pub compile : HostPattern → Option Matcher
  compile (exact_host h) = some (exact (to_lowercase h))
  compile (wildcard_host h) =
      some (wildcard (to_lowercase (or_whole h (strip_prefix (bytes "*.") h))))
  compile (regex_host r) = elim (build r) [ none ↦ none | some is_match ↦ some (regex is_match) ]

  -- Patterns that do not compile are skipped.
  unfoldable pub compile_all : List HostPattern → List Matcher
  unfolding compile
  compile_all [] = []
  compile_all (p ∷ ps) = add_compiled (compile p) (compile_all ps)

pub record Classifier : Type 0 where
  pub floor_intercept : List Matcher
  pub intercepted : List Matcher
  pub passed_through : List Matcher
  pub default : ProxyAction
  pub signs_body_hosts : List Matcher

-- The part of `ProxyConfig` of config.rs that is compiled, and the time to live of `pin_fallback`.
pub record ProxyConfig : Type 0 where
  pub intercept_hosts : List HostPattern
  pub passthrough_hosts : List HostPattern
  pub default_action : ProxyAction
  pub signs_body : List HostPattern
  pub block_ttl_secs : ℕ

module _ (build : Text → Option (Text → Bool)) where
  -- `Classifier::new`
  unfoldable pub new :
      List HostPattern
      → List HostPattern
      → List HostPattern
      → ProxyAction
      → List HostPattern
      → Classifier
  unfolding compile_all
  new floor intercepts passes default signs = record {
    floor_intercept = compile_all build floor;
    intercepted = compile_all build intercepts;
    passed_through = compile_all build passes;
    default = default;
    signs_body_hosts = compile_all build signs;
  }

  unfoldable pub from_config : ProxyConfig → Classifier
  unfolding new
  from_config cfg =
      new [] cfg.intercept_hosts cfg.passthrough_hosts cfg.default_action cfg.signs_body

  unfoldable pub from_ruleset : Ruleset → Classifier
  unfolding new
  from_ruleset rs =
      new default_intercept_hosts rs.intercept_hosts rs.passthrough_hosts rs.default_action
        (default_signs_body_hosts ++ rs.signs_body)

-- `str::trim_end_matches('.')`
unfoldable pub trim_dots : Text → Text
trim_dots [] = []
trim_dots (b ∷ s) = elim (trim_dots s) [
  | [] ↦ if eqb b b'.' then [] else b ∷ []
  | c ∷ cs ↦ b ∷ c ∷ cs
]

abbrev pub normal_host : Text → Text
normal_host host = to_lowercase (trim_dots host)

abbrev pub any_matches : List Matcher → Text → Bool
any_matches ms host = any (λ m. matches m host) ms

-- `Classifier::classify`
unfoldable pub classify : Classifier → Text → ProxyAction
unfolding trim_dots matches
classify c host =
    let h = normal_host host in
    if any_matches c.floor_intercept h
    then intercept
    else if any_matches c.passed_through h
    then passthrough
    else if any_matches c.intercepted h
    then intercept
    else c.default

-- `Classifier::signs_body`
unfoldable pub signs_body : Classifier → Text → Bool
unfolding trim_dots matches
signs_body c host = any_matches c.signs_body_hosts (normal_host host)

pub record PinCache : Type 0 where
  pub ttl : ℕ
  pub pinned : Table (Text × Text) ℕ

abbrev pub new_pins : ProxyConfig → PinCache
new_pins cfg = record { ttl = cfg.block_ttl_secs * 1_000_000_000; pinned = [] }

-- `PinCache::mark`
pub mark : ℕ → Text → Text → PinCache → PinCache
mark now peer sni c = record c {
  pinned = Table.insert (peer, to_lowercase sni) (now + c.ttl) c.pinned;
}

-- `PinCache::is_pinned`
unfoldable pub is_pinned : ℕ → Text → Text → PinCache → PinCache × Bool
is_pinned now peer sni c = elim (Table.get (peer, to_lowercase sni) c.pinned) [
  | none ↦ (c, false)
  | some deadline ↦
      if ltb now deadline
      then (c, true)
      else (record c { pinned = Table.remove (peer, to_lowercase sni) c.pinned }, false)
]
