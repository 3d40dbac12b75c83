-- ===== src/Tests/Hosts.antt =====
-- A feed of rule-sets whose envelopes are a byte, which is the version, and a signature.
use ctxward.Prelude.{
  ◌≡◌, refl, ◌⊎◌, Bool, true, Option, none, some, List, [], ◌∷◌, Text, bytes, text_eq, ◌++◌, ◌↔◌,
  if◌then◌else◌,
}
use ctxward.Prelude.Ascii
use ctxward.Mitm.Hosts.{
  exact_host, intercept, passthrough, default_intercept_hosts, default_signs_body_hosts,
}
use ctxward.Mitm.Ruleset.{Ruleset, SignedRuleset, Crates, parse_and_verify}
use ctxward.Mitm.Ruleset.Signed.{IsSigned, parse_and_verify-IsSigned}
use ctxward.Mitm.Classify.{
  wildcard, matches, ProxyConfig, from_config, classify, ends_with, compile, compile_all, new,
  trim_dots,
}
use ctxward.Mitm.Classify.Wildcard.{matches-wildcard}
use ctxward.Mitm.Updater.{Updater, polls}
use ctxward.Mitm.Updater.Kept.{IsFrom, polls-IsFrom, polls-intercept}

abbrev build : Text → Option (Text → Bool)
build r = some (λ host. text_eq host r)

abbrev key : Text
key = bytes "0123456789abcdef0123456789abcdef"

abbrev envelope_of : Text → Option SignedRuleset
envelope_of [] = none
envelope_of (v ∷ signature) = some (record { ruleset_text = v ∷ []; signature = signature })

abbrev ruleset_of : Text → Option Ruleset
ruleset_of [] = none
ruleset_of (v ∷ rest) = some (record {
  version = v;
  intercept_hosts = [];
  passthrough_hosts = exact_host (bytes "api.openai.com") ∷ [];
  default_action = passthrough;
  signs_body = [];
})

abbrev crates : Crates
crates = record {
  parse_envelope = envelope_of;
  parse_ruleset = ruleset_of;
  decode_hex = λ s. if text_eq s (bytes "k") then some key else some (key ++ key);
  verifying_key = λ k. some (λ message signature. text_eq message (3 ∷ []));
}

abbrev config : ProxyConfig
config = record {
  intercept_hosts = default_intercept_hosts;
  passthrough_hosts = [];
  default_action = passthrough;
  signs_body = default_signs_body_hosts;
  block_ttl_secs = 60;
}

abbrev start : Updater
start = record { classifier = from_config build config; current_version = 0 }

abbrev responses : List (Option Text)
responses = some (9 ∷ bytes "s") ∷ none ∷ some (3 ∷ bytes "s") ∷ []

polls-IsFrom_example :
    (polls build crates (bytes "k") responses start ≡ start)
    ⊎ IsFrom build crates (bytes "k") responses 0 (polls build crates (bytes "k") responses start)
polls-IsFrom_example = polls-IsFrom build crates (bytes "k") responses start

polls-intercept_example :
    classify (polls build crates (bytes "k") responses start).classifier (bytes "API.openai.com.")
    ≡ intercept
unfolding from_config new compile_all compile matches classify trim_dots ends_with text_eq
    Ascii.lower_byte
polls-intercept_example =
    polls-intercept build crates (bytes "k") responses start (bytes "API.openai.com.") refl refl

parse_and_verify-IsSigned_example : IsSigned crates (3 ∷ bytes "s") (bytes "k") (record {
  version = 3;
  intercept_hosts = [];
  passthrough_hosts = exact_host (bytes "api.openai.com") ∷ [];
  default_action = passthrough;
  signs_body = [];
})
unfolding parse_and_verify text_eq Ascii.trim
parse_and_verify-IsSigned_example =
    parse_and_verify-IsSigned crates (3 ∷ bytes "s") (bytes "k")
      (record {
        version = 3;
        intercept_hosts = [];
        passthrough_hosts = exact_host (bytes "api.openai.com") ∷ [];
        default_action = passthrough;
        signs_body = [];
      })
      refl

matches-wildcard_example :
    (matches (wildcard (bytes "claude.com")) (bytes "a.b.claude.com") ≡ true)
    ↔ ((p : Text) × (bytes "a.b.claude.com" ≡ p ++ b'.' ∷ bytes "claude.com"))
matches-wildcard_example = matches-wildcard (bytes "claude.com") (bytes "a.b.claude.com")
