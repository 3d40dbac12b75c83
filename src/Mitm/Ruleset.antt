-- ===== src/Mitm/Ruleset.antt =====
-- src/mitm/ruleset.rs: the verification of a signed rule-set.
pub mod Signed
use ctxward.Prelude.{ℕ, Bool, Option, none, some, List, Text, length, ltb, eqb, if◌then◌else◌}
use ctxward.Prelude.Ascii.{trim}
use ctxward.Mitm.Hosts.{HostPattern, ProxyAction}

pub record Ruleset : Type 0 where
  pub version : ℕ
  pub intercept_hosts : List HostPattern
  pub passthrough_hosts : List HostPattern
  pub default_action : ProxyAction
  pub signs_body : List HostPattern

pub record SignedRuleset : Type 0 where
  pub ruleset_text : Text
  pub signature : Text

pub data RulesetError : Type 0 where
  too_large envelope payload public_key signature_encoding signature_invalid : RulesetError

pub data RulesetResult {ℓ} (A : Type ℓ) : Type ℓ where
  ok : A → RulesetResult A
  err : RulesetError → RulesetResult A

infixl 5 ◌>>=◌
abbrev pub ◌>>=◌ {ℓ κ} :
    {A : Type ℓ} {B : Type κ} → RulesetResult A → (A → RulesetResult B) → RulesetResult B
ok a >>= f = f a
err e >>= f = err e

abbrev pub ok_or {ℓ} : {A : Type ℓ} → RulesetError → Option A → RulesetResult A
ok_or e none = err e
ok_or e (some a) = ok a

-- `try_into` an array of this size
abbrev pub sized : ℕ → RulesetError → Text → RulesetResult Text
sized n e s = if eqb (length s) n then ok s else err e

abbrev pub max_ruleset_bytes : ℕ
max_ruleset_bytes = 1_048_576

-- `serde_json`, `hex` and `ed25519_dalek`. A verifying key is the test of a message and a signature.
pub record Crates : Type 0 where
  pub parse_envelope : Text → Option SignedRuleset
  pub parse_ruleset : Text → Option Ruleset
  pub decode_hex : Text → Option Text
  pub verifying_key : Text → Option (Text → Text → Bool)

module _ (crates : Crates) where
  -- The signature's test, and then the payload.
  pub check_signature : (Text → Text → Bool) → Text → Text → RulesetResult Ruleset
  check_signature verify signed signature =
      if verify signed signature
      then ok_or payload (crates.parse_ruleset signed)
      else err signature_invalid

  unfoldable pub parse_and_verify : Text → Text → RulesetResult Ruleset
  unfolding check_signature
  parse_and_verify bytes pubkey_hex =
      if ltb max_ruleset_bytes (length bytes) then err too_large else (do
        signed ← ok_or envelope (crates.parse_envelope bytes)
        key_bytes ← ok_or public_key (crates.decode_hex (trim pubkey_hex))
        key ← sized 32 public_key key_bytes
        verify ← ok_or public_key (crates.verifying_key key)
        sig_bytes ← ok_or signature_encoding (crates.decode_hex (trim signed.signature))
        sig ← sized 64 signature_encoding sig_bytes
        check_signature verify signed.ruleset_text sig)
