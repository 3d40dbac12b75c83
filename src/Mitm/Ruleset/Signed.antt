-- ===== src/Mitm/Ruleset/Signed.antt =====
-- What a verified rule-set has been through.
use ctxward.Prelude.{
  ℕ, ◌≤◌, ◌≡◌, refl, sym, ap, ◌∙◌, Bool, true, false, Option, none, some, Text, length, ltb,
  ltb_false→le, arith, if◌then◌else◌,
}
use ctxward.Prelude.Ascii.{trim}
use ctxward.Mitm.Ruleset.{
  Ruleset, SignedRuleset, RulesetError, RulesetResult, ok, err, ◌>>=◌, ok_or, sized,
  max_ruleset_bytes, Crates, check_signature, parse_and_verify, payload, signature_invalid,
  envelope, public_key, signature_encoding, too_large,
}

-- The chain of a rule-set: an envelope of a bounded size, whose text is the rule-set's, and a
-- signature of 64 bytes of this text that a key of 32 bytes verifies.
pub record IsSigned (crates : Crates) (body pubkey_hex : Text) (rs : Ruleset) : Type 0 where
  pub signed : SignedRuleset
  pub key : Text
  pub verify : Text → Text → Bool
  pub signature_bytes : Text
  pub is_bounded : length body ≤ max_ruleset_bytes
  pub is_envelope : crates.parse_envelope body ≡ some signed
  pub is_key : crates.decode_hex (trim pubkey_hex) ≡ some key
  pub key_size : length key ≡ 32
  pub is_verifying_key : crates.verifying_key key ≡ some verify
  pub is_signature : crates.decode_hex (trim signed.signature) ≡ some signature_bytes
  pub signature_size : length signature_bytes ≡ 64
  pub is_verified : verify signed.ruleset_text signature_bytes ≡ true
  pub is_payload : crates.parse_ruleset signed.ruleset_text ≡ some rs

bind-ok {ℓ κ} :
    {A : Type ℓ} {B : Type κ} (r : RulesetResult A) (f : A → RulesetResult B) (b : B)
    → (r >>= f) ≡ ok b
    → (a : A) × (r ≡ ok a) × (f a ≡ ok b)
bind-ok (ok a) f b h = (a, refl, h)
bind-ok (err e) f b h = cc

ok_or-ok {ℓ} :
    {A : Type ℓ} (e : RulesetError) (o : Option A) (a : A) → ok_or e o ≡ ok a → o ≡ some a
ok_or-ok e none a h = cc
ok_or-ok e (some b) a h = cc

sized-ok : (n : ℕ) (e : RulesetError) (s t : Text) → sized n e s ≡ ok t → (s ≡ t) × (length s ≡ n)
sized-ok n e s t h = ground arith

if-ok {ℓ} :
    {A : Type ℓ} (b : Bool) (e : RulesetError) (r : RulesetResult A) (a : A)
    → (if b then r else err e) ≡ ok a
    → (b ≡ true) × (r ≡ ok a)
if-ok true e r a h = (refl, h)
if-ok false e r a h = cc

else-ok {ℓ} :
    {A : Type ℓ} (b : Bool) (e : RulesetError) (r : RulesetResult A) (a : A)
    → (if b then err e else r) ≡ ok a
    → (b ≡ false) × (r ≡ ok a)
else-ok true e r a h = cc
else-ok false e r a h = (refl, h)

check_signature-ok :
    (crates : Crates) (verify : Text → Text → Bool) (text signature : Text) (rs : Ruleset)
    → check_signature crates verify text signature ≡ ok rs
    → (verify text signature ≡ true) × (crates.parse_ruleset text ≡ some rs)
unfolding check_signature
check_signature-ok crates verify text signature rs h =
    let parts =
      if-ok (verify text signature) signature_invalid (ok_or payload (crates.parse_ruleset text)) rs
        h in
    (parts.0, ok_or-ok payload (crates.parse_ruleset text) rs parts.1)

-- A rule-set that verifies has been through the whole chain: a body within the limit that is an
-- envelope, a key of 32 bytes, a signature of 64 bytes that this key verifies on the envelope's
-- text, and this text as the rule-set.
pub parse_and_verify-IsSigned :
    (crates : Crates) (body pubkey_hex : Text) (rs : Ruleset)
    → parse_and_verify crates body pubkey_hex ≡ ok rs
    → IsSigned crates body pubkey_hex rs
unfolding parse_and_verify
parse_and_verify-IsSigned crates body pubkey_hex rs h =
    let s0 = else-ok (ltb max_ruleset_bytes (length body)) too_large _ rs h in
    let s1 = bind-ok (ok_or envelope (crates.parse_envelope body)) _ rs s0.1 in
    let s2 = bind-ok (ok_or public_key (crates.decode_hex (trim pubkey_hex))) _ rs s1.2 in
    let s3 = bind-ok (sized 32 public_key s2.0) _ rs s2.2 in
    let s4 = bind-ok (ok_or public_key (crates.verifying_key s3.0)) _ rs s3.2 in
    let s5 =
      bind-ok (ok_or signature_encoding (crates.decode_hex (trim s1.0.signature))) _ rs s4.2 in
    let s6 = bind-ok (sized 64 signature_encoding s5.0) _ rs s5.2 in
    let key_size = sized-ok 32 public_key s2.0 s3.0 s3.1 in
    let signature_size = sized-ok 64 signature_encoding s5.0 s6.0 s6.1 in
    let checked = check_signature-ok crates s4.0 s1.0.ruleset_text s6.0 rs s6.2 in
    record {
      signed = s1.0;
      key = s3.0;
      verify = s4.0;
      signature_bytes = s6.0;
      is_bounded = ltb_false→le max_ruleset_bytes (length body) s0.0;
      is_envelope = ok_or-ok envelope (crates.parse_envelope body) s1.0 s1.1;
      is_key =
          ok_or-ok public_key (crates.decode_hex (trim pubkey_hex)) s2.0 s2.1 ∙ ap some key_size.0;
      key_size = sym (ap length key_size.0) ∙ key_size.1;
      is_verifying_key = ok_or-ok public_key (crates.verifying_key s3.0) s4.0 s4.1;
      is_signature =
          ok_or-ok signature_encoding (crates.decode_hex (trim s1.0.signature)) s5.0 s5.1
          ∙ ap some signature_size.0;
      signature_size = sym (ap length signature_size.0) ∙ signature_size.1;
      is_verified = checked.0;
      is_payload = checked.1;
    }
