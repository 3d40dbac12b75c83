-- ===== src/Core/Tokenize/RoundTrip.antt =====
-- What `detokenize` makes of a token that `tokenize` made.
use ctxward.Prelude.{
  ℕ, ◌≤◌, ◌≡◌, refl, ◌∙◌, false, Option-cases, inl, inr, some, [], ◌∷◌, ◌++◌, Text, bytes, length,
  length-take, take, text_eq_refl, arith,
}
use ctxward.Prelude.Ascii.{
  to_uppercase, is_space, trim, trim_start, trim_end, strip_prefix, Avoids, split_once-append,
  strip_last-append, Avoids-append,
}
use ctxward.Core.Tokenize.{
  ok, DetokenizedValue, Crates, Tokenizer, has_byte, validate_prefix, from_key_material,
  normalize_token, split_token, render_token, tokenize, open_token, detokenize,
}

-- `crates`: what is encoded decodes to itself and has neither of the two separators, what is
-- sealed opens under the same key and nonce, and what is serialized parses.
pub record CrateLaws (crates : Crates) : Type 0 where
  pub decode-encode : (s : Text) → crates.decode (crates.encode s) ≡ some s
  pub encode_no_comma : (s : Text) → Avoids b',' (crates.encode s)
  pub unseal-seal :
      (key nonce payload c : Text)
      → crates.seal key nonce payload ≡ some c
      → crates.unseal key nonce c ≡ some payload
  pub from_json-to_json :
      (v : DetokenizedValue) (s : Text) → crates.to_json v ≡ some s → crates.from_json s ≡ some v

has_byte-Avoids : (b : ℕ) (s : Text) → has_byte b s ≡ false → Avoids b s
unfolding has_byte
has_byte-Avoids b [] h = tt
has_byte-Avoids b (c ∷ s) h = ground (arith, has_byte-Avoids b s)

trim_end-append : (b : ℕ) (s : Text) → is_space b ≡ false → trim_end (s ++ b ∷ []) ≡ s ++ b ∷ []
unfolding trim_end
trim_end-append b [] h = rw h
trim_end-append b (c ∷ []) h = ground (arith, trim_end-append b [] h)
trim_end-append b (c ∷ d ∷ s) h = rw (trim_end-append b (d ∷ s) h)

trim-brackets : (s : Text) → trim (b'[' ∷ (s ++ b']' ∷ [])) ≡ b'[' ∷ (s ++ b']' ∷ [])
unfolding trim trim_start
trim-brackets s = trim_end-append b']' (b'[' ∷ s) refl

strip_prefix-bracket : (s : Text) → strip_prefix (bytes "[") (b'[' ∷ s) ≡ some s
unfolding strip_prefix
strip_prefix-bracket s = refl

pub normalize_token-brackets :
    (name raw : Text)
    → Avoids b':' name
    → normalize_token (b'[' ∷ ((name ++ b':' ∷ raw) ++ b']' ∷ [])) ≡ ok raw
unfolding normalize_token
normalize_token-brackets name raw a = rw (
  normalize_token,
  trim-brackets (name ++ b':' ∷ raw),
  strip_prefix-bracket ((name ++ b':' ∷ raw) ++ b']' ∷ []),
  strip_last-append b']' (name ++ b':' ∷ raw),
  split_once-append b':' name raw a,
)

pub split_token-parts :
    (prefix nonce ciphertext : Text)
    → Avoids b'.' prefix
    → Avoids b',' nonce
    → split_token (prefix ++ b'.' ∷ (nonce ++ b',' ∷ ciphertext)) ≡ some (prefix, nonce, ciphertext)
unfolding split_token
split_token-parts prefix nonce ciphertext p n = rw (
  split_token,
  split_once-append b'.' prefix (nonce ++ b',' ∷ ciphertext) p,
  split_once-append b',' nonce ciphertext n,
)

-- The conditions that `validate_prefix` puts on a prefix, of which the round trip needs two.
valid_prefix :
    (prefix : Text) → validate_prefix prefix ≡ ok tt → Avoids b'.' prefix × Avoids b':' prefix
unfolding validate_prefix
valid_prefix prefix h =
    (has_byte-Avoids b'.' prefix (ground arith), has_byte-Avoids b':' prefix (ground arith))

-- The tokenizer was made by `from_key_material`.
abbrev pub IsMade : Tokenizer → Type 0
IsMade t = (key : Text) × (from_key_material key t.token_prefix t.key_env ≡ ok t)

pub made_prefix :
    (t : Tokenizer) → IsMade t → Avoids b'.' t.token_prefix × Avoids b':' t.token_prefix
unfolding from_key_material
made_prefix t (key, h) = valid_prefix t.token_prefix (ground arith)

module _ (crates : Crates) (laws : CrateLaws crates) where
  detokenize-render :
      (t : Tokenizer) (label nonce ciphertext : Text)
      → IsMade t
      → Avoids b':' (to_uppercase label)
      → detokenize crates t
          (render_token label t.token_prefix (crates.encode nonce) (crates.encode ciphertext))
        ≡ open_token crates t (t.token_prefix, crates.encode nonce, crates.encode ciphertext)
  unfolding detokenize render_token
  detokenize-render t label nonce ciphertext made plain = rw (
    normalize_token-brackets (to_uppercase label ++ bytes "_TOKEN")
        (t.token_prefix ++ b'.' ∷ (crates.encode nonce ++ b',' ∷ crates.encode ciphertext))
        (Avoids-append b':' (to_uppercase label) (bytes "_TOKEN") plain (omega arith)),
    split_token-parts t.token_prefix (crates.encode nonce) (crates.encode ciphertext)
        (made_prefix t made).0 (laws.encode_no_comma nonce),
  )

  open_token-sealed :
      (t : Tokenizer) (nonce payload ciphertext : Text) (v : DetokenizedValue)
      → length nonce ≡ 12
      → crates.seal t.cipher nonce payload ≡ some ciphertext
      → crates.to_json v ≡ some payload
      → open_token crates t (t.token_prefix, crates.encode nonce, crates.encode ciphertext) ≡ ok v
  unfolding open_token
  open_token-sealed t nonce payload ciphertext v size sealed json = rw (
    text_eq_refl t.token_prefix,
    laws.decode-encode nonce,
    size,
    laws.decode-encode ciphertext,
    laws.unseal-seal t.cipher nonce payload ciphertext sealed,
    laws.from_json-to_json v payload json,
  )

  -- What `tokenize` seals is opened again, by the same tokenizer, to the label and the value, if
  -- the tokenizer was made by `from_key_material`, the label in capitals has no colon and the
  -- UUID has at least 12 bytes.
  pub detokenize-tokenize :
      (t : Tokenizer) (uuid label value token : Text)
      → IsMade t
      → 12 ≤ length uuid
      → Avoids b':' (to_uppercase label)
      → tokenize crates t uuid label value ≡ ok token
      → detokenize crates t token ≡ ok (record { label = label; value = value })
  unfolding tokenize
  detokenize-tokenize t uuid label value token made size plain h =
      let v : DetokenizedValue = record { label = label; value = value } in
      let nonce = take 12 uuid in
      elim (Option-cases (crates.to_json v)) [
        | inl e ↦ absurd (ground arith)
        | inr (payload, json) ↦ elim (Option-cases (crates.seal t.cipher nonce payload)) [
          | inl e ↦ absurd (ground arith)
          | inr (ciphertext, sealed) ↦
              let made_token : render_token label t.token_prefix (crates.encode nonce)
                    (crates.encode ciphertext)
                  ≡ token =
                ground arith in
              rw (← made_token) (
                detokenize-render t label nonce ciphertext made plain
                ∙ open_token-sealed t nonce payload ciphertext v
                    (omega (arith, length-take 12 uuid)) sealed json)
        ]
      ]
