-- ===== src/Core/Tokenize/Colon.antt =====
-- A label with a colon gives tokens that cannot be opened.
use ctxward.Prelude.{
  ℕ, ◌≡◌, ◌≢◌, refl, sym, Bool-cases, Option-cases, inl, inr, [], ◌∷◌, ◌++◌, Text, bytes, take,
  text_eq, text_eq_iff, arith,
}
use ctxward.Prelude.Ascii.{to_uppercase, Avoids, Avoids-append}
use mathlib.Core.List.{append_assoc}
use ctxward.Core.Tokenize.{
  invalid_token_format, ok, err, DetokenizedValue, Crates, Tokenizer, render_token, tokenize,
  open_token, detokenize,
}
use ctxward.Core.Tokenize.RoundTrip.{
  CrateLaws, IsMade, made_prefix, normalize_token-brackets, split_token-parts,
}

not-Avoids : (b : ℕ) (s t : Text) → ¬ Avoids b (s ++ b ∷ t)
not-Avoids b [] t a = a.0 refl
not-Avoids b (c ∷ s) t a = not-Avoids b s t a.1

-- The name up to its first colon, and the rest of the brackets' contents.
regroup :
    (l r raw : Text)
    → ((l ++ b':' ∷ r) ++ bytes "_TOKEN") ++ b':' ∷ raw
      ≡ l ++ b':' ∷ ((r ++ bytes "_TOKEN") ++ b':' ∷ raw)
regroup l r raw = simp append_assoc

module _ (crates : Crates) (laws : CrateLaws crates) where
  open_token-wrong_prefix :
      (t : Tokenizer) (prefix nonce ciphertext : Text)
      → prefix ≢ t.token_prefix
      → open_token crates t (prefix, nonce, ciphertext) ≡ err invalid_token_format
  unfolding open_token
  open_token-wrong_prefix t prefix nonce ciphertext ne =
      elim (Bool-cases (text_eq prefix t.token_prefix)) [
        | inl e ↦ absurd (ne ((text_eq_iff prefix t.token_prefix).0 e))
        | inr e ↦ rw e
      ]

  detokenize-render_colon :
      (t : Tokenizer) (label l r nonce ciphertext : Text)
      → IsMade t
      → to_uppercase label ≡ l ++ b':' ∷ r
      → Avoids b':' l
      → Avoids b'.' r
      → detokenize crates t (render_token label t.token_prefix (crates.encode nonce) ciphertext)
        ≡ err invalid_token_format
  unfolding detokenize render_token
  detokenize-render_colon t label l r nonce ciphertext made e plain dotless =
      let name = (r ++ bytes "_TOKEN") ++ b':' ∷ t.token_prefix in
      let rest = crates.encode nonce ++ b',' ∷ ciphertext in
      let split : (r ++ bytes "_TOKEN") ++ b':' ∷ (t.token_prefix ++ b'.' ∷ rest)
          ≡ name ++ b'.' ∷ rest =
        sym (append_assoc (r ++ bytes "_TOKEN") (b':' ∷ t.token_prefix) (b'.' ∷ rest)) in
      let quiet : Avoids b'.' name =
        Avoids-append b'.' (r ++ bytes "_TOKEN") (b':' ∷ t.token_prefix)
          (Avoids-append b'.' r (bytes "_TOKEN") dotless (omega arith))
          ((omega arith), (made_prefix t made).0) in
      rw
        (
          e,
          regroup l r (t.token_prefix ++ b'.' ∷ rest),
          normalize_token-brackets l
              ((r ++ bytes "_TOKEN") ++ b':' ∷ (t.token_prefix ++ b'.' ∷ rest)) plain,
          split,
          split_token-parts name (crates.encode nonce) ciphertext quiet
              (laws.encode_no_comma nonce),
        )
        (open_token-wrong_prefix t name (crates.encode nonce) ciphertext (λ same.
          not-Avoids b':' (r ++ bytes "_TOKEN") t.token_prefix (rw same (made_prefix t made).1)))

  -- A label that has a colon in capitals, and no full stop after its first colon, gives tokens
  -- that the same tokenizer refuses for their format.
  pub detokenize-tokenize_colon :
      (t : Tokenizer) (uuid label value token l r : Text)
      → IsMade t
      → to_uppercase label ≡ l ++ b':' ∷ r
      → Avoids b':' l
      → Avoids b'.' r
      → tokenize crates t uuid label value ≡ ok token
      → detokenize crates t token ≡ err invalid_token_format
  unfolding tokenize
  detokenize-tokenize_colon t uuid label value token l r made e plain dotless h =
      let v : DetokenizedValue = record { label = label; value = value } in
      let nonce = take 12 uuid in
      elim (Option-cases (crates.to_json v)) [
        | inl n ↦ absurd (ground arith)
        | inr (payload, json) ↦ elim (Option-cases (crates.seal t.cipher nonce payload)) [
          | inl n ↦ absurd (ground arith)
          | inr (ciphertext, sealed) ↦
              let made_token : render_token label t.token_prefix (crates.encode nonce)
                    (crates.encode ciphertext)
                  ≡ token =
                ground arith in
              rw (← made_token) (
                detokenize-render_colon t label l r nonce (crates.encode ciphertext) made e plain
                  dotless)
        ]
      ]
