-- ===== src/Tests/Tokens.antt =====
-- A token with crates that do not hide anything, and a label with a colon.
use ctxward.Prelude.{
  ◌+◌, ◌-◌, ◌≡◌, refl, ap, sym, ◌∙◌, Option, none, some, [], ◌∷◌, ◌++◌, Text, bytes, text_eq,
  length, map, take, drop, arith,
}
use ctxward.Prelude.Ascii.{Avoids, upper_byte}
use ctxward.Core.Tokenize.{
  ok, err, DetokenizedValue, Crates, Tokenizer, invalid_token_format, validate_prefix, has_byte,
  from_key_material, render_token, tokenize, detokenize,
}
use ctxward.Core.Tokenize.RoundTrip.{CrateLaws, IsMade, detokenize-tokenize}
use ctxward.Core.Tokenize.Colon.{detokenize-tokenize_colon}

-- Bytes are moved past the comma and back; a value is written after the length of its label.
abbrev pub shift : Text → Text
shift s = map (λ b. b + 59) s

abbrev pub unshift : Text → Text
unshift s = map (λ b. b - 59) s

abbrev pub written : DetokenizedValue → Option Text
written v = some (length v.label ∷ (v.label ++ v.value))

abbrev pub read : Text → Option DetokenizedValue
read [] = none
read (n ∷ s) = some (record { label = take n s; value = drop n s })

abbrev pub crates : Crates
crates = record {
  encode = shift;
  decode = λ s. some (unshift s);
  decode_standard = λ s. none;
  decode_hex = λ s. none;
  seal = λ key nonce payload. some payload;
  unseal = λ key nonce c. some c;
  to_json = written;
  from_json = read;
}

unshift-shift : (s : Text) → unshift (shift s) ≡ s
unshift-shift [] = refl
unshift-shift (b ∷ s) =
    rw (unshift-shift s) (ap (λ c. c ∷ s) (let e : (b + 59) - 59 ≡ b = omega arith in e))

shift-Avoids : (s : Text) → Avoids b',' (shift s)
shift-Avoids [] = tt
shift-Avoids (b ∷ s) = (λ e. absurd (omega arith), shift-Avoids s)

take-parts : (l v : Text) → take (length l) (l ++ v) ≡ l
take-parts [] v = refl
take-parts (b ∷ l) v = ap (λ r. b ∷ r) (take-parts l v)

drop-parts : (l v : Text) → drop (length l) (l ++ v) ≡ v
drop-parts [] v = refl
drop-parts (b ∷ l) v = drop-parts l v

read-written : (v : DetokenizedValue) (s : Text) → written v ≡ some s → read s ≡ some v
read-written v s h =
    let made : length v.label ∷ (v.label ++ v.value) ≡ s = ground arith in
    ap read (sym made) ∙ rw (take-parts v.label v.value, drop-parts v.label v.value) refl

laws : CrateLaws crates
laws = record {
  decode-encode = λ s. ap some (unshift-shift s);
  encode_no_comma = shift-Avoids;
  unseal-seal = λ key nonce payload c h. ground arith;
  from_json-to_json = read-written;
}

abbrev tokenizer : Tokenizer
tokenizer = record { cipher = bytes "k"; token_prefix = bytes "tok"; key_env = bytes "KEY" }

made : IsMade tokenizer
unfolding from_key_material validate_prefix has_byte text_eq
made = (bytes "k", refl)

abbrev uuid : Text
uuid = bytes "0123456789abcdef"

abbrev token : Text → Text → Text
token label value =
    render_token label (bytes "tok") (shift (take 12 uuid))
      (shift (length label ∷ (label ++ value)))

detokenize-tokenize_example :
    detokenize crates tokenizer (token (bytes "em") (bytes "v"))
    ≡ ok (record { label = bytes "em"; value = bytes "v" })
unfolding tokenize upper_byte
detokenize-tokenize_example =
    detokenize-tokenize crates laws tokenizer uuid (bytes "em") (bytes "v")
      (token (bytes "em") (bytes "v")) made (omega arith)
      (λ e. absurd (omega arith), (λ e. absurd (omega arith), tt)) refl

detokenize-tokenize_colon_example :
    detokenize crates tokenizer (token (bytes "e:m") (bytes "v")) ≡ err invalid_token_format
unfolding tokenize upper_byte
detokenize-tokenize_colon_example =
    detokenize-tokenize_colon crates laws tokenizer uuid (bytes "e:m") (bytes "v")
      (token (bytes "e:m") (bytes "v")) (bytes "E") (bytes "M") made refl
      (λ e. absurd (omega arith), tt) (λ e. absurd (omega arith), tt) refl
