-- ===== src/Core/Tokenize.antt =====
-- crates/ctxward-core/src/tokenize.rs: reversible tokens. The cipher, Base64, hexadecimal and
-- `serde_json` are parameters; so are the environment variable and the bytes of the random UUID.
pub mod RoundTrip
pub mod Colon
pub mod Enabled
use ctxward.Prelude.{
  ℕ, ◌+◌, Bool, true, false, ◌&&◌, ◌||◌, Option, none, some, List, [], ◌∷◌, ◌++◌, Text, bytes, any,
  all, length, take, eqb, leb, text_eq, if◌then◌else◌,
}
use ctxward.Prelude.Ascii.{to_uppercase, trim, strip_prefix, strip_last, split_once, is_digit}

pub data TokenizationError : Type 0 where
  required_but_disabled : TokenizationError
  missing_key_env : Text → TokenizationError
  invalid_key_length : ℕ → TokenizationError
  invalid_key_encoding : TokenizationError
  invalid_prefix : Text → TokenizationError
  encrypt : TokenizationError
  invalid_token_format : TokenizationError
  decrypt : TokenizationError
  serialize : TokenizationError
  parse : TokenizationError

pub data Tokenized {ℓ} (A : Type ℓ) : Type ℓ where
  ok : A → Tokenized A
  err : TokenizationError → Tokenized A

infixl 5 ◌>>=◌ ◌>>◌
abbrev pub ◌>>=◌ {ℓ κ} : {A : Type ℓ} {B : Type κ} → Tokenized A → (A → Tokenized B) → Tokenized B
ok a >>= f = f a
err e >>= f = err e

abbrev pub ◌>>◌ {ℓ} : {B : Type ℓ} → Tokenized (Unit {0}) → Tokenized B → Tokenized B
m >> k = m >>= λ _. k

-- `ok_or` and `map_err`
abbrev pub ok_or {ℓ} : {A : Type ℓ} → TokenizationError → Option A → Tokenized A
ok_or e none = err e
ok_or e (some a) = ok a

abbrev pub require : Bool → TokenizationError → Tokenized (Unit {0})
require true e = ok tt
require false e = err e

-- `TokenPayload` and `DetokenizedValue`
pub record DetokenizedValue : Type 0 where
  pub label : Text
  pub value : Text

-- The crates that the tokenizer calls. `new_cipher` is `Aes256GcmSiv::new_from_slice`; a cipher
-- takes a nonce and a payload.
pub record Crates : Type 0 where
  pub encode : Text → Text
  pub decode : Text → Option Text
  pub decode_standard : Text → Option Text
  pub decode_hex : Text → Option Text
  pub seal : Text → Text → Text → Option Text
  pub unseal : Text → Text → Text → Option Text
  pub to_json : DetokenizedValue → Option Text
  pub from_json : Text → Option DetokenizedValue

-- `cipher` is the key that the cipher was made of.
pub record Tokenizer : Type 0 where
  pub cipher : Text
  pub token_prefix : Text
  pub key_env : Text

-- `TokenizationConfig` of config.rs
pub record TokenizationConfig : Type 0 where
  pub enabled : Bool
  pub key_env : Text
  pub token_prefix : Text

unfoldable pub has_byte : ℕ → Text → Bool
has_byte b s = any (eqb b) s

unfoldable pub validate_prefix : Text → Tokenized (Unit {0})
unfolding has_byte
validate_prefix prefix =
    if text_eq prefix []
      || has_byte b'.' prefix
      || has_byte b',' prefix
      || has_byte b'[' prefix
      || has_byte b']' prefix
      || has_byte b':' prefix
    then err (invalid_prefix prefix)
    else ok tt

pub is_hex : ℕ → Bool
unfolding is_digit
is_hex c = is_digit c || (leb 65 c && leb c 70) || (leb 97 c && leb c 102)

abbrev pub or_else {ℓ} : {A : Type ℓ} → Option A → Option A → Option A
or_else none o = o
or_else (some a) o = some a

-- `new_from_slice` cannot fail at a key of 32 bytes, the only length its argument's type has.
unfoldable pub from_key_material : Text → Text → Text → Tokenized Tokenizer
unfolding validate_prefix
from_key_material key token_prefix key_env = do
  validate_prefix token_prefix
  ok (record { cipher = key; token_prefix = token_prefix; key_env = key_env })

pub normalize_token : Text → Tokenized Text
normalize_token token =
    let trimmed = trim token in
    elim (strip_prefix (bytes "[") trimmed) [
      | none ↦ ok trimmed
      | some value ↦ elim (strip_last b']' value) [
        | none ↦ ok trimmed
        | some inner ↦ elim (split_once b':' inner) [
          | none ↦ err invalid_token_format
          | some (name, raw) ↦ ok raw
        ]
      ]
    ]

-- The prefix, the encoded nonce and the encoded ciphertext.
pub split_token : Text → Option (Text × Text × Text)
split_token raw = elim (split_once b'.' raw) [
  | none ↦ none
  | some (prefix, remainder) ↦ elim (split_once b',' remainder) [
    | none ↦ none
    | some (nonce, ciphertext) ↦ some (prefix, nonce, ciphertext)
  ]
]

-- The text of a token.
pub render_token : Text → Text → Text → Text → Text
render_token label prefix nonce ciphertext =
    let raw = prefix ++ b'.' ∷ (nonce ++ b',' ∷ ciphertext) in
    b'[' ∷ (((to_uppercase label ++ bytes "_TOKEN") ++ b':' ∷ raw) ++ b']' ∷ [])

module _ (crates : Crates) where
  pub decode_key : Text → Tokenized Text
  unfolding is_hex
  decode_key raw = do
    let raw' = trim raw
    key ← ok_or invalid_key_encoding (
        if eqb (length raw') 64 && all is_hex raw'
        then crates.decode_hex raw'
        else or_else (crates.decode raw') (crates.decode_standard raw'))
    require (eqb (length key) 32) (invalid_key_length (length key))
    ok key

  -- `env` is what `std::env::var` gives for the name of the key's variable.
  unfoldable pub from_config :
      (Text → Option Text) → Option TokenizationConfig → Tokenized (Option Tokenizer)
  unfolding decode_key from_key_material
  from_config env none = ok none
  from_config env (some config) =
      if config.enabled
      then (do
        raw_key ← ok_or (missing_key_env config.key_env) (env config.key_env)
        key ← decode_key raw_key
        t ← from_key_material key config.token_prefix config.key_env
        ok (some t))
      else ok none

  -- The nonce is the first 12 bytes of a new UUID.
  unfoldable pub tokenize : Tokenizer → Text → Text → Text → Tokenized Text
  unfolding render_token
  tokenize t uuid label value = do
    payload ← ok_or serialize (crates.to_json (record { label = label; value = value }))
    let nonce = take 12 uuid
    ciphertext ← ok_or encrypt (crates.seal t.cipher nonce payload)
    ok (render_token label t.token_prefix (crates.encode nonce) (crates.encode ciphertext))

  -- `detokenize`, once the token is split.
  pub open_token : Tokenizer → Text × Text × Text → Tokenized DetokenizedValue
  open_token t (prefix, encoded_nonce, encoded_ciphertext) = do
    require (text_eq prefix t.token_prefix) invalid_token_format
    nonce ← ok_or invalid_token_format (crates.decode encoded_nonce)
    require (eqb (length nonce) 12) invalid_token_format
    ciphertext ← ok_or invalid_token_format (crates.decode encoded_ciphertext)
    plaintext ← ok_or decrypt (crates.unseal t.cipher nonce ciphertext)
    ok_or parse (crates.from_json plaintext)

  unfoldable pub detokenize : Tokenizer → Text → Tokenized DetokenizedValue
  unfolding normalize_token split_token open_token
  detokenize t token = do
    raw ← normalize_token token
    parts ← ok_or invalid_token_format (split_token raw)
    open_token t parts
