-- ===== src/Attachments/Errors.antt =====
-- src/attachments.rs: the errors, with the messages of the crates as texts.
use ctxward.Prelude.{ℕ, ◌≡◌, refl, Option, none, some, List, Text, bytes, ◌++◌}
use ctxward.Prelude.Decimal.{decimal}
use ctxward.Core.Detect.Findings.{DetectionFinding}
use ctxward.Core.Redact.{Redacted}
use ctxward.Core.Redact
use ctxward.Presidio.{PresidioError, build_client, request_failed, bad_status, Analysis}
use ctxward.Presidio
use ctxward.Core.Tokenize.{TokenizationError}

pub data AttachmentError : Type 0 where
  missing_boundary : AttachmentError
  malformed_multipart : AttachmentError
  too_large : ℕ → AttachmentError
  pdf : Text → AttachmentError
  pdf_rewrite : Text → AttachmentError
  zip : Text → AttachmentError
  zip_write : Text → AttachmentError
  xml : Text → AttachmentError
  presidio : Text → AttachmentError
  tokenization : TokenizationError → AttachmentError

-- A value, an error, or a panic.
pub data Attempt {ℓ} (A : Type ℓ) : Type ℓ where
  ok : A → Attempt A
  err : AttachmentError → Attempt A
  panicked : Attempt A

infixl 5 ◌>>=◌
abbrev pub ◌>>=◌ {ℓ κ} : {A : Type ℓ} {B : Type κ} → Attempt A → (A → Attempt B) → Attempt B
ok a >>= f = f a
err e >>= f = err e
panicked >>= f = panicked

-- What another crate gives: a value, or an error with its message.
pub data CrateResult {ℓ} (A : Type ℓ) : Type ℓ where
  done : A → CrateResult A
  failed : Text → CrateResult A

-- `map_err`
abbrev pub or_err {ℓ} : {A : Type ℓ} → (Text → AttachmentError) → CrateResult A → Attempt A
or_err f (done a) = ok a
or_err f (failed message) = err (f message)

abbrev pub of_redacted {ℓ} : {A : Type ℓ} → Redacted A → Attempt A
of_redacted (Redact.ok a) = ok a
of_redacted (Redact.err e) = err (tokenization e)
of_redacted Redact.panicked = panicked

abbrev pub of_scan {ℓ} : {A : Type ℓ} → Option A → Attempt A
of_scan none = panicked
of_scan (some a) = ok a

-- `to_string` of a `PresidioError`
unfoldable pub presidio_message : PresidioError → Text
unfolding decimal
presidio_message (build_client e) = bytes "failed to build presidio client: " ++ e
presidio_message (request_failed e) = bytes "presidio request failed: " ++ e
presidio_message (bad_status status body) =
    bytes "presidio returned non-success status " ++ (decimal status ++ (bytes ": " ++ body))

abbrev pub of_analysis : Analysis → Attempt (List DetectionFinding)
of_analysis (Presidio.ok fs) = ok fs
of_analysis (Presidio.err e) = err (presidio (presidio_message e))
of_analysis Presidio.panicked = panicked

-- A chain that succeeds has succeeded at its first step.
pub bind-ok {ℓ κ} :
    {A : Type ℓ} {B : Type κ} (m : Attempt A) (f : A → Attempt B) (b : B)
    → (m >>= f) ≡ ok b
    → (a : A) × (m ≡ ok a) × (f a ≡ ok b)
bind-ok (ok a) f b h = (a, refl, h)
bind-ok (err e) f b h = cc
bind-ok panicked f b h = cc
