-- ===== src/App/Errors.antt =====
-- src/app.rs: the errors of the gateway. The messages of other crates are texts.
use ctxward.Prelude.{Text, ◌≡◌, refl, Option, none, some, List}
use ctxward.Core.Auth.{AuthError}
use ctxward.Core.Tokenize.{TokenizationError}
use ctxward.Core.Redact.{Redacted}
use ctxward.Core.Redact
use ctxward.Core.Detect.Findings.{DetectionFinding}
use ctxward.Presidio.{PresidioError, Analysis}
use ctxward.Presidio
use ctxward.Attachments.Errors.{AttachmentError}
use ctxward.Review.Tickets.{ReviewStoreError}

pub data AppError : Type 0 where
  config : Text → AppError
  auth : AuthError → AppError
  detector : Text → AppError
  opa : Text → AppError
  presidio : PresidioError → AppError
  tokenization : TokenizationError → AppError
  review_store : ReviewStoreError → AppError
  attachment : AttachmentError → AppError
  invalid_upstream_url : Text → AppError
  build_client : Text → AppError
  metrics : Text → AppError
  audit_init : Text → AppError
  runtime_io : Text → AppError
  bind : Text → AppError
  serve : Text → AppError
  proxy_config_missing : AppError
  proxy_listen_addr : Text → AppError
  ca : Text → AppError
  proxy : Text → AppError

-- A value, an error, or a panic.
pub data Outcome {ℓ} (A : Type ℓ) : Type ℓ where
  ok : A → Outcome A
  err : AppError → Outcome A
  panicked : Outcome A

infixl 5 ◌>>=◌
abbrev pub ◌>>=◌ {ℓ κ} : {A : Type ℓ} {B : Type κ} → Outcome A → (A → Outcome B) → Outcome B
ok a >>= f = f a
err e >>= f = err e
panicked >>= f = panicked

-- `?` on the results of the parts
abbrev pub of_redacted {ℓ} : {A : Type ℓ} → Redacted A → Outcome A
of_redacted (Redact.ok a) = ok a
of_redacted (Redact.err e) = err (tokenization e)
of_redacted Redact.panicked = panicked

abbrev pub of_analysis : Analysis → Outcome (List DetectionFinding)
of_analysis (Presidio.ok fs) = ok fs
of_analysis (Presidio.err e) = err (presidio e)
of_analysis Presidio.panicked = panicked

abbrev pub of_scan {ℓ} : {A : Type ℓ} → Option A → Outcome A
of_scan none = panicked
of_scan (some a) = ok a

-- A chain that succeeds has succeeded at its first step.
pub bind-ok {ℓ κ} :
    {A : Type ℓ} {B : Type κ} (m : Outcome A) (f : A → Outcome B) (b : B)
    → (m >>= f) ≡ ok b
    → (a : A) × (m ≡ ok a) × (f a ≡ ok b)
bind-ok (ok a) f b h = (a, refl, h)
bind-ok (err e) f b h = cc
bind-ok panicked f b h = cc

pub bind_cong {ℓ κ} :
    {A : Type ℓ} {B : Type κ} (m : Outcome A) (f g : A → Outcome B)
    → ((a : A) → f a ≡ g a)
    → (m >>= f) ≡ (m >>= g)
bind_cong (ok a) f g h = h a
bind_cong (err e) f g h = refl
bind_cong panicked f g h = refl

pub bind_assoc {ℓ κ ι} :
    {A : Type ℓ} {B : Type κ} {C : Type ι} (m : Outcome A) (f : A → Outcome B) (g : B → Outcome C)
    → ((m >>= f) >>= g) ≡ (m >>= λ a. f a >>= g)
bind_assoc (ok a) f g = refl
bind_assoc (err e) f g = refl
bind_assoc panicked f g = refl

pub bind_ok {ℓ} : {A : Type ℓ} (m : Outcome A) → (m >>= λ a. ok a) ≡ m
bind_ok (ok a) = refl
bind_ok (err e) = refl
bind_ok panicked = refl
