-- ===== src/App/Reload.antt =====
-- src/app.rs: the runtime that is built from a configuration, and its reload. The crates are
-- parameters; the messages of their errors are texts.
pub mod Kept
use ctxward.Prelude.{
  ℕ, Bool, true, false, not, ◌&&◌, ◌||◌, Option, none, some, List, [], Text, any, bytes,
  if◌then◌else◌,
}
use ctxward.Core.Types.{
  MaskingStrategy, placeholder, partial_email, partial_phone, keep_last4, hash, tokenize, full,
}
use ctxward.Core.Auth.{AuthConfig, Authenticator}
use ctxward.Core.Auth
use ctxward.Core.Tokenize.{
  TokenizationConfig, TokenizationError, required_but_disabled, Tokenizer, Tokenized,
}
use ctxward.Core.Tokenize
use ctxward.Core.Detect.Scan.{
  DetectionConfig, DetectionRuleConfig, HighEntropyRuleConfig, Detector, DetectorResult, Regex,
}
use ctxward.Core.Detect.Scan
use ctxward.Presidio.{PresidioEntityConfig, PresidioAnalyzer, Reply, build_client, entity_map_of}
use ctxward.Proxy.Outcome.{OpaAuthorizer, OpaInput, OpaReply}
use ctxward.Attachments.Request.{AttachmentConfig}
use ctxward.Audit.{AuditStore, AuditRecord}
use ctxward.Audit
use ctxward.Attachments.Errors.{CrateResult, done, failed}
use ctxward.App.Errors.{
  AppError, config, auth, detector, opa, presidio, tokenization, invalid_upstream_url, audit_init,
  Outcome, ok, err, panicked, ◌>>=◌,
}
use ctxward.App.Errors

pub record PresidioConfig : Type 0 where
  pub enabled : Bool
  pub timeout_ms : ℕ
  pub analyzer_url : Text
  pub language : Text
  pub entities : List PresidioEntityConfig

pub record OpaConfig : Type 0 where
  pub enabled : Bool
  pub timeout_ms : ℕ
  pub url : Text
  pub fail_open : Bool

-- `AppConfig`, as far as the runtime is built from it
pub record AppConfig : Type 0 where
  pub base_url : Text
  pub timeout_ms : ℕ
  pub connect_timeout_ms : ℕ
  pub auth : AuthConfig
  pub detection : DetectionConfig
  pub presidio : Option PresidioConfig
  pub opa : Option OpaConfig
  pub tokenization : Option TokenizationConfig
  pub attachments : AttachmentConfig
  pub buffer_capacity : ℕ
  pub jsonl_path : Text
  pub emit_stdout : Bool

-- What is called outside the code: the clients of reqwest by their timeouts, the parsing of a URL,
-- the opening of the audit file, the environment, and the crates of the parts.
pub record RuntimeCrates (Url Client : Type 0) : Type 0 where
  pub parse_url : Text → Option Url
  pub client : ℕ → ℕ → CrateResult Client
  pub presidio_client : ℕ → CrateResult (Text → Text → Text → Reply)
  pub opa_client : ℕ → CrateResult (Text → OpaInput → OpaReply)
  pub score_below : ℕ → ℕ → Bool
  pub valid_header_name : Text → Bool
  pub compile : Text → Option Regex
  pub compile_set : List Text → Option (Text → List ℕ)
  pub tokenizer_crates : Tokenize.Crates
  pub env : Text → Option Text
  pub open_sink : Text → Bool → Option Text

pub record RuntimeState (Url Client : Type 0) : Type 0 where
  pub config : AppConfig
  pub upstream_base_url : Url
  pub auth : Authenticator
  pub detector : Detector
  pub presidio : Option PresidioAnalyzer
  pub opa : Option OpaAuthorizer
  pub tokenizer : Option Tokenizer
  pub attachments : AttachmentConfig
  pub client : Client

abbrev pub is_tokenize : MaskingStrategy → Bool
is_tokenize placeholder = false
is_tokenize partial_email = false
is_tokenize partial_phone = false
is_tokenize keep_last4 = false
is_tokenize hash = false
is_tokenize tokenize = true
is_tokenize full = false

abbrev pub is_some_and {ℓ} : {A : Type ℓ} → (A → Bool) → Option A → Bool
is_some_and test none = false
is_some_and test (some a) = test a

unfoldable pub requires_tokenization : AppConfig → Bool
requires_tokenization c =
    any (λ (r : DetectionRuleConfig). is_tokenize r.masking) c.detection.rules
    || (is_some_and (λ (r : HighEntropyRuleConfig). is_tokenize r.masking) c.detection.high_entropy
        || is_some_and
            (λ (p : PresidioConfig).
              any (λ (e : PresidioEntityConfig). is_tokenize e.masking) p.entities)
            c.presidio)

abbrev pub tokenization_enabled : AppConfig → Bool
tokenization_enabled c = is_some_and (λ (t : TokenizationConfig). t.enabled) c.tokenization

unfoldable pub ensure_tokenization_configuration : AppConfig → Tokenized (Unit {0})
unfolding requires_tokenization
ensure_tokenization_configuration c =
    if requires_tokenization c && not (tokenization_enabled c)
    then Tokenize.err required_but_disabled
    else Tokenize.ok tt

-- `?` on the results of the parts
abbrev pub of_tokenized {ℓ} : {A : Type ℓ} → Tokenized A → Outcome A
of_tokenized (Tokenize.ok a) = ok a
of_tokenized (Tokenize.err e) = err (tokenization e)

abbrev pub of_auth {ℓ} : {A : Type ℓ} → Auth.AuthResult A → Outcome A
of_auth (Auth.ok a) = ok a
of_auth (Auth.err e) = err (Errors.auth e)

abbrev pub of_detector {ℓ} : {A : Type ℓ} → DetectorResult A → Outcome A
of_detector (Scan.ok a) = ok a
of_detector (Scan.invalid_regex name) = err (Errors.detector name)

abbrev pub of_crate {ℓ} : {A : Type ℓ} → (Text → AppError) → CrateResult A → Outcome A
of_crate e (done a) = ok a
of_crate e (failed message) = err (e message)

abbrev pub of_url {ℓ} : {A : Type ℓ} → Text → Option A → Outcome A
of_url text none = err (invalid_upstream_url text)
of_url text (some url) = ok url

module _ {Url Client : Type 0} (crates : RuntimeCrates Url Client) where
  -- `PresidioAnalyzer::from_config`
  pub presidio_from_config : Option PresidioConfig → Outcome (Option PresidioAnalyzer)
  unfolding entity_map_of
  presidio_from_config none = ok none
  presidio_from_config (some c) =
      if c.enabled
      then (of_crate (λ m. Errors.presidio (build_client m)) (crates.presidio_client c.timeout_ms)
          >>= λ post. ok (
              some (record {
                exchange = post c.analyzer_url c.language;
                entity_map = entity_map_of c.entities [];
                score_below = crates.score_below;
              })))
      else ok none

  -- `OpaAuthorizer::from_config`
  pub opa_from_config : Option OpaConfig → Outcome (Option OpaAuthorizer)
  opa_from_config none = ok none
  opa_from_config (some c) =
      if c.enabled
      then (of_crate Errors.opa (crates.opa_client c.timeout_ms) >>= λ post.
          ok (some (record { fail_open = c.fail_open; evaluate = post c.url })))
      else ok none

  -- `RuntimeState::from_config`, up to the audit buffer
  unfoldable pub parts_from_config : AppConfig → Outcome (RuntimeState Url Client)
  unfolding ensure_tokenization_configuration presidio_from_config opa_from_config Auth.new Scan.new
      Tokenize.from_config
  parts_from_config c = do
    _ ← of_tokenized (ensure_tokenization_configuration c)
    url ← of_url c.base_url (crates.parse_url c.base_url)
    authenticator ← of_auth (Auth.new crates.valid_header_name c.auth)
    scanner ← of_detector (Scan.new crates.compile crates.compile_set c.detection)
    analyzer ← presidio_from_config c.presidio
    authorizer ← opa_from_config c.opa
    tokenizer ←
        of_tokenized (Tokenize.from_config crates.tokenizer_crates crates.env c.tokenization)
    client ← of_crate Errors.build_client (crates.client c.timeout_ms c.connect_timeout_ms)
    ok (record {
      config = c;
      upstream_base_url = url;
      auth = authenticator;
      detector = scanner;
      presidio = analyzer;
      opa = authorizer;
      tokenizer = tokenizer;
      attachments = c.attachments;
      client = client;
    })

  -- `AuditSink::new`
  abbrev pub with_sink : RuntimeState Url Client → Option Text → Outcome (RuntimeState Url Client)
  with_sink runtime none = ok runtime
  with_sink runtime (some message) = err (audit_init message)

  abbrev pub with_audit :
      AuditStore AuditRecord
      → Outcome (RuntimeState Url Client)
      → AuditStore AuditRecord × Outcome (RuntimeState Url Client)
  unfolding Audit.set_capacity
  with_audit store (err e) = (store, err e)
  with_audit store panicked = (store, panicked)
  with_audit store (ok runtime) = (
    Audit.set_capacity runtime.config.buffer_capacity store,
    with_sink runtime (crates.open_sink runtime.config.jsonl_path runtime.config.emit_stdout),
  )

  unfoldable pub from_config :
      AppConfig
      → AuditStore AuditRecord
      → AuditStore AuditRecord × Outcome (RuntimeState Url Client)
  unfolding parts_from_config Audit.set_capacity
  from_config c store = with_audit store (parts_from_config c)

-- What a reload changes of `AppState`.
pub record Application (Url Client : Type 0) : Type 0 where
  pub runtime : RuntimeState Url Client
  pub audit_store : AuditStore AuditRecord

module _ {Url Client : Type 0} where
  abbrev pub installed :
      Application Url Client
      → AuditStore AuditRecord × Outcome (RuntimeState Url Client)
      → Application Url Client × Outcome (Unit {0})
  installed a (store, ok runtime) = (record { runtime = runtime; audit_store = store }, ok tt)
  installed a (store, err e) = (record a { audit_store = store }, err e)
  installed a (store, panicked) = (record a { audit_store = store }, panicked)

  -- `AppState::reload`, where `AppConfig::load` has given `loaded`
  unfoldable pub reload :
      RuntimeCrates Url Client
      → Outcome AppConfig
      → Application Url Client
      → Application Url Client × Outcome (Unit {0})
  unfolding from_config
  reload crates (err e) a = (a, err e)
  reload crates panicked a = (a, panicked)
  reload crates (ok c) a = installed a (from_config crates c a.audit_store)
