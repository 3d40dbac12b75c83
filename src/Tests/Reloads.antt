-- ===== src/Tests/Reloads.antt =====
-- A reload that finds the audit file shut.
use ctxward.Prelude.{ℕ, true, false, none, some, [], ◌∷◌, Text, bytes, text_eq}
use ctxward.Prelude.Ascii
use ctxward.Core.Types.{tokenize}
use ctxward.Core.Detect.Scan
use ctxward.Audit
use ctxward.Core.Auth
use ctxward.Core.Tokenize
use ctxward.Audit.{AuditStore, AuditRecord}
use ctxward.Attachments.Errors.{done, failed}
use ctxward.App.Errors.{err, audit_init}
use ctxward.App.Reload.{
  AppConfig, RuntimeCrates, Application, reload, from_config, parts_from_config,
  ensure_tokenization_configuration, requires_tokenization,
}
use ctxward.App.Reload.Kept.{IsReloaded, reload-IsReloaded}
use ctxward.Tests.Tokens.{crates}
use ctxward.Tests.Detection.{compile, compile_set, email_rule, detector}
use ctxward.Tests.Attachments.{attachments}

abbrev shut : RuntimeCrates Text ℕ
shut = record {
  parse_url = some;
  client = λ timeout connect_timeout. done timeout;
  presidio_client = λ timeout. failed (bytes "no client");
  opa_client = λ timeout. failed (bytes "no client");
  score_below = λ a b. false;
  valid_header_name = λ name. true;
  compile = compile;
  compile_set = compile_set;
  tokenizer_crates = crates;
  env = λ name. some (bytes "abcdefghijklmnopqrstuvwxyzabcdef");
  open_sink = λ path emit_stdout. some (bytes "shut");
}

abbrev next : AppConfig
next = record {
  base_url = bytes "http://upstream";
  timeout_ms = 30;
  connect_timeout_ms = 5;
  auth = record { header_name = bytes "authorization"; principals = [] };
  detection = record {
    ignore_json_pointers = [];
    high_entropy = none;
    rules = record email_rule { masking = tokenize } ∷ [];
  };
  presidio = none;
  opa = none;
  tokenization = some (record { enabled = true; key_env = bytes "KEY"; token_prefix = bytes "t" });
  attachments = attachments;
  buffer_capacity = 1;
  jsonl_path = bytes "audit.jsonl";
  emit_stdout = false;
}

abbrev recorded : AuditRecord
recorded = record {
  ts = 1;
  request_id = bytes "r1";
  principal = bytes "alice";
  tenant_id = bytes "t";
  direction = bytes "request";
  path = bytes "/";
  decision = bytes "allow";
  policy_source = bytes "builtin";
  decision_reason = none;
  matched_labels = [];
  matched_rules = [];
  findings = [];
  session_id = none;
  session_escalated = false;
  status_code = none;
  error_stage = none;
  error_kind = none;
}

abbrev running : Application Text ℕ
running = record {
  runtime = record {
    config = record next { buffer_capacity = 8 };
    upstream_base_url = bytes "http://upstream";
    auth = record { header_name = bytes "authorization"; principal_by_hash = [] };
    detector = detector;
    presidio = none;
    opa = none;
    tokenizer = none;
    attachments = attachments;
    client = 30;
  };
  audit_store = record { capacity = 8; records = recorded ∷ recorded ∷ [] };
}

-- The sink's error comes after the buffer has lost its oldest record.
reload-IsReloaded_example : IsReloaded next running (
  record running { audit_store = record { capacity = 1; records = recorded ∷ [] } },
  err (audit_init (bytes "shut")),
)
unfolding reload from_config parts_from_config ensure_tokenization_configuration
    requires_tokenization Auth.new Scan.new Tokenize.from_config Ascii.trim text_eq
    Audit.set_capacity
reload-IsReloaded_example = reload-IsReloaded shut next running
