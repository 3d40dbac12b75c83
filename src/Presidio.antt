-- ===== src/Presidio.antt =====
-- src/presidio.rs: the findings of an external analyzer. The HTTP exchange and the comparison of
-- scores, which are floating-point numbers, are parameters; a score is its bit pattern.
pub mod Boundaries
use ctxward.Prelude.{
  ℕ, suc, ◌+◌, ◌-◌, Bool, true, false, ◌&&◌, ◌||◌, not, Option, none, some, List, [], ◌∷◌, ◌++◌,
  Text, bytes, length, take, drop, leb, ltb, eqb, eq_text, if◌then◌else◌,
}
use ctxward.Prelude.Ascii.{trim}
use ctxward.Prelude.Table
use ctxward.Prelude.Table.{Table}
use ctxward.Core.Types.{Clearance, DecisionAction, MaskingStrategy, Severity}
use ctxward.Core.Detect.Findings.{RuleMetadata, DetectionFinding, new_finding}
use ctxward.Core.Redact.{starts_char, is_char_boundary}

pub data PresidioError : Type 0 where
  build_client : Text → PresidioError
  request_failed : Text → PresidioError
  bad_status : ℕ → Text → PresidioError

-- `PresidioEntityConfig` of config.rs
pub record PresidioEntityConfig : Type 0 where
  pub entity_type : Text
  pub label : Text
  pub severity : Severity
  pub authorized_action : DecisionAction
  pub unauthorized_action : DecisionAction
  pub min_clearance : Clearance
  pub masking : MaskingStrategy
  pub min_score : ℕ

-- The offsets count characters.
pub record AnalyzerResult : Type 0 where
  pub start : ℕ
  pub end : ℕ
  pub score : ℕ
  pub entity_type : Text

-- `response.json()`, with the message if the body cannot be read
pub data Body : Type 0 where
  results : List AnalyzerResult → Body
  unreadable : Text → Body

-- What comes back from the service: nothing, or a status with a body.
pub data Reply : Type 0 where
  unreachable : Text → Reply
  answered : ℕ → Text → Body → Reply

pub record PresidioAnalyzer : Type 0 where
  pub exchange : Text → Reply
  pub entity_map : Table Text PresidioEntityConfig
  pub score_below : ℕ → ℕ → Bool

-- `from_config`: the entities by their types, a later one in place of an earlier one.
unfoldable pub entity_map_of :
    List PresidioEntityConfig → Table Text PresidioEntityConfig → Table Text PresidioEntityConfig
entity_map_of [] t = t
entity_map_of (e ∷ es) t = entity_map_of es (Table.insert e.entity_type e t)

-- `text.char_indices()`, the indices only, from the byte at `index` on
pub char_indices : ℕ → Text → List ℕ
unfolding starts_char
char_indices index [] = []
char_indices index (b ∷ s) =
    let rest = char_indices (suc index) s in if starts_char (b ∷ s) then index ∷ rest else rest

pub character_boundaries : Text → List ℕ
unfolding char_indices
character_boundaries text = char_indices 0 text ++ length text ∷ []

-- `boundaries.get(char_offset).copied().unwrap_or(text_len)`
pub char_offset_to_byte_index : List ℕ → ℕ → ℕ → ℕ
char_offset_to_byte_index [] i text_len = text_len
char_offset_to_byte_index (b ∷ bs) i text_len =
    let rest = char_offset_to_byte_index bs (i - 1) text_len in if eqb i 0 then b else rest

-- Findings, an error, or the panic of a slice off a char boundary.
pub data Analysis : Type 0 where
  ok : List DetectionFinding → Analysis
  err : PresidioError → Analysis
  panicked : Analysis

abbrev pub cons_finding : DetectionFinding → Analysis → Analysis
cons_finding f (ok fs) = ok (f ∷ fs)
cons_finding f (err e) = err e
cons_finding f panicked = panicked

abbrev pub entity_metadata : PresidioEntityConfig → RuleMetadata
entity_metadata entity = record {
  rule_name = bytes "presidio:" ++ entity.entity_type;
  label = entity.label;
  severity = entity.severity;
  authorized_action = entity.authorized_action;
  unauthorized_action = entity.unauthorized_action;
  min_clearance = entity.min_clearance;
  masking = entity.masking;
}

abbrev pub is_empty {ℓ} : {A : Type ℓ} → List A → Bool
is_empty [] = true
is_empty (x ∷ xs) = false

module _ (sha256_hex : Text → Text) where
  -- A finding at a span of bytes, before those of the later results.
  pub span_finding : Text → Text → PresidioEntityConfig → ℕ → ℕ → Analysis → Analysis
  unfolding is_char_boundary
  span_finding text pointer entity start end rest =
      if leb end start
      then rest
      else if is_char_boundary text start && is_char_boundary text end
      then cons_finding
          (new_finding sha256_hex start end (take (end - start) (drop start text)) pointer
            (entity_metadata entity))
          rest
      else panicked

  -- The loop over the results.
  pub item_findings : PresidioAnalyzer → Text → Text → List AnalyzerResult → Analysis
  unfolding span_finding character_boundaries char_offset_to_byte_index
  item_findings p text pointer [] = ok []
  item_findings p text pointer (item ∷ items) =
      let rest = item_findings p text pointer items in
      elim (Table.get item.entity_type p.entity_map) [
        | none ↦ rest
        | some entity ↦
            if p.score_below item.score entity.min_score
            then rest
            else span_finding text pointer entity
                (char_offset_to_byte_index (character_boundaries text) item.start (length text))
                (char_offset_to_byte_index (character_boundaries text) item.end (length text)) rest
      ]

  pub body_findings : PresidioAnalyzer → Text → Text → Body → Analysis
  unfolding item_findings
  body_findings p text pointer (unreadable message) = err (request_failed message)
  body_findings p text pointer (results items) = item_findings p text pointer items

  -- `is_success` is a status from 200 to 299.
  pub reply_findings : PresidioAnalyzer → Text → Text → Reply → Analysis
  unfolding body_findings
  reply_findings p text pointer (unreachable message) = err (request_failed message)
  reply_findings p text pointer (answered status text_body body) =
      if leb 200 status && ltb status 300
      then body_findings p text pointer body
      else err (bad_status status text_body)

  -- `PresidioAnalyzer::analyze`
  unfoldable pub analyze : PresidioAnalyzer → Text → Text → Analysis
  unfolding reply_findings
  analyze p text pointer =
      if is_empty (trim text) || is_empty p.entity_map
      then ok []
      else reply_findings p text pointer (p.exchange text)
