-- ===== src/App/Reload/Kept.antt =====
-- src/app.rs: what a reload installs, and what it keeps where it fails.
use ctxward.Prelude.{
  ◌≡◌, refl, Bool, true, false, Bool-cases, inl, inr, ◌⊎◌, Option, none, some, Text, if◌then◌else◌,
}
use ctxward.Core.Tokenize.{TokenizationConfig, Tokenizer, Tokenized}
use ctxward.Core.Tokenize
use ctxward.Core.Tokenize.Enabled.{from_config-none}
use ctxward.Core.Detect.Scan.{DetectorResult}
use ctxward.Core.Detect.Scan
use ctxward.Core.Auth.{AuthResult}
use ctxward.Core.Auth
use ctxward.Attachments.Errors.{CrateResult, done, failed}
use ctxward.Audit
use ctxward.Audit.{AuditStore, AuditRecord}
use ctxward.App.Errors.{AppError, audit_init, build_client, Outcome, ok, err, panicked, ◌>>=◌}
use ctxward.App.Reload.{
  AppConfig, PresidioConfig, OpaConfig, RuntimeCrates, RuntimeState, Application, is_some_and,
  requires_tokenization, tokenization_enabled, ensure_tokenization_configuration, of_tokenized,
  of_auth, of_detector, of_crate, of_url, presidio_from_config, opa_from_config, parts_from_config,
  with_audit, with_sink, from_config, installed, reload,
}

-- A value that has the property, or an error; no panic.
abbrev Gives : {A : Type 0} → (A → Type 0) → Outcome A → Type 0
Gives P (ok a) = P a
Gives P (err e) = Unit
Gives P panicked = ⊥

abbrev Any : {A : Type 0} → A → Type 0
Any a = Unit

Gives-bind :
    {A B : Type 0} (P : A → Type 0) (Q : B → Type 0) (m : Outcome A) (f : A → Outcome B)
    → Gives P m
    → ((a : A) → P a → Gives Q (f a))
    → Gives Q (m >>= f)
Gives-bind P Q (ok a) f p h = h a p
Gives-bind P Q (err e) f p h = tt
Gives-bind P Q panicked f p h = absurd p

of_tokenized-Gives :
    {A : Type 0} (m : Tokenized A) → Gives (λ a. m ≡ Tokenize.ok a) (of_tokenized m)
of_tokenized-Gives (Tokenize.ok a) = refl
of_tokenized-Gives (Tokenize.err e) = tt

of_auth-Gives : {A : Type 0} (m : AuthResult A) → Gives Any (of_auth m)
of_auth-Gives (Auth.ok a) = tt
of_auth-Gives (Auth.err e) = tt

of_detector-Gives : {A : Type 0} (m : DetectorResult A) → Gives Any (of_detector m)
of_detector-Gives (Scan.ok a) = tt
of_detector-Gives (Scan.invalid_regex name) = tt

of_crate-Gives : {A : Type 0} (e : Text → AppError) (m : CrateResult A) → Gives Any (of_crate e m)
of_crate-Gives e (done a) = tt
of_crate-Gives e (failed message) = tt

of_url-Gives : {A : Type 0} (text : Text) (o : Option A) → Gives Any (of_url text o)
of_url-Gives text none = tt
of_url-Gives text (some url) = tt

Gives-if :
    {A : Type 0} (P : A → Type 0) (b : Bool) (m n : Outcome A)
    → Gives P m
    → Gives P n
    → Gives P (if b then m else n)
Gives-if P true m n p q = p
Gives-if P false m n p q = q

module _ {Url Client : Type 0} (crates : RuntimeCrates Url Client) where
  presidio_from_config-Gives :
      (o : Option PresidioConfig) → Gives Any (presidio_from_config crates o)
  unfolding presidio_from_config
  presidio_from_config-Gives none = tt
  presidio_from_config-Gives (some c) =
      Gives-if Any c.enabled _ (ok none)
        (Gives-bind Any Any _ _ (of_crate-Gives _ (crates.presidio_client c.timeout_ms))
          (λ post p. tt))
        tt

  opa_from_config-Gives : (o : Option OpaConfig) → Gives Any (opa_from_config crates o)
  unfolding opa_from_config
  opa_from_config-Gives none = tt
  opa_from_config-Gives (some c) =
      Gives-if Any c.enabled _ (ok none)
        (Gives-bind Any Any _ _ (of_crate-Gives _ (crates.opa_client c.timeout_ms)) (λ post p. tt))
        tt

-- A tokenizer is there if a mask of the configuration needs one.
abbrev pub IsEquipped : AppConfig → Option Tokenizer → Type 0
IsEquipped c none = requires_tokenization c ≡ false
IsEquipped c (some t) = Unit

enabled-none :
    (crates : Tokenize.Crates) (env : Text → Option Text) (o : Option TokenizationConfig)
    → Tokenize.from_config crates env o ≡ Tokenize.ok none
    → is_some_and (λ (t : TokenizationConfig). t.enabled) o ≡ false
enabled-none crates env none h = refl
enabled-none crates env (some c) h = from_config-none crates env c h

ensure-required :
    (c : AppConfig)
    → ensure_tokenization_configuration c ≡ Tokenize.ok tt
    → tokenization_enabled c ≡ false
    → requires_tokenization c ≡ false
unfolding ensure_tokenization_configuration
ensure-required c h n = elim (Bool-cases (requires_tokenization c)) [
  | inl e ↦ cc (rw (ensure_tokenization_configuration, e, n) at h)
  | inr e ↦ e
]

IsEquipped-from_config :
    (crates : Tokenize.Crates) (env : Text → Option Text) (c : AppConfig) (t : Option Tokenizer)
    → ensure_tokenization_configuration c ≡ Tokenize.ok tt
    → Tokenize.from_config crates env c.tokenization ≡ Tokenize.ok t
    → IsEquipped c t
IsEquipped-from_config crates env c none h e =
    ensure-required c h (enabled-none crates env c.tokenization e)
IsEquipped-from_config crates env c (some t) h e = tt

module _ {Url Client : Type 0} where
  -- What a reload of a configuration installs, or keeps.
  abbrev pub IsReloaded :
      AppConfig → Application Url Client → Application Url Client × Outcome (Unit {0}) → Type 0
  unfolding Audit.set_capacity
  IsReloaded c a (a', ok u) =
      (a'.runtime.config ≡ c)
      × IsEquipped c a'.runtime.tokenizer
      × (a'.audit_store ≡ Audit.set_capacity c.buffer_capacity a.audit_store)
  IsReloaded c a (a', err e) =
      (a'.runtime ≡ a.runtime)
      × ((a'.audit_store ≡ a.audit_store)
          ⊎ ((message : Text) × (e ≡ audit_init message)
              × (a'.audit_store ≡ Audit.set_capacity c.buffer_capacity a.audit_store)))
  IsReloaded c a (a', panicked) = ⊥

module _ {Url Client : Type 0} (crates : RuntimeCrates Url Client) where
  abbrev IsBuilt : AppConfig → RuntimeState Url Client → Type 0
  IsBuilt c r = (r.config ≡ c) × IsEquipped c r.tokenizer

  parts_from_config-IsBuilt : (c : AppConfig) → Gives (IsBuilt c) (parts_from_config crates c)
  unfolding parts_from_config
  parts_from_config-IsBuilt c =
      let Q = IsBuilt c in
      Gives-bind _ Q _ _ (of_tokenized-Gives (ensure_tokenization_configuration c)) (λ u ensured.
        Gives-bind Any Q _ _ (of_url-Gives c.base_url (crates.parse_url c.base_url)) (λ url p.
          Gives-bind Any Q _ _ (of_auth-Gives (Auth.new crates.valid_header_name c.auth))
            (λ authenticator p.
              Gives-bind Any Q _ _
                (of_detector-Gives (Scan.new crates.compile crates.compile_set c.detection))
                (λ scanner p.
                  Gives-bind Any Q _ _ (presidio_from_config-Gives crates c.presidio) (λ analyzer p.
                    Gives-bind Any Q _ _ (opa_from_config-Gives crates c.opa) (λ authorizer p.
                      Gives-bind _ Q _ _
                        (of_tokenized-Gives
                          (Tokenize.from_config crates.tokenizer_crates crates.env c.tokenization))
                        (λ tokenizer made.
                          Gives-bind Any Q _ _
                            (of_crate-Gives build_client
                              (crates.client c.timeout_ms c.connect_timeout_ms))
                            (λ client p.
                              let built : (c ≡ c) × IsEquipped c tokenizer = (
                                refl,
                                IsEquipped-from_config crates.tokenizer_crates crates.env c
                                    tokenizer ensured made,
                              ) in
                              built))))))))

  with_sink-IsReloaded :
      (c : AppConfig) (a : Application Url Client) (r : RuntimeState Url Client) (o : Option Text)
      → IsBuilt c r
      → IsReloaded c a (
          installed a
            (Audit.set_capacity r.config.buffer_capacity a.audit_store, with_sink crates r o))
  unfolding Audit.set_capacity
  with_sink-IsReloaded c a r none (same, equipped) = (same, equipped, rw same refl)
  with_sink-IsReloaded c a r (some message) (same, equipped) =
      (refl, inr (message, refl, rw same refl))

  with_audit-IsReloaded :
      (c : AppConfig) (a : Application Url Client) (m : Outcome (RuntimeState Url Client))
      → Gives (IsBuilt c) m
      → IsReloaded c a (installed a (with_audit crates a.audit_store m))
  unfolding Audit.set_capacity
  with_audit-IsReloaded c a (ok r) b =
      with_sink-IsReloaded c a r (crates.open_sink r.config.jsonl_path r.config.emit_stdout) b
  with_audit-IsReloaded c a (err e) b = (refl, inl refl)
  with_audit-IsReloaded c a panicked b = absurd b

  -- A reload with a configuration that was read never panics. Either it succeeds, and then the
  -- runtime is that of the new configuration, has a tokenizer if a mask of that configuration needs
  -- one, and the audit buffer has the new capacity; or it fails and the old runtime stays, and so
  -- does the audit buffer, unless what failed is the opening of the audit file: then the buffer has
  -- the new capacity already, and has lost the oldest records that are too many for it.
  pub reload-IsReloaded :
      (c : AppConfig) (a : Application Url Client) → IsReloaded c a (reload crates (ok c) a)
  unfolding reload from_config Audit.set_capacity
  reload-IsReloaded c a = with_audit-IsReloaded c a _ (parts_from_config-IsBuilt c)
