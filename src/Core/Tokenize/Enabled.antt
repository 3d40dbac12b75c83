-- ===== src/Core/Tokenize/Enabled.antt =====
-- crates/ctxward-core/src/tokenize.rs: when the configuration gives a tokenizer.
use ctxward.Prelude.{◌≡◌, false, Bool-cases, inl, inr, Option, none, some, Text}
use ctxward.Core.Tokenize.{
  Crates, TokenizationConfig, Tokenized, ok, err, ◌>>=◌, ok_or, missing_key_env, decode_key,
  from_key_material, from_config,
}

-- A chain that ends in a tokenizer never gives none.
bind-some {ℓ κ} :
    {A : Type ℓ} {B : Type κ} (m : Tokenized A) (f : A → Tokenized (Option B))
    → ((a : A) → ¬ (f a ≡ ok none))
    → ¬ ((m >>= f) ≡ ok none)
bind-some (ok a) f h e = h a e
bind-some (err x) f h e = cc

-- A configuration that gives no tokenizer, and no error, is one that is not enabled.
pub from_config-none :
    (crates : Crates) (env : Text → Option Text) (c : TokenizationConfig)
    → from_config crates env (some c) ≡ ok none
    → c.enabled ≡ false
unfolding from_config
from_config-none crates env c h = elim (Bool-cases c.enabled) [
  | inl e ↦ absurd (
      bind-some (ok_or (missing_key_env c.key_env) (env c.key_env))
        (λ raw_key. decode_key crates raw_key >>= λ key.
          from_key_material key c.token_prefix c.key_env >>= λ t. ok (some t))
        (λ raw_key.
          bind-some (decode_key crates raw_key)
            (λ key. from_key_material key c.token_prefix c.key_env >>= λ t. ok (some t))
            (λ key.
              bind-some (from_key_material key c.token_prefix c.key_env) (λ t. ok (some t))
                (λ t q. cc)))
        (rw (from_config, e) at h))
  | inr e ↦ e
]
