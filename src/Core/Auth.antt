-- ===== src/Core/Auth.antt =====
-- crates/ctxward-core/src/auth.rs: principals and the authenticator. SHA-256, and what the `http`
-- crate takes for a header name and for a header value that is text, are parameters.
pub mod Lookup
use ctxward.Prelude.{
  ℕ, Bool, true, false, Option, none, some, List, [], ◌∷◌, Text, bytes, text_eq, eq_text,
  if◌then◌else◌,
}
use ctxward.Prelude.Ascii.{to_lowercase, strip_prefix}
use ctxward.Prelude.Table
use ctxward.Prelude.Table.{Table}
use ctxward.Core.Types.{Clearance}

pub record Principal : Type 0 where
  pub name : Text
  pub tenant_id : Text
  pub role : Text
  pub clearance : Clearance
  pub allowed_labels : List Text

-- `PrincipalConfig` of config.rs
pub record PrincipalConfig : Type 0 where
  pub name : Text
  pub secret_sha256 : Text
  pub tenant_id : Text
  pub role : Text
  pub clearance : Clearance
  pub allowed_labels : List Text

-- `AuthConfig` of config.rs
pub record AuthConfig : Type 0 where
  pub header_name : Text
  pub principals : List PrincipalConfig

pub data AuthError : Type 0 where
  invalid_header_name missing_credentials invalid_credentials : AuthError

pub data AuthResult {ℓ} (A : Type ℓ) : Type ℓ where
  ok : A → AuthResult A
  err : AuthError → AuthResult A

-- `From<&PrincipalConfig> for Principal`
unfoldable pub principal_of : PrincipalConfig → Principal
principal_of c = record {
  name = c.name;
  tenant_id = c.tenant_id;
  role = c.role;
  clearance = c.clearance;
  allowed_labels = c.allowed_labels;
}

pub record Authenticator : Type 0 where
  pub header_name : Text
  pub principal_by_hash : Table Text Principal

-- `collect` into the map: a later principal replaces an earlier one with the same hash.
unfoldable pub collect_principals :
    List PrincipalConfig → Table Text Principal → Table Text Principal
unfolding principal_of
collect_principals [] t = t
collect_principals (c ∷ cs) t =
    collect_principals cs (Table.insert (to_lowercase c.secret_sha256) (principal_of c) t)

-- `HeaderMap`: names in lower case, with their first values first.
abbrev pub HeaderMap : Type 0
HeaderMap = Table Text Text

abbrev pub authorization : Text
authorization = bytes "authorization"

-- `Bearer ` and `bearer ` are dropped, once, in that order.
pub strip_bearer : Text → Text
strip_bearer value = elim (strip_prefix (bytes "Bearer ") value) [
  | some rest ↦ rest
  | none ↦ elim (strip_prefix (bytes "bearer ") value) [ some rest ↦ rest | none ↦ value ]
]

module _ (valid_header_name : Text → Bool) where
  -- `Authenticator::new`
  unfoldable pub new : AuthConfig → AuthResult Authenticator
  unfolding collect_principals
  new config =
      let name = to_lowercase config.header_name in
      if valid_header_name name
      then ok (record {
        header_name = name;
        principal_by_hash = collect_principals config.principals [];
      })
      else err invalid_header_name

unfoldable pub secret_of : Text → Text → Text
unfolding strip_bearer
secret_of header_name value =
    if text_eq header_name authorization then strip_bearer value else value

module _ (sha256_hex : Text → Text) (to_str : Text → Option Text) where
  -- `Authenticator::authenticate`
  unfoldable pub authenticate : Authenticator → HeaderMap → AuthResult Principal
  unfolding secret_of
  authenticate a headers = elim (Table.get a.header_name headers) [
    | none ↦ err missing_credentials
    | some raw ↦ elim (to_str raw) [
      | none ↦ err invalid_credentials
      | some value ↦
          elim (Table.get (sha256_hex (secret_of a.header_name value)) a.principal_by_hash) [
            | none ↦ err invalid_credentials
            | some p ↦ ok p
          ]
    ]
  ]
