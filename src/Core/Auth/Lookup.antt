-- ===== src/Core/Auth/Lookup.antt =====
-- Who a request is authenticated as, in terms of the configuration.
use ctxward.Prelude.{
  ◌≡◌, refl, Option-cases, inl, inr, Bool, Option, none, some, List, [], ◌∷◌, Text, text_eq,
  eq_text, arith, if◌then◌else◌,
}
use mathlib.Core.Path.{subst}
use ctxward.Prelude.Ascii.{to_lowercase}
use ctxward.Prelude.Table
use ctxward.Prelude.Table.{Table, get-insert}
use ctxward.Core.Auth.{
  Principal, PrincipalConfig, AuthConfig, missing_credentials, invalid_credentials, AuthResult, ok,
  err, principal_of, Authenticator, collect_principals, HeaderMap, new, secret_of, authenticate,
}

-- The last configured principal whose hash, in lower case, is `digest`.
abbrev pub last_with_hash : Text → List PrincipalConfig → Option Principal → Option Principal
last_with_hash digest [] found = found
last_with_hash digest (c ∷ cs) found =
    last_with_hash digest cs
      (if text_eq (to_lowercase c.secret_sha256) digest then some (principal_of c) else found)

get-collect_principals :
    (digest : Text) (cs : List PrincipalConfig) (t : Table Text Principal)
    → Table.get digest (collect_principals cs t) ≡ last_with_hash digest cs (Table.get digest t)
unfolding collect_principals
get-collect_principals digest [] t = refl
get-collect_principals digest (c ∷ cs) t =
    let k = to_lowercase c.secret_sha256 in
    let t' = Table.insert k (principal_of c) t in
    rw (get-collect_principals digest cs t', get-insert k digest (principal_of c) t)

abbrev pub accepted : Option Principal → AuthResult Principal
accepted none = err invalid_credentials
accepted (some p) = ok p

module _ (valid_header_name : Text → Bool) (sha256_hex : Text → Text)
    (to_str : Text → Option Text) where
  -- What `authenticate` answers for a configuration and the header's value, if there is one.
  abbrev pub expected : AuthConfig → Option Text → AuthResult Principal
  expected config none = err missing_credentials
  expected config (some raw) = elim (to_str raw) [
    | none ↦ err invalid_credentials
    | some value ↦ accepted (
        last_with_hash (sha256_hex (secret_of (to_lowercase config.header_name) value))
          config.principals none)
  ]

  accepted-get :
      (config : AuthConfig) (digest : Text)
      → (elim (Table.get digest (collect_principals config.principals [])) [
        | none ↦ err invalid_credentials
        | some p ↦ ok p
      ])
        ≡ accepted (last_with_hash digest config.principals none)
  unfolding Table.get
  accepted-get config digest =
      rw (get-collect_principals digest config.principals []) (ground arith)

  authenticate-record :
      (config : AuthConfig) (headers : HeaderMap)
      → authenticate sha256_hex to_str
          (record {
            header_name = to_lowercase config.header_name;
            principal_by_hash = collect_principals config.principals [];
          })
          headers
        ≡ expected config (Table.get (to_lowercase config.header_name) headers)
  unfolding authenticate
  authenticate-record config headers =
      elim (Option-cases (Table.get (to_lowercase config.header_name) headers)) [
        | inl e ↦ rw (e, authenticate)
        | inr (raw, e) ↦ elim (Option-cases (to_str raw)) [
          | inl u ↦ rw (e, authenticate, expected, u)
          | inr (value, u) ↦ rw (e, authenticate, expected, u) (accepted-get config _)
        ]
      ]

  new-eq-ok :
      (config : AuthConfig) (a : Authenticator)
      → new valid_header_name config ≡ ok a
      → record {
        header_name = to_lowercase config.header_name;
        principal_by_hash = collect_principals config.principals [];
      }
        ≡ a
  unfolding new
  new-eq-ok config a h = ground arith

  -- An authenticator that `new` builds answers as the configuration says: no header, missing
  -- credentials; a value that is no text, or whose secret has a digest that no principal has,
  -- invalid credentials; else the last principal with that digest.
  pub authenticate-new :
      (config : AuthConfig) (headers : HeaderMap) (a : Authenticator)
      → new valid_header_name config ≡ ok a
      → authenticate sha256_hex to_str a headers
        ≡ expected config (Table.get (to_lowercase config.header_name) headers)
  authenticate-new config headers a h =
      subst
        (λ b.
          authenticate sha256_hex to_str b headers
          ≡ expected config (Table.get (to_lowercase config.header_name) headers))
        (new-eq-ok config a h) (authenticate-record config headers)
