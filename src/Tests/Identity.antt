-- ===== src/Tests/Identity.antt =====
-- Requests of a configured principal and of others.
use ctxward.Prelude.{◌≡◌, refl, Bool, true, Option, some, [], ◌∷◌, Text, bytes, text_eq}
use ctxward.Prelude.Table
use ctxward.Prelude.Ascii.{lower_byte, strip_prefix}
use ctxward.Core.Types.{confidential}
use ctxward.Core.Auth.{
  PrincipalConfig, AuthConfig, Authenticator, HeaderMap, ok, new, authenticate, principal_of,
  secret_of, collect_principals,
}
use ctxward.Core.Auth.Lookup.{authenticate-new}

-- A digest that is not one: it puts a byte in front.
abbrev digest : Text → Text
digest s = 99 ∷ s

abbrev any_name : Text → Bool
any_name s = true

abbrev visible : Text → Option Text
visible s = some s

abbrev alice : PrincipalConfig
alice = record {
  name = bytes "alice";
  secret_sha256 = bytes "cKEY";
  tenant_id = bytes "t1";
  role = bytes "admin";
  clearance = confidential;
  allowed_labels = bytes "email" ∷ [];
}

abbrev config : AuthConfig
config = record { header_name = bytes "Authorization"; principals = alice ∷ [] }

abbrev built : Authenticator
built = record {
  header_name = bytes "authorization";
  principal_by_hash = (bytes "ckey", principal_of alice) ∷ [];
}

abbrev headers : HeaderMap
headers = (bytes "authorization", bytes "Bearer key") ∷ []

authenticate-new_example : authenticate digest visible built headers ≡ ok (principal_of alice)
unfolding new lower_byte Table.insert Table.get text_eq secret_of strip_prefix collect_principals
    principal_of
authenticate-new_example = authenticate-new any_name digest visible config headers built refl
