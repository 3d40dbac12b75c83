-- ===== src/Proxy/Admin/Gate.antt =====
-- src/proxy.rs: only an admin's call is carried out.
use ctxward.Prelude.{ℕ, ◌≡◌, refl, Bool-cases, inl, inr, ◌⊎◌, Option, bytes, text_eq, text_eq_iff}
use ctxward.Core.Auth.{Principal, AuthError, AuthResult}
use ctxward.Core.Auth
use ctxward.Core.Tokenize.{Crates}
use ctxward.Review.Tickets.{ReviewStoreError}
use ctxward.Audit.{AuditRecord}
use ctxward.Prelude.{Bool}
use ctxward.Proxy.Decide.{Gateway}
use ctxward.Proxy.Admin.{
  AdminCall, AdminReply, unauthorized, forbidden, AdminRuntime, carry_out_call, for_admin,
  admin_call,
}

module _ (crates : Crates) (same : AuditRecord → AuditRecord → Bool) (now : ℕ)
    (fault : Option ReviewStoreError) (rt : AdminRuntime) (call : AdminCall) (g : Gateway) where
  -- The principal that the request authenticates as.
  abbrev pub IsAdmin : Principal → Type 0
  IsAdmin p = (rt.principal ≡ Auth.ok p) × (p.role ≡ bytes "admin")

  -- No call is carried out: the answer is a refusal, and nothing changes.
  abbrev pub IsRefusal : Gateway × AdminReply → Type 0
  IsRefusal o = (o.0 ≡ g) × ((o.1 ≡ forbidden) ⊎ ((e : AuthError) × (o.1 ≡ unauthorized e)))

  for_admin-gated :
      (o : AuthResult Principal)
      → rt.principal ≡ o
      → IsRefusal (for_admin crates same now fault rt call g o)
        ⊎ ((p : Principal) × IsAdmin p
            × (for_admin crates same now fault rt call g o
                ≡ carry_out_call crates same now fault rt p call g))
  unfolding for_admin
  for_admin-gated (Auth.err e) h = inl (refl, inr (e, refl))
  for_admin-gated (Auth.ok p) h = elim (Bool-cases (text_eq p.role (bytes "admin"))) [
    | inl r ↦ rw r (inr (p, (h, (text_eq_iff p.role (bytes "admin")).0 r), refl))
    | inr r ↦ rw r (inl (refl, inl refl))
  ]

  -- Every call on reviews, audits or tokens is either refused, with nothing changed, or is one of a
  -- principal with the role of an admin, and is carried out in the name of this principal.
  pub admin_call-gated :
      IsRefusal (admin_call crates same now fault rt call g)
      ⊎ ((p : Principal) × IsAdmin p
          × (admin_call crates same now fault rt call g
              ≡ carry_out_call crates same now fault rt p call g))
  unfolding admin_call
  admin_call-gated = for_admin-gated rt.principal refl
