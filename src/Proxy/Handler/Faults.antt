-- ===== src/Proxy/Handler/Faults.antt =====
-- src/proxy.rs: what goes upstream has been through the whole pipeline, and an error is recorded.
use ctxward.Prelude.{
  List, [], ◌∷◌, bytes, contains, eq_text, some, ◌⊎◌, ℕ, ◌≡◌, Option, Text, if◌then◌else◌,
}
use ctxward.Core.Auth.{Principal, authenticate}
use ctxward.Core.Auth
use ctxward.Review.Tickets.{ReviewStoreError}
use ctxward.Audit.{AuditRecord, AuditStore}
use ctxward.Audit
use ctxward.App.Errors.{AppError, invalid_upstream_url, runtime_io, proxy, Outcome, ok, err}
use ctxward.Proxy.Headers.{upstream_headers}
use ctxward.Proxy.Response.{ProcessedPayload}
use ctxward.Proxy.Decide.{Gateway}
use ctxward.Proxy.Request.{
  ProxyResult, forwarded, review_required, refused, opa_failed, review_store_failed, handle_proxy,
}
use ctxward.Proxy.Handler.{
  ClientRequest, Answer, upstream, ticket, blocked, unauthorized, upstream_error, handler_panicked,
  proxy_error_kind, trim_start_slashes, build_request_pre_upstream_error_audit, Runtime,
  session_header, proxy_request, process_request,
}

-- A result that is an error of OPA or of the review store.
abbrev IsFault : ProxyResult → Type 0
IsFault (forwarded body) = ⊥
IsFault (review_required status code id action) = ⊥
IsFault (refused status code) = ⊥
IsFault (opa_failed text) = Unit
IsFault (review_store_failed e) = Unit

-- The kinds of the errors that are recorded.
abbrev pub recorded_kinds : List Text
recorded_kinds =
    bytes "attachment"
    ∷ bytes "presidio"
    ∷ bytes "opa"
    ∷ bytes "tokenization"
    ∷ bytes "detector"
    ∷ bytes "review_store"
    ∷ []

module _ (rt : Runtime) (now : ℕ) (id : Text) (fault : Option ReviewStoreError) (r : ClientRequest)
    (g : Gateway) where
  -- The audit after an error: one record more, if the error is of those that are recorded.
  abbrev pub IsRecorded : Principal → AppError → Gateway → Type 0
  IsRecorded p error g' = g'.audit ≡ (
      if contains recorded_kinds (proxy_error_kind error)
      then Audit.push
          (build_request_pre_upstream_error_audit rt.message now p r (session_header rt r) error)
          g.audit
      else g.audit)

  abbrev pub IsPrincipal : Principal → Type 0
  IsPrincipal p = authenticate rt.proxy.sha256_hex rt.to_str rt.authenticator r.headers ≡ Auth.ok p

  -- The request was read and processed, and is let through with this body, which the state tells.
  abbrev pub IsLetThrough : Principal → Text → Gateway → Type 0
  IsLetThrough p body g' =
      (raw : Text) × (processed : ProcessedPayload) × (process_request rt r p ≡ ok (raw, processed))
      × (handle_proxy rt.proxy now id fault (proxy_request rt r p raw processed) g
          ≡ (g', forwarded body))

  -- A request that was let through, and then has no URL or no method.
  abbrev pub IsUnsent : Principal → AppError → Gateway → Type 0
  IsUnsent p error g' =
      (body : Text) × IsLetThrough p body g'
      × ((error ≡ invalid_upstream_url r.path_and_query)
          ⊎ ((text : Text) × (error ≡ runtime_io text)))

  abbrev pub IsHandled : Gateway × Answer → Type 0
  IsHandled (g', upstream u) =
      (p : Principal) × IsPrincipal p
      × IsLetThrough p u.body g'
      × (rt.join (trim_start_slashes r.path_and_query) ≡ some u.url)
      × (u.headers ≡ upstream_headers rt.to_str rt.env rt.upstream_headers r.request_id r.headers)
  IsHandled (g', unauthorized e) =
      (authenticate rt.proxy.sha256_hex rt.to_str rt.authenticator r.headers ≡ Auth.err e)
      × (g' ≡ g)
  IsHandled (g', upstream_error error) =
      (p : Principal) × IsPrincipal p × (IsRecorded p error g' ⊎ IsUnsent p error g')
  IsHandled (g', ticket status code id action) = (p : Principal) × IsPrincipal p
  IsHandled (g', blocked status code) = (p : Principal) × IsPrincipal p
  IsHandled (g', handler_panicked) = Unit
