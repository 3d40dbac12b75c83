-- ===== src/Proxy/Headers/Kept.antt =====
-- src/proxy.rs: which headers pass the gateway.
use ctxward.Prelude.{
  ◌≡◌, refl, ap, sym, ◌∙◌, ◌⊎◌, Bool-cases, inl, inr, true, false, Option, none, some, List, [],
  ◌∷◌, Text, bytes, contains, text_eq_refl, text_eq_iff, eq_text, All, All-map, All-append, Some,
  Option-cases, arith, ◌==◌, if◌then◌else◌,
}
use ctxward.Prelude.Ascii.{to_lowercase}
use ctxward.Prelude.Table
use ctxward.Prelude.Table.{Table, get-insert, All-insert, All-remove}
use ctxward.Proxy.Headers.{
  HeaderMap, hop_by_hop_headers, is_forwarded, insert_visible, collect_forwarded,
  attach_forward_headers, UpstreamHeaders, auth_headers, upstream_headers, is_dropped,
  copy_response_headers,
}

-- A header that the allowlist names and that is not one of a single hop.
pub record IsAllowed (allowlist : List Text) (name : Text) : Type 0 where
  pub listed : contains allowlist name ≡ true
  pub end_to_end : contains hop_by_hop_headers name ≡ false

true-false : ¬ (true ≡ false)
true-false h = absurd (ground arith)

is_forwarded-IsAllowed :
    (allowlist : List Text) (name : Text)
    → is_forwarded allowlist name ≡ true
    → IsAllowed allowlist name
unfolding is_forwarded
is_forwarded-IsAllowed allowlist name h = elim (Bool-cases (contains hop_by_hop_headers name)) [
  | inl e ↦ absurd (cc (rw e at h))
  | inr e ↦ elim (Bool-cases (contains allowlist name)) [
    | inl f ↦ record { listed = f; end_to_end = e }
    | inr f ↦ absurd (cc (rw (e, f) at h))
  ]
]

-- A header of the client, with its value, that may go upstream.
pub record IsForwarded (to_str : Text → Option Text) (allowlist : List Text) (headers : HeaderMap)
    (e : Text × Text) : Type 0 where
  pub allowed : IsAllowed allowlist e.0
  pub of_client :
      Some (λ (h : Text × Text). (to_lowercase h.0 ≡ e.0) × (to_str h.1 ≡ some e.1)) headers

-- The header with the gateway's own credentials.
abbrev pub IsCredential : (Text → Option Text) → UpstreamHeaders → Text × Text → Type 0
IsCredential env u e =
    (name variable secret : Text) × (u.auth_header ≡ some name)
    × (u.auth_value_env ≡ some variable)
    × (env variable ≡ some secret)
    × (e ≡ (to_lowercase name, secret))

abbrev pub IsSent :
    (Text → Option Text)
    → (Text → Option Text)
    → UpstreamHeaders
    → Text
    → HeaderMap
    → Text × Text
    → Type 0
IsSent to_str env u request_id headers e =
    (e ≡ (bytes "x-request-id", request_id))
    ⊎ IsForwarded to_str u.forward_headers headers e
    ⊎ IsCredential env u e

module _ (to_str : Text → Option Text) (allowlist : List Text) (all : HeaderMap) where
  -- The headers still to come are headers of the client.
  abbrev AreOf : HeaderMap → Type 0
  AreOf headers = All (λ h. Some (λ x. x ≡ h) all) headers

  abbrev AllForwarded : Table Text Text → Type 0
  AllForwarded t = All (IsForwarded to_str allowlist all) t

  Some-value :
      (hs : HeaderMap) (n v value : Text)
      → Some (λ x. x ≡ (n, v)) hs
      → to_str v ≡ some value
      → Some
          (λ (h : Text × Text). (to_lowercase h.0 ≡ to_lowercase n) × (to_str h.1 ≡ some value))
          hs
  Some-value [] n v value h e = absurd h
  Some-value (x ∷ hs) n v value (inl h) e =
      inl (ap (λ (y : Text × Text). to_lowercase y.0) h, ap (λ (y : Text × Text). to_str y.1) h ∙ e)
  Some-value (x ∷ hs) n v value (inr h) e = inr (Some-value hs n v value h e)

  insert_visible-AllForwarded :
      (n v : Text) (o : Option Text) (t : Table Text Text)
      → to_str v ≡ o
      → IsAllowed allowlist (to_lowercase n)
      → Some (λ x. x ≡ (n, v)) all
      → AllForwarded t
      → AllForwarded (insert_visible (to_lowercase n) o t)
  insert_visible-AllForwarded n v none t e ok m h = h
  insert_visible-AllForwarded n v (some value) t e ok m h =
      All-insert _ (to_lowercase n) value t
        (record { allowed = ok; of_client = Some-value all n v value m e }) h

  collect_forwarded-AllForwarded :
      (headers : HeaderMap) (t : Table Text Text)
      → AreOf headers
      → AllForwarded t
      → AllForwarded (collect_forwarded to_str allowlist headers t)
  unfolding collect_forwarded
  collect_forwarded-AllForwarded [] t m h = h
  collect_forwarded-AllForwarded ((n, v) ∷ headers) t m h =
      collect_forwarded-AllForwarded headers _ m.1
        (elim (Bool-cases (is_forwarded allowlist (to_lowercase n))) [
          | inr e ↦ rw e h
          | inl e ↦ rw e (
              insert_visible-AllForwarded n v (to_str v) t refl
                (is_forwarded-IsAllowed allowlist (to_lowercase n) e) m.0 h)
        ])

All-own : (hs : HeaderMap) → All (λ h. Some (λ x. x ≡ h) hs) hs
All-own [] = tt
All-own (h ∷ hs) =
    (inl refl, All-map _ (λ x. Some (λ y. y ≡ x) (h ∷ hs)) hs (λ x m. inr m) (All-own hs))

auth_headers-IsSent :
    (to_str env : Text → Option Text) (u : UpstreamHeaders) (request_id : Text)
    (headers : HeaderMap) (a v : Option Text)
    → u.auth_header ≡ a
    → u.auth_value_env ≡ v
    → All (IsSent to_str env u request_id headers) (auth_headers env a v)
auth_headers-IsSent to_str env u request_id headers none v ha hv = tt
auth_headers-IsSent to_str env u request_id headers (some name) none ha hv = tt
auth_headers-IsSent to_str env u request_id headers (some name) (some variable) ha hv =
    elim (Option-cases (env variable)) [
      | inl n ↦ rw n tt
      | inr (secret, n) ↦ rw n (inr (inr (name, variable, secret, ha, hv, n, refl)), tt)
    ]

-- Upstream gets the gateway's request id, whatever the client sent under that name, and beside it
-- only headers of the client that the allowlist names and that are not those of a single hop, with
-- the client's values, and the gateway's own credentials, if they are configured.
pub upstream_headers-IsAllowed :
    (to_str env : Text → Option Text) (u : UpstreamHeaders) (request_id : Text)
    (headers : HeaderMap)
    → let sent = upstream_headers to_str env u request_id headers in
      (Table.get (bytes "x-request-id") sent ≡ some request_id)
      × All (IsSent to_str env u request_id headers) sent
unfolding upstream_headers attach_forward_headers Table.insert Table.get
upstream_headers-IsAllowed to_str env u request_id headers =
    let id = bytes "x-request-id" in
    let rest = collect_forwarded to_str u.forward_headers headers [] in
    let forwarded = All-remove _ id rest (
      collect_forwarded-AllForwarded to_str u.forward_headers headers headers [] (All-own headers)
        tt) in
    (
      rw (text_eq_refl id) refl,
      (
        inl refl,
        All-append (IsSent to_str env u request_id headers) (Table.remove id rest)
            (auth_headers env u.auth_header u.auth_value_env)
            (All-map _ (IsSent to_str env u request_id headers) (Table.remove id rest)
              (λ x ok. inr (inl ok)) forwarded)
            (auth_headers-IsSent to_str env u request_id headers u.auth_header u.auth_value_env refl
              refl),
      ),
    )

-- One header changes nothing under a name that is dropped.
step_drops :
    (n v : Text) (target : Table Text Text) (name : Text)
    → is_dropped name ≡ true
    → Table.get name (if is_dropped n then target else Table.insert n v target)
      ≡ Table.get name target
step_drops n v target name h = elim (Bool-cases (is_dropped n)) [
  | inl e ↦ rw e refl
  | inr e ↦ elim (Bool-cases (n == name)) [
    | inl same ↦
        absurd (true-false (sym h ∙ (ap is_dropped (sym ((text_eq_iff n name).0 same)) ∙ e)))
    | inr other ↦ rw e (ground (arith, get-insert n name v target))
  ]
]

-- A header that comes back from upstream under a name of a single hop, or of the body's size, is
-- not in the answer, unless it was there before.
pub copy_response_headers-drops :
    (source : HeaderMap) (target : Table Text Text) (name : Text)
    → is_dropped name ≡ true
    → Table.get name (copy_response_headers source target) ≡ Table.get name target
unfolding copy_response_headers
copy_response_headers-drops [] target name h = refl
copy_response_headers-drops ((n, v) ∷ source) target name h =
    let next = if is_dropped n then target else Table.insert n v target in
    copy_response_headers-drops source next name h ∙ step_drops n v target name h
