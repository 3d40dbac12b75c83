-- ===== src/Mitm/Updater/Bounded.antt =====
-- How much of a response is read.
use ctxward.Prelude.{
  ℕ, ◌+◌, ◌≤◌, true, false, ◌≡◌, refl, inl, inr, Bool-cases, Option, none, some, List, [], ◌∷◌,
  ◌++◌, append_nil, append_assoc, length-append, map, Text, length, ltb, leb, ltb→lt, le→leb,
  lt→leb_false, ltb_false→le, arith, if◌then◌else◌,
}
use ctxward.Mitm.Ruleset.{max_ruleset_bytes}
use ctxward.Mitm.Updater.{read_chunks, fetch_ruleset}

abbrev pub joined : List Text → Text
joined [] = []
joined (chunk ∷ chunks) = chunk ++ joined chunks

abbrev pub within_limit : Text → Option Text
within_limit body = if leb (length body) max_ruleset_bytes then some body else none

over :
    (buf c rest : Text)
    → ltb max_ruleset_bytes (length buf + length c) ≡ true
    → leb (length (buf ++ (c ++ rest))) max_ruleset_bytes ≡ false
over buf c rest h = lt→leb_false (length (buf ++ (c ++ rest))) max_ruleset_bytes (
    omega (
      arith,
      ltb→lt max_ruleset_bytes (length buf + length c) h,
      length-append buf (c ++ rest),
      length-append c rest,
    ))

within :
    (buf c : Text)
    → ltb max_ruleset_bytes (length buf + length c) ≡ false
    → length (buf ++ c) ≤ max_ruleset_bytes
within buf c h =
    omega (arith, length-append buf c, ltb_false→le max_ruleset_bytes (length buf + length c) h)

read_chunks-joined :
    (buf : Text) (chunks : List Text)
    → length buf ≤ max_ruleset_bytes
    → read_chunks buf (map some chunks) ≡ within_limit (buf ++ joined chunks)
unfolding read_chunks
read_chunks-joined buf [] h = rw (append_nil buf, le→leb (length buf) max_ruleset_bytes h) refl
read_chunks-joined buf (c ∷ cs) h =
    elim (Bool-cases (ltb max_ruleset_bytes (length buf + length c))) [
      | inl e ↦ rw (e, over buf c (joined cs) e) refl
      | inr e ↦
          rw (e, ← append_assoc buf c (joined cs))
            (read_chunks-joined (buf ++ c) cs (within buf c e))
    ]

-- A response is read as its chunks joined, however it is cut into them, if they are within the limit
-- together; else, or where the content length is over the limit, it is refused.
pub fetch_ruleset-joined :
    (len : ℕ) (chunks : List Text)
    → (fetch_ruleset none (map some chunks) ≡ within_limit (joined chunks))
      × (fetch_ruleset (some len) (map some chunks)
          ≡ (if ltb max_ruleset_bytes len then none else within_limit (joined chunks)))
unfolding fetch_ruleset
fetch_ruleset-joined len chunks = (
  read_chunks-joined [] chunks (omega arith),
  rw (read_chunks-joined [] chunks (omega arith)) refl,
)
