-- ===== src/Mitm/Classify/Wildcard.antt =====
-- Which hosts a wildcard matches.
use ctxward.Prelude.{
  ℕ, zero, suc, ◌+◌, ◌-◌, ◌<◌, ◌≡◌, refl, ap, ◌∙◌, ◌↔◌, true, ◌&&◌, [], ◌∷◌, ◌++◌, Text, length,
  length-append, lt→ltb, drop, take, ltb, eqb, eqb_iff, text_eq_refl, text_eq_iff, ltb→lt, Bool,
  arith,
}
use ctxward.Mitm.Classify.{wildcard, byte_at, ends_with, matches}

drop-append : (p t : Text) → drop (length p) (p ++ t) ≡ t
drop-append [] t = refl
drop-append (a ∷ p) t = drop-append p t

drop-append_suc : (p : Text) (b : ℕ) (t : Text) → drop (suc (length p)) (p ++ b ∷ t) ≡ t
drop-append_suc [] b t = refl
drop-append_suc (a ∷ p) b t = drop-append_suc p b t

absurd : (n : ℕ) → n < 0 → ⊥
absurd n h = omega arith

-- A position inside the text splits it at its byte.
split_at : (n : ℕ) (s : Text) → n < length s → s ≡ take n s ++ byte_at s n ∷ drop (suc n) s
split_at n [] h = elim (absurd n h) [ ]
split_at zero (a ∷ s) h = refl
split_at (suc n) (a ∷ s) h = ap (λ r. a ∷ r) (split_at n s (omega arith))

lengths : (p : Text) (b : ℕ) (s : Text) → length (p ++ b ∷ s) ≡ suc (length p + length s)
lengths p b s = omega (arith, length-append p (b ∷ s))

before_dot : (p s : Text) → length (p ++ b'.' ∷ s) - length s ≡ suc (length p)
before_dot p s = omega (arith, lengths p b'.' s)

last_before : (p s : Text) → length (p ++ b'.' ∷ s) - length s - 1 ≡ length p
last_before p s = omega (arith, lengths p b'.' s)

suc_before : (a b : ℕ) → a < b → suc (b - a - 1) ≡ b - a
suc_before a b h = omega arith

byte_at-append : (p : Text) (b : ℕ) (s : Text) → byte_at (p ++ b ∷ s) (length p) ≡ b
byte_at-append [] b s = refl
byte_at-append (a ∷ p) b s = byte_at-append p b s

is_longer : (p s : Text) → ltb (length s) (length (p ++ b'.' ∷ s)) ≡ true
is_longer p s = lt→ltb (length s) (length (p ++ b'.' ∷ s)) (omega (arith, lengths p b'.' s))

ends_with-append : (p s : Text) → ends_with s (p ++ b'.' ∷ s) ≡ true
unfolding ends_with
ends_with-append p s = rw (before_dot p s, drop-append_suc p b'.' s) (text_eq_refl s)

wildcard-append : (p s : Text) → matches (wildcard s) (p ++ b'.' ∷ s) ≡ true
unfolding matches
wildcard-append p s =
    rw (ends_with-append p s, is_longer p s, last_before p s, byte_at-append p b'.' s) refl

parts : (a b c : Bool) → (a && (b && c)) ≡ true → (a ≡ true) × (b ≡ true) × (c ≡ true)
parts a b c h = ground arith

-- The place of the byte before the suffix.
abbrev before : Text → Text → ℕ
before s host = length host - length s - 1

split-parts :
    (s host : Text)
    → (ends_with s host ≡ true)
      × (ltb (length s) (length host) ≡ true)
      × (eqb (byte_at host (before s host)) b'.' ≡ true)
    → host ≡ take (before s host) host ++ b'.' ∷ s
unfolding ends_with
split-parts s host h =
    split_at (before s host) host (omega (arith, ltb→lt (length s) (length host) h.1))
    ∙ ap (λ b. take (before s host) host ++ b ∷ drop (suc (before s host)) host)
        ((eqb_iff (byte_at host (before s host)) b'.').0 h.2)
    ∙ ap (λ n. take (before s host) host ++ b'.' ∷ drop n host)
        (suc_before (length s) (length host) (ltb→lt (length s) (length host) h.1))
    ∙ ap (λ r. take (before s host) host ++ b'.' ∷ r)
        ((text_eq_iff (drop (length host - length s) host) s).0 h.0)

-- A wildcard matches the hosts that put a dot before its suffix, whatever stands before the dot, and
-- no other, the suffix itself included.
pub matches-wildcard :
    (s host : Text) → (matches (wildcard s) host ≡ true) ↔ ((p : Text) × (host ≡ p ++ b'.' ∷ s))
unfolding matches
matches-wildcard s host = (
  λ h. (
    take (before s host) host,
    split-parts s host (
        parts (ends_with s host) (ltb (length s) (length host))
          (eqb (byte_at host (before s host)) b'.') h),
  ),
  λ e. rw e.1 (wildcard-append e.0 s),
)
