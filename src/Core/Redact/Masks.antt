-- ===== src/Core/Redact/Masks.antt =====
-- The masks begin on a char boundary, and what two of them show or refuse.
use ctxward.Prelude.{
  ℕ, ◌-◌, ◌≤◌, ◌≡◌, refl, true, false, Option, Option-cases, none, some, inl, inr, [], ◌∷◌, ◌++◌,
  Text, bytes, length, take, drop, arith,
}
use ctxward.Prelude.Ascii.{split_once}
use ctxward.Core.Types.{
  MaskingStrategy, placeholder, partial_email, partial_phone, keep_last4, hash, tokenize, full,
}
use ctxward.Core.Tokenize
use ctxward.Core.Tokenize.{Tokenized}
use ctxward.Core.Redact.{
  ok, panicked, starts_char, is_char_boundary, char_width, first_char, mask_email, mask_phone,
  mask_keep_last4, apply_mask,
}
use ctxward.Core.Redact.Splice.{starts_char-append, starts_char-take}

split_once-starts_char :
    (b : ℕ) (s l r : Text)
    → starts_char s ≡ true
    → split_once b s ≡ some (l, r)
    → starts_char l ≡ true
unfolding split_once starts_char
split_once-starts_char b [] l r h e = cc
split_once-starts_char b (c ∷ cs) l r h e = ground arith

first_char-starts_char : (s : Text) → starts_char s ≡ true → starts_char (first_char s) ≡ true
unfolding first_char starts_char
first_char-starts_char [] h = refl
first_char-starts_char (c ∷ cs) h = starts_char-take (char_width c) (c ∷ cs) h

mask_email-starts_char : (s : Text) → starts_char s ≡ true → starts_char (mask_email s) ≡ true
unfolding mask_email starts_char
mask_email-starts_char s h = elim (Option-cases (split_once b'@' s)) [
  | inl e ↦ rw (mask_email, e, starts_char)
  | inr ((l, r), e) ↦
      rw (mask_email, e)
        (starts_char-append (first_char l) (bytes "***@" ++ r)
          (first_char-starts_char l (split_once-starts_char b'@' s l r h e)) refl)
]

mask_phone-starts_char :
    (s r : Text) → starts_char s ≡ true → mask_phone s ≡ ok r → starts_char r ≡ true
unfolding mask_phone starts_char
mask_phone-starts_char s r h e = ground (
  arith,
  starts_char-append (take 3 s) (bytes "****" ++ drop (length s - 4) s),
  starts_char-take 3 s,
)

-- A tokenizer's tokens do not begin inside a char.
abbrev pub TokensStart : Option (Text → Text → Tokenized Text) → Type 0
TokensStart none = Unit
TokensStart (some run) =
    (label value r : Text) → run label value ≡ Tokenize.ok r → starts_char r ≡ true

pub apply_mask-starts_char :
    (sha256_hex : Text → Text) (tokenizer : Option (Text → Text → Tokenized Text)) (s : Text)
    (strategy : MaskingStrategy) (label r : Text)
    → TokensStart tokenizer
    → starts_char s ≡ true
    → apply_mask sha256_hex tokenizer s strategy label ≡ ok r
    → starts_char r ≡ true
unfolding apply_mask starts_char mask_keep_last4
apply_mask-starts_char sha tokenizer s partial_email label r t h e =
    ground (arith, mask_email-starts_char s)
apply_mask-starts_char sha tokenizer s partial_phone label r t h e = mask_phone-starts_char s r h e
apply_mask-starts_char sha none s tokenize label r t h e = cc
apply_mask-starts_char sha (some run) s tokenize label r t h e = ground (arith, t label s r)
apply_mask-starts_char sha tokenizer s keep_last4 label r t h e = ground arith
apply_mask-starts_char sha tokenizer s placeholder label r t h e = ground arith
apply_mask-starts_char sha tokenizer s hash label r t h e = ground arith
apply_mask-starts_char sha tokenizer s full label r t h e = ground arith

-- A phone number of seven ASCII bytes is masked to a text that still shows all seven.
pub mask_phone_shows :
    (s : Text)
    → length s ≡ 7
    → is_char_boundary s 3 ≡ true
    → mask_phone s ≡ ok (take 3 s ++ (bytes "****" ++ drop 3 s))
unfolding mask_phone
mask_phone_shows s size at = rw (mask_phone, size, at)

-- A value of at least seven bytes whose fourth byte continues a char makes the phone mask panic,
-- and one of more than four bytes whose last four begin inside a char makes `keep_last4` panic.
pub mask_panics :
    (s : Text)
    → (7 ≤ length s → is_char_boundary s 3 ≡ false → mask_phone s ≡ panicked)
      × (5 ≤ length s → is_char_boundary s (length s - 4) ≡ false → mask_keep_last4 s ≡ panicked)
unfolding mask_phone mask_keep_last4
mask_panics s =
    (λ h k. rw (mask_phone, k) (ground arith), λ h k. rw (mask_keep_last4, k) (ground arith))
