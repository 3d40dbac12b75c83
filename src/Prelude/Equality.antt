-- ===== src/Prelude/Equality.antt =====
-- Equality of keys as an interface, and texts as lists of bytes. A Rust `String` or `&str` is the
-- list of its UTF-8 bytes, so that its offsets are positions in the list.
use Prim.Native.Nat.{ℕ}
use Prim.Native.Char.{code}
use Prim.Native.String.{String}
use mathlib.Core.Path.{◌≡◌, refl}
use mathlib.Core.Logic.{◌↔◌}
use mathlib.Core.Bool.{Bool, true, false, ◌&&◌, ◌||◌}
use mathlib.Core.List.{List, [], ◌∷◌}
use native.Mathlib.Omega.{arith}
use ctxward.Prelude.Tests.{eqb, eqb_iff}

abbrev pub Text : Type 0
Text = List ℕ

-- The bytes of an ASCII literal.
abbrev pub bytes : String → Text
bytes String.[] = []
bytes (String.◌∷◌ c s) = code c ∷ bytes s

unfoldable pub text_eq : Text → Text → Bool
text_eq [] [] = true
text_eq [] (b ∷ t) = false
text_eq (a ∷ s) [] = false
text_eq (a ∷ s) (b ∷ t) = eqb a b && text_eq s t

text_eq→eq : (s t : Text) → text_eq s t ≡ true → s ≡ t
unfolding text_eq
text_eq→eq [] [] h = refl
text_eq→eq [] (b ∷ t) h = cc
text_eq→eq (a ∷ s) [] h = cc
text_eq→eq (a ∷ s) (b ∷ t) h = ground (arith, text_eq→eq s t, eqb_iff a b)

pub text_eq_refl : (s : Text) → text_eq s s ≡ true
unfolding text_eq
text_eq_refl [] = refl
text_eq_refl (a ∷ s) = ground (arith, text_eq_refl s)

pub text_eq_iff : (s t : Text) → (text_eq s t ≡ true) ↔ (s ≡ t)
text_eq_iff s t = (text_eq→eq s t, λ p. rw p (text_eq_refl t))

-- `Eq` and `Hash` of a type of keys: a test for equality that tells the truth.
pub record KeyEq {ℓ} (K : Type ℓ) : Type ℓ where
  pub same : K → K → Bool
  pub same_iff : (j k : K) → (same j k ≡ true) ↔ (j ≡ k)

module _ {ℓ} {K : Type ℓ} ⦃keys : KeyEq K⦄ where
  infix 50 ◌==◌
  abbrev pub ◌==◌ : K → K → Bool
  j == k = keys.same j k

instance abbrev pub eq_text : KeyEq Text
eq_text = record { same = text_eq; same_iff = text_eq_iff }

instance abbrev pub eq_number : KeyEq ℕ
eq_number = record { same = eqb; same_iff = eqb_iff }

pub pair_eq_iff :
    (a b c d : Text) → ((text_eq a c && text_eq b d) ≡ true) ↔ (◌≡◌ {A = Text × Text} (a, b) (c, d))
pair_eq_iff a b c d = ground (arith, text_eq_iff a c, text_eq_iff b d)

instance abbrev pub eq_text_pair : KeyEq (Text × Text)
eq_text_pair = record {
  same = λ p q. text_eq p.0 q.0 && text_eq p.1 q.1;
  same_iff = λ p q. pair_eq_iff p.0 p.1 q.0 q.1;
}

-- `contains` of a set that is kept as a list.
abbrev pub contains {ℓ} : {K : Type ℓ} ⦃keys : KeyEq K⦄ → List K → K → Bool
contains [] k = false
contains (j ∷ set) k = j == k || contains set k
