-- ===== src/Prelude/Search.antt =====
-- What a search for a sequence of bytes has found.
use Prim.Native.Nat.{ℕ, suc, ◌+◌, ◌≤◌}
use mathlib.Core.Path.{◌≡◌, refl, sym, ap, ◌∙◌}
use mathlib.Core.Logic.{inl, inr}
use mathlib.Core.Bool.{true, false, ◌&&◌}
use mathlib.Core.Option.{Option, none, some}
use mathlib.Core.List.{List, [], ◌∷◌, ◌++◌}
use native.Mathlib.Omega.{arith}
use ctxward.Prelude.Tests.{eqb, eqb_iff, Bool-cases}
use ctxward.Prelude.Lists.{length, take, drop, append_assoc, length-append}
use ctxward.Prelude.Equality.{Text}
use ctxward.Prelude.Ascii.{starts_with}
use ctxward.Prelude.Split.{find_subslice, shifted}

pub drop-append {ℓ} : {A : Type ℓ} (p t : List A) → drop (length p) (p ++ t) ≡ t
drop-append [] t = refl
drop-append (a ∷ p) t = drop-append p t

pub take-append {ℓ} : {A : Type ℓ} (p t : List A) → take (length p) (p ++ t) ≡ p
take-append [] t = refl
take-append (a ∷ p) t = ap (λ r. a ∷ r) (take-append p t)

pub starts_with-append : (p t : Text) → starts_with p (p ++ t) ≡ true
unfolding starts_with
starts_with-append [] t = refl
starts_with-append (a ∷ p) t = ground (arith, starts_with-append p t)

-- Only the bytes under the prefix count.
starts_with-long : (p t r : Text) → length p ≤ length t → starts_with p (t ++ r) ≡ starts_with p t
unfolding starts_with
starts_with-long [] t r h = refl
starts_with-long (a ∷ p) [] r h = absurd (omega arith)
starts_with-long (a ∷ p) (b ∷ t) r h =
    ap (λ x. eqb a b && x) (starts_with-long p t r (omega (arith, h)))

starts_with-split : (p s : Text) → starts_with p s ≡ true → s ≡ p ++ drop (length p) s
unfolding starts_with
starts_with-split [] s h = refl
starts_with-split (a ∷ p) [] h = cc
starts_with-split (a ∷ p) (b ∷ s) h = ground (arith, starts_with-split p s, eqb_iff a b)

find-hit :
    (needle : Text) (c : ℕ) (s : Text)
    → starts_with needle (c ∷ s) ≡ true
    → find_subslice needle (c ∷ s) ≡ some 0
unfolding find_subslice
find-hit needle c s h = rw h refl

find-miss :
    (needle : Text) (c : ℕ) (s : Text)
    → starts_with needle (c ∷ s) ≡ false
    → find_subslice needle (c ∷ s) ≡ shifted (find_subslice needle s)
unfolding find_subslice
find-miss needle c s h = rw h refl

pub find_nil : (needle : Text) → find_subslice needle [] ≡ none
unfolding find_subslice
find_nil needle = refl

some_injective : {i j : ℕ} → ◌≡◌ {A = Option ℕ} (some i) (some j) → i ≡ j
some_injective h = cc

-- The needle begins at no place of the text, also where the needle follows the text.
abbrev pub Free : Text → Text → Type 0
Free needle [] = Unit
Free needle (c ∷ s) = (starts_with needle (c ∷ (s ++ needle)) ≡ false) × Free needle s

not_here :
    (needle : Text) (c : ℕ) (s rest : Text)
    → starts_with needle (c ∷ (s ++ (needle ++ rest))) ≡ starts_with needle (c ∷ (s ++ needle))
not_here needle c s rest =
    ap (λ t. starts_with needle (c ∷ t)) (sym (append_assoc s needle rest))
    ∙ starts_with-long needle (c ∷ (s ++ needle)) rest (omega (arith, length-append s needle))

-- The needle, if it is not empty, is found behind such a text, whatever comes after it.
pub find_subslice-Free :
    (a : ℕ) (needle s rest : Text)
    → Free (a ∷ needle) s
    → find_subslice (a ∷ needle) (s ++ ((a ∷ needle) ++ rest)) ≡ some (length s)
find_subslice-Free a needle [] rest f =
    find-hit (a ∷ needle) a (needle ++ rest) (starts_with-append (a ∷ needle) rest)
find_subslice-Free a needle (c ∷ s) rest f =
    find-miss (a ∷ needle) c (s ++ ((a ∷ needle) ++ rest)) (not_here (a ∷ needle) c s rest ∙ f.0)
    ∙ ap shifted (find_subslice-Free a needle s rest f.1)

shifted-some : (o : Option ℕ) (i : ℕ) → shifted o ≡ some i → (j : ℕ) × (o ≡ some j) × (i ≡ suc j)
shifted-some none i h = cc
shifted-some (some j) i h = (j, refl, cc)

FoundAt : Text → Text → ℕ → Type 0
FoundAt needle s i =
    Free needle (take i s) × (s ≡ take i s ++ (needle ++ drop (i + length needle) s))

found_later :
    (needle : Text) (c : ℕ) (s : Text) (j : ℕ)
    → starts_with needle (c ∷ s) ≡ false
    → FoundAt needle s j
    → FoundAt needle (c ∷ s) (suc j)
unfolding FoundAt
found_later needle c s j miss (f, e) =
    let n : suc j + length needle ≡ suc (j + length needle) = omega arith in
    (
      (
        sym (not_here needle c (take j s) (drop (j + length needle) s))
            ∙ ap (λ t. starts_with needle (c ∷ t)) (sym e)
            ∙ miss,
        f,
      ),
      rw n (ap (λ t. c ∷ t) e),
    )

-- What a search has found: such a text, the needle, and the rest.
pub find_subslice-some :
    (needle s : Text) (i : ℕ)
    → find_subslice needle s ≡ some i
    → Free needle (take i s) × (s ≡ take i s ++ (needle ++ drop (i + length needle) s))
unfolding FoundAt
find_subslice-some needle [] i h = cc (find_nil needle)
find_subslice-some needle (c ∷ s) i h = elim (Bool-cases (starts_with needle (c ∷ s))) [
  | inl e ↦
      let z : i ≡ 0 = some_injective (sym h ∙ find-hit needle c s e) in
      let n : 0 + length needle ≡ length needle = omega arith in
      rw (z, n) (tt, starts_with-split needle (c ∷ s) e)
  | inr e ↦
      let r = shifted-some (find_subslice needle s) i (sym (find-miss needle c s e) ∙ h) in
      rw r.2 (found_later needle c s r.0 e (find_subslice-some needle s r.0 r.1))
]
