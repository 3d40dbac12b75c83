-- ===== src/Prelude/Decimal.antt =====
-- `format!("{n}")` of a `usize`: its decimal digits.
use Prim.Native.Nat.{ℕ, zero, suc, ◌+◌, ◌-◌, ◌*◌, ◌/◌, ◌%◌, ◌<◌}
use mathlib.Core.Path.{◌≡◌, refl, sym, ap, ◌∙◌}
use mathlib.Core.Logic.{inl, inr}
use mathlib.Core.List.{[], ◌∷◌, ◌++◌}
use native.Mathlib.Omega.{arith}
use ctxward.Prelude.Tests.{ltb, ltb_false→le, Bool-cases, if◌then◌else◌}
use ctxward.Prelude.Equality.{Text}
use ctxward.Prelude.Ascii.{Avoids, Avoids-append}

-- The number is shorter by a digit in each round, so a fuel above it is enough.
pub digits : ℕ → ℕ → Text
digits zero n = []
digits (suc fuel) n =
    let front = digits fuel (n / 10) in
    if ltb n 10 then (48 + n) ∷ [] else front ++ (48 + n % 10) ∷ []

unfoldable pub decimal : ℕ → Text
unfolding digits
decimal n = digits (suc n) n

-- The number that digits stand for, after the ones read so far.
value : ℕ → Text → ℕ
value acc [] = acc
value acc (c ∷ s) = value (acc * 10 + (c - 48)) s

value-append : (acc : ℕ) (s t : Text) → value acc (s ++ t) ≡ value (value acc s) t
unfolding value
value-append acc [] t = refl
value-append acc (c ∷ s) t = value-append (acc * 10 + (c - 48)) s t

value-digits : (fuel n : ℕ) → n < fuel → value 0 (digits fuel n) ≡ n
unfolding digits value
value-digits zero n h = absurd (omega arith)
value-digits (suc fuel) n h = elim (Bool-cases (ltb n 10)) [
  | inl small ↦ rw small (omega arith)
  | inr large ↦
      rw
        (
          large,
          value-append 0 (digits fuel (n / 10)) ((48 + n % 10) ∷ []),
          value-digits fuel (n / 10) (omega (arith, ltb_false→le n 10 large)),
        )
        (omega arith)
]

-- Different numbers have different digits.
pub decimal_injective : (m n : ℕ) → decimal m ≡ decimal n → m ≡ n
unfolding decimal
decimal_injective m n e =
    sym (value-digits (suc m) m (omega arith))
    ∙ ap (value 0) e
    ∙ value-digits (suc n) n (omega arith)

digits-Avoids : (b fuel n : ℕ) → b < 48 → Avoids b (digits fuel n)
unfolding digits
digits-Avoids b zero n h = tt
digits-Avoids b (suc fuel) n h = elim (Bool-cases (ltb n 10)) [
  | inl small ↦ rw small (ground arith)
  | inr large ↦ rw large (
      Avoids-append b (digits fuel (n / 10)) ((48 + n % 10) ∷ []) (digits-Avoids b fuel (n / 10) h)
        (ground arith))
]

-- No digit is a byte before the digits.
pub decimal-Avoids : (b n : ℕ) → b < 48 → Avoids b (decimal n)
unfolding decimal
decimal-Avoids b n h = digits-Avoids b (suc n) n h
