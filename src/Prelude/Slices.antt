-- ===== src/Prelude/Slices.antt =====
-- `take` and `drop` of what was put together from a beginning of a list and something else.
use Prim.Native.Nat.{ℕ, zero, suc, ◌-◌, ◌≤◌}
use mathlib.Core.Path.{◌≡◌, refl, ap}
use mathlib.Core.List.{List, [], ◌∷◌, ◌++◌}
use native.Mathlib.Omega.{arith}
use ctxward.Prelude.Lists.{length, take, drop}

pub take-nil {ℓ} : {A : Type ℓ} (n : ℕ) → take {A = A} n [] ≡ []
take-nil zero = refl
take-nil (suc n) = refl

pub drop-nil {ℓ} : {A : Type ℓ} (n : ℕ) → drop {A = A} n [] ≡ []
drop-nil zero = refl
drop-nil (suc n) = refl

module _ {ℓ} {A : Type ℓ} where
  pub take-take-append :
      (i j : ℕ) (s x : List A) → i ≤ j → j ≤ length s → take i (take j s ++ x) ≡ take i s
  take-take-append zero j s x h k = refl
  take-take-append (suc i) zero s x h k = absurd (omega arith)
  take-take-append (suc i) (suc j) [] x h k = absurd (omega arith)
  take-take-append (suc i) (suc j) (c ∷ s) x h k =
      ap (λ r. c ∷ r) (take-take-append i j s x (omega arith) (omega arith))

  pub drop-take-append : (j : ℕ) (s x : List A) → j ≤ length s → drop j (take j s ++ x) ≡ x
  drop-take-append zero s x k = refl
  drop-take-append (suc j) [] x k = absurd (omega arith)
  drop-take-append (suc j) (c ∷ s) x k = drop-take-append j s x (omega arith)

  pub take-split : (i j : ℕ) (s : List A) → i ≤ j → take i s ++ take (j - i) (drop i s) ≡ take j s
  take-split zero j s h = ap (λ n. take n s) (omega arith)
  take-split (suc i) zero s h = absurd (omega arith)
  take-split (suc i) (suc j) [] h = take-nil (suc j - suc i)
  take-split (suc i) (suc j) (c ∷ s) h =
      ap (λ r. c ∷ r)
        (rw (let e : suc j - suc i ≡ j - i = omega arith in e) (take-split i j s (omega arith)))

  pub drop-drop : (i j : ℕ) (s : List A) → i ≤ j → drop (j - i) (drop i s) ≡ drop j s
  drop-drop zero j s h = ap (λ n. drop n s) (omega arith)
  drop-drop (suc i) zero s h = absurd (omega arith)
  drop-drop (suc i) (suc j) [] h = drop-nil (suc j - suc i)
  drop-drop (suc i) (suc j) (c ∷ s) h =
      rw (let e : suc j - suc i ≡ j - i = omega arith in e) (drop-drop i j s (omega arith))

  pub drop-short : (n : ℕ) (s : List A) → length s ≤ n → drop n s ≡ []
  drop-short zero [] h = refl
  drop-short zero (c ∷ s) h = absurd (omega arith)
  drop-short (suc n) [] h = refl
  drop-short (suc n) (c ∷ s) h = drop-short n s (omega arith)
