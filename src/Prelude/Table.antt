-- ===== src/Prelude/Table.antt =====
-- `HashMap<K, V>` as a list of entries. Its iteration order, which Rust leaves open, is the list's.
use ctxward.Prelude.Tests.{Bool-cases, if◌then◌else◌}
use mathlib.Core.Path.{subst₂}
use mathlib.Core.Logic.{inl, inr}
use ctxward.Prelude.Equality.{KeyEq, ◌==◌}
use ctxward.Prelude.Lists.{length, All}
use Prim.Native.Nat.{suc, ◌≤◌}
use mathlib.Core.Path.{◌≡◌, refl}
use mathlib.Core.Bool.{Bool, true, false}
use mathlib.Core.Option.{Option, none, some}
use mathlib.Core.List.{List, [], ◌∷◌}
use native.Mathlib.Omega.{arith}

abbrev pub Table {ℓ κ} : Type ℓ → Type κ → Type (ℓ ⊔ κ)
Table K V = List (K × V)

module _ {ℓ κ} {K : Type ℓ} {V : Type κ} ⦃e : KeyEq K⦄ where
  unfoldable pub get : K → Table K V → Option V
  get k [] = none
  get k ((j, v) ∷ t) = if j == k then some v else get k t

  unfoldable pub remove : K → Table K V → Table K V
  remove k [] = []
  remove k ((j, v) ∷ t) = let rest = remove k t in if j == k then rest else (j, v) ∷ rest

  unfoldable pub insert : K → V → Table K V → Table K V
  unfolding remove
  insert k v t = (k, v) ∷ remove k t

  -- `HashMap::retain`
  unfoldable pub retain : (K → V → Bool) → Table K V → Table K V
  retain p [] = []
  retain p ((j, v) ∷ t) = let rest = retain p t in if p j v then (j, v) ∷ rest else rest

  -- No key has two entries.
  abbrev pub IsUnique : Table K V → Type κ
  IsUnique [] = Unit
  IsUnique ((j, v) ∷ t) = (get j t ≡ none) × IsUnique t

  pub get-remove :
      (k j : K) (t : Table K V) → get j (remove k t) ≡ (if k == j then none else get j t)
  unfolding get remove
  get-remove k j [] = ground arith
  get-remove k j ((i, v) ∷ t) =
      ground (arith, get-remove k j t, e.same_iff i k, e.same_iff i j, e.same_iff k j)

  pub get-insert :
      (k j : K) (v : V) (t : Table K V)
      → get j (insert k v t) ≡ (if k == j then some v else get j t)
  unfolding get insert
  get-insert k j v t = ground (arith, get-remove k j t)

  pub remove-IsUnique : (k : K) (t : Table K V) → IsUnique t → IsUnique (remove k t)
  unfolding remove
  remove-IsUnique k [] u = tt
  remove-IsUnique k ((i, v) ∷ t) u =
      ground (arith, remove-IsUnique k t, get-remove k i t, e.same_iff i k)

  pub insert-IsUnique : (k : K) (v : V) (t : Table K V) → IsUnique t → IsUnique (insert k v t)
  unfolding insert
  insert-IsUnique k v t u = ground (arith, remove-IsUnique k t, get-remove k k t, e.same_iff k k)

  pub length-remove-le : (k : K) (t : Table K V) → length (remove k t) ≤ length t
  unfolding remove
  length-remove-le k [] = omega arith
  length-remove-le k ((i, v) ∷ t) = ground (arith, length-remove-le k t)

  -- A removal of a key that is there makes the table shorter.
  pub length-remove-lt :
      (k : K) (t : Table K V) (v : V) → get k t ≡ some v → suc (length (remove k t)) ≤ length t
  unfolding remove get
  length-remove-lt k [] v h = cc
  length-remove-lt k ((i, w) ∷ t) v h = ground (arith, length-remove-lt k t v, length-remove-le k t)

  pub length-retain-le : (p : K → V → Bool) (t : Table K V) → length (retain p t) ≤ length t
  unfolding retain
  length-retain-le p [] = omega arith
  length-retain-le p ((i, w) ∷ t) = ground (arith, length-retain-le p t)

  get-retain-none :
      (p : K → V → Bool) (k : K) (t : Table K V) → get k t ≡ none → get k (retain p t) ≡ none
  unfolding get retain
  get-retain-none p k [] h = refl
  get-retain-none p k ((i, w) ∷ t) h = ground (arith, get-retain-none p k t)

  pub retain-IsUnique : (p : K → V → Bool) (t : Table K V) → IsUnique t → IsUnique (retain p t)
  unfolding retain
  retain-IsUnique p [] u = tt
  retain-IsUnique p ((i, w) ∷ t) u = ground (arith, retain-IsUnique p t, get-retain-none p i t)

  -- What `retain` leaves under a key: the entry, if it passes the test.
  pub get-retain :
      (p : K → V → Bool) (k : K) (t : Table K V)
      → IsUnique t
      → get k (retain p t)
        ≡ elim (get k t) [ none ↦ none | some v ↦ if p k v then some v else none ]
  unfolding get retain
  get-retain p k [] u = refl
  get-retain p k ((i, w) ∷ t) u =
      ground (arith, get-retain p k t, get-retain-none p k t, e.same_iff i k)

module _ {ℓ κ} {K : Type ℓ} {V : Type κ} ⦃e : KeyEq K⦄ where
  -- A `retain` after an insertion keeps the new entry if it passes the test, and no older one.
  pub get-retain-insert :
      (p : K → V → Bool) (k : K) (v : V) (t : Table K V)
      → get k (retain p (insert k v t)) ≡ (if p k v then some v else none)
  unfolding get retain insert
  get-retain-insert p k v t =
      ground (arith, get-retain-none p k (remove k t), get-remove k k t, e.same_iff k k)

-- A first `retain` is lost in a second one that keeps no more.
pub retain-retain {ℓ κ} :
    {K : Type ℓ} {V : Type κ} ⦃e : KeyEq K⦄ (p q : K → V → Bool) (t : Table K V)
    → ((k : K) (v : V) → q k v ≡ true → p k v ≡ true)
    → retain q (retain p t) ≡ retain q t
unfolding retain
retain-retain p q [] f = refl
retain-retain p q ((i, w) ∷ t) f = ground (arith, retain-retain p q t f, f i w)

module _ {ℓ κ} {K : Type ℓ} {V : Type κ} ⦃e : KeyEq K⦄ where
  pub retain-remove :
      (p : K → V → Bool) (k : K) (t : Table K V) → retain p (remove k t) ≡ remove k (retain p t)
  unfolding retain remove
  retain-remove p k [] = refl
  retain-remove p k ((i, w) ∷ t) = ground (arith, retain-remove p k t)

  -- An insertion may come before or after the entries that fail the test go.
  pub retain-insert-retain :
      (p : K → V → Bool) (k : K) (v : V) (t : Table K V)
      → retain p (insert k v (retain p t)) ≡ retain p (insert k v t)
  unfolding insert retain
  retain-insert-retain p k v t =
      ground (
        arith,
        retain-remove p k t,
        retain-remove p k (retain p t),
        retain-retain p p t (λ i w h. h),
      )

module _ {ℓ κ μ} {K : Type ℓ} {V : Type κ} ⦃e : KeyEq K⦄ (P : K × V → Type μ) where
  pub All-remove : (k : K) (t : Table K V) → All P t → All P (remove k t)
  unfolding remove
  All-remove k [] h = tt
  All-remove k ((i, w) ∷ t) h = elim (Bool-cases (i == k)) [
    | inl e ↦ rw e (All-remove k t h.1)
    | inr e ↦ rw e (h.0, All-remove k t h.1)
  ]

  pub All-insert : (k : K) (v : V) (t : Table K V) → P (k, v) → All P t → All P (insert k v t)
  unfolding insert
  All-insert k v t p h = (p, All-remove k t h)

  pub All-retain : (q : K → V → Bool) (t : Table K V) → All P t → All P (retain q t)
  unfolding retain
  All-retain q [] h = tt
  All-retain q ((i, w) ∷ t) h = elim (Bool-cases (q i w)) [
    | inl e ↦ rw e (h.0, All-retain q t h.1)
    | inr e ↦ rw e (All-retain q t h.1)
  ]

  pub All-get : (k : K) (t : Table K V) (v : V) → All P t → get k t ≡ some v → P (k, v)
  unfolding get
  All-get k [] v h found = cc
  All-get k ((i, w) ∷ t) v h found = elim (Bool-cases (i == k)) [
    | inl same ↦
        let key : i ≡ k = (e.same_iff i k).0 same in
        let val : w ≡ v = ground arith in subst₂ (λ a b. P (a, b)) key val h.0
    | inr other ↦ All-get k t v h.1 (rw other at found)
  ]

-- What holds of every entry with another key holds of every entry after a removal.
pub All-remove-other {ℓ κ μ ν} :
    {K : Type ℓ} {V : Type κ} ⦃e : KeyEq K⦄ (P : K × V → Type μ) (Q : K × V → Type ν) (k : K)
    (t : Table K V)
    → ((j : K) (v : V) → P (j, v) → (j == k) ≡ false → Q (j, v))
    → All P t
    → All Q (remove k t)
unfolding remove
All-remove-other P Q k [] f h = tt
All-remove-other P Q k ((i, w) ∷ t) f h = elim (Bool-cases (i == k)) [
  | inl e ↦ rw e (All-remove-other P Q k t f h.1)
  | inr e ↦ rw e (f i w h.0 e, All-remove-other P Q k t f h.1)
]
