-- ===== src/Prelude/Ascii.antt =====
-- The text functions of Rust's standard library that the gateway uses, on bytes. Case is changed
-- and white space is trimmed for ASCII, which labels, hosts, hashes and header names are.
use Prim.Native.Nat.{ℕ, ◌+◌, ◌-◌}
use mathlib.Core.Path.{◌≡◌, refl}
use mathlib.Core.Logic.{◌≢◌}
use mathlib.Core.Bool.{Bool, true, false, ◌&&◌, ◌||◌}
use mathlib.Core.Option.{Option, none, some}
use mathlib.Core.List.{[], ◌∷◌, ◌++◌, map}
use native.Mathlib.Omega.{arith}
use ctxward.Prelude.Tests.{leb, eqb, if◌then◌else◌}
use ctxward.Prelude.Equality.{Text}

unfoldable pub is_digit : ℕ → Bool
is_digit c = leb 48 c && leb c 57

unfoldable pub is_upper : ℕ → Bool
is_upper c = leb 65 c && leb c 90

unfoldable pub is_lower : ℕ → Bool
is_lower c = leb 97 c && leb c 122

unfoldable pub upper_byte : ℕ → ℕ
unfolding is_lower
upper_byte c = if is_lower c then c - 32 else c

unfoldable pub lower_byte : ℕ → ℕ
unfolding is_upper
lower_byte c = if is_upper c then c + 32 else c

abbrev pub to_uppercase : Text → Text
to_uppercase = map upper_byte

abbrev pub to_lowercase : Text → Text
to_lowercase = map lower_byte

-- `str::trim`
pub is_space : ℕ → Bool
is_space c = eqb c 32 || (leb 9 c && leb c 13)

unfoldable pub trim_start : Text → Text
unfolding is_space
trim_start [] = []
trim_start (c ∷ cs) = let rest = trim_start cs in if is_space c then rest else c ∷ cs

unfoldable pub trim_end : Text → Text
unfolding is_space
trim_end [] = []
trim_end (c ∷ cs) = elim (trim_end cs) [
  | [] ↦ if is_space c then [] else c ∷ []
  | d ∷ ds ↦ c ∷ d ∷ ds
]

unfoldable pub trim : Text → Text
unfolding trim_start trim_end
trim s = trim_end (trim_start s)

-- `str::strip_prefix` and `str::starts_with`
unfoldable pub strip_prefix : Text → Text → Option Text
strip_prefix [] s = some s
strip_prefix (p ∷ ps) [] = none
strip_prefix (p ∷ ps) (c ∷ cs) = if eqb p c then strip_prefix ps cs else none

unfoldable pub starts_with : Text → Text → Bool
starts_with [] s = true
starts_with (b ∷ p) [] = false
starts_with (b ∷ p) (c ∷ s) = eqb b c && starts_with p s

-- `str::contains`, for a text
unfoldable pub contains_text : Text → Text → Bool
unfolding starts_with
contains_text needle [] = starts_with needle []
contains_text needle (c ∷ s) = starts_with needle (c ∷ s) || contains_text needle s

-- `str::strip_suffix` by one byte
pub strip_last : ℕ → Text → Option Text
strip_last b [] = none
strip_last b (c ∷ cs) = elim cs [
  | [] ↦ if eqb c b then some [] else none
  | d ∷ ds ↦ elim (strip_last b cs) [ none ↦ none | some r ↦ some (c ∷ r) ]
]

-- `str::split_once` at one byte
unfoldable pub split_once : ℕ → Text → Option (Text × Text)
split_once b [] = none
split_once b (c ∷ cs) =
    let rest : Option (Text × Text) = elim (split_once b cs) [
      | none ↦ none
      | some (l, r) ↦ some (c ∷ l, r)
    ] in
    if eqb c b then some ([], cs) else rest

-- `b` does not occur in the text.
abbrev pub Avoids : ℕ → Text → Type 0
Avoids b [] = Unit
Avoids b (c ∷ cs) = (c ≢ b) × Avoids b cs

pub split_once-append : (b : ℕ) (l r : Text) → Avoids b l → split_once b (l ++ b ∷ r) ≡ some (l, r)
unfolding split_once
split_once-append b [] r a = ground arith
split_once-append b (c ∷ cs) r a = ground (arith, split_once-append b cs r)

pub strip_last-append : (b : ℕ) (s : Text) → strip_last b (s ++ b ∷ []) ≡ some s
unfolding strip_last
strip_last-append b [] = ground arith
strip_last-append b (c ∷ []) = ground arith
strip_last-append b (c ∷ d ∷ s) = ground (arith, strip_last-append b (d ∷ s))

pub Avoids-append : (b : ℕ) (s t : Text) → Avoids b s → Avoids b t → Avoids b (s ++ t)
Avoids-append b [] t a c = c
Avoids-append b (x ∷ s) t a c = (a.0, Avoids-append b s t a.1 c)

pub strip_prefix-append : (p s : Text) → strip_prefix p (p ++ s) ≡ some s
unfolding strip_prefix
strip_prefix-append [] s = refl
strip_prefix-append (c ∷ p) s = ground (arith, strip_prefix-append p s)
