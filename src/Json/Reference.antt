-- ===== src/Json/Reference.antt =====
-- A function that addresses the slots of a value as `Value::pointer_mut` is documented to.
use ctxward.Prelude.{
  ℕ, suc, ◌+◌, ◌≡◌, ◌≢◌, refl, sym, ap, ◌∙◌, Bool, true, false, Bool-cases, inl, inr, Option, none,
  some, [], ◌∷◌, ◌++◌, Text, eqb, eqb_iff, text_eq, text_eq_refl, if◌then◌else◌, arith,
}
use ctxward.Prelude.Ascii.{strip_prefix, strip_prefix-append, Avoids}
use ctxward.Prelude.Decimal.{decimal, decimal_injective, decimal-Avoids}
use ctxward.Json.{
  Value, null, boolean, number, string, array, object, Items, nil, cons, Fields, end, field, Lacks,
  replace_byte, escape_key,
}
use ctxward.Json.Pointers.{append_items, count_items, append_fields, IsPointer, mapped, PointerLaws}

-- What is left of a pointer that is empty or goes on below.
abbrev at_end : Text → Option Text
at_end [] = some []
at_end (c ∷ s) = if eqb c b'/' then some (c ∷ s) else none

abbrev and_then : Option Text → (Text → Option Text) → Option Text
and_then none f = none
and_then (some t) f = f t

-- What is left of a pointer behind its first token, if it is this one.
unfoldable rest_of : Text → Text → Option Text
unfolding strip_prefix
rest_of token pointer = and_then (strip_prefix (b'/' ∷ token) pointer) at_end

abbrev is_some : Option Text → Bool
is_some none = false
is_some (some t) = true

-- A field that the pointer goes through.
unfoldable has_key : Text → Fields → Bool
unfolding rest_of
has_key pointer end = false
has_key pointer (field k v fs) =
    let rest = has_key pointer fs in if is_some (rest_of (escape_key k) pointer) then true else rest

abbrev filled_item {ℓ κ} : {A : Type ℓ} {B : Type κ} → (A → B) → Option A → Option B
filled_item f none = none
filled_item f (some v) = some (f v)

-- The item itself, where the pointer goes through it, or else a later one.
abbrev item_result :
    Value → Items → Option Text → (Text → Option Value) → Option Items → Option Items
item_result v items none inside later = filled_item (cons v) later
item_result v items (some rest) inside later = filled_item (λ w. cons w items) (inside rest)

-- The last field of a key counts.
abbrev field_result :
    Text
    → Value
    → Fields
    → Bool
    → Option Text
    → (Text → Option Value)
    → Option Fields
    → Option Fields
field_result k v fields true rest inside later = filled_item (field k v) later
field_result k v fields false none inside later = none
field_result k v fields false (some rest) inside later =
    filled_item (λ w. field k w fields) (inside rest)

unfoldable mutual
  unfolding rest_of has_key

  pub assign : Text → Text → Value → Option Value
  assign [] text v = some (string text)
  assign (c ∷ s) text null = none
  assign (c ∷ s) text (boolean b) = none
  assign (c ∷ s) text (number n) = none
  assign (c ∷ s) text (string t) = none
  assign (c ∷ s) text (array items) = filled_item array (assign_item (c ∷ s) text 0 items)
  assign (c ∷ s) text (object fields) = filled_item object (assign_field (c ∷ s) text fields)

  pub assign_item : Text → Text → ℕ → Items → Option Items
  assign_item p text index nil = none
  assign_item p text index (cons v items) =
      item_result v items (rest_of (decimal index) p) (λ rest. assign rest text v)
        (assign_item p text (suc index) items)

  pub assign_field : Text → Text → Fields → Option Fields
  assign_field p text end = none
  assign_field p text (field k v fields) =
      field_result k v fields (has_key p fields) (rest_of (escape_key k) p)
        (λ rest. assign rest text v) (assign_field p text fields)

at_end-IsPointer : (rest : Text) → IsPointer rest → at_end rest ≡ some rest
at_end-IsPointer [] h = refl
at_end-IsPointer (c ∷ s) h = rw h refl

rest_of-same : (t rest : Text) → IsPointer rest → rest_of t (b'/' ∷ (t ++ rest)) ≡ some rest
unfolding rest_of
rest_of-same t rest h = rw (strip_prefix-append (b'/' ∷ t) rest) (at_end-IsPointer rest h)

-- A token that is read from a pointer is the one that stands there.
strip_prefix-other :
    (t u rest : Text)
    → Avoids b'/' t
    → Avoids b'/' u
    → t ≢ u
    → IsPointer rest
    → and_then (strip_prefix t (u ++ rest)) at_end ≡ none
unfolding strip_prefix
strip_prefix-other [] [] rest a b n h = absurd (n refl)
strip_prefix-other [] (d ∷ u) rest a b n h = ground (arith, b.0)
strip_prefix-other (c ∷ t) [] [] a b n h = refl
strip_prefix-other (c ∷ t) [] (d ∷ rest) a b n h = ground (arith, a.0)
strip_prefix-other (c ∷ t) (d ∷ u) rest a b n h = elim (Bool-cases (eqb c d)) [
  | inl e ↦ rw e (
      strip_prefix-other t u rest a.1 b.1
        (λ p. n (ap (λ x. x ∷ t) ((eqb_iff c d).0 e) ∙ ap (λ r. d ∷ r) p)) h)
  | inr e ↦ rw e refl
]

rest_of-other :
    (t u rest : Text)
    → Avoids b'/' t
    → Avoids b'/' u
    → t ≢ u
    → IsPointer rest
    → rest_of t (b'/' ∷ (u ++ rest)) ≡ none
unfolding rest_of strip_prefix
rest_of-other t u rest a b n h = strip_prefix-other t u rest a b n h

-- The escape of a key that begins with this byte.
escape_key-cons :
    (c : ℕ) (s : Text)
    → escape_key (c ∷ s) ≡ (
        if eqb c b'~'
        then b'~' ∷ b'0' ∷ escape_key s
        else if eqb c b'/'
        then b'~' ∷ b'1' ∷ escape_key s
        else c ∷ escape_key s)
unfolding escape_key replace_byte
escape_key-cons c s = elim (Bool-cases (eqb c b'~')) [
  | inl e ↦ rw e refl
  | inr e ↦ elim (Bool-cases (eqb c b'/')) [ inl d ↦ rw (e, d) refl | inr d ↦ rw (e, d) refl ]
]

escape_key-Avoids : (k : Text) → Avoids b'/' (escape_key k)
unfolding escape_key replace_byte
escape_key-Avoids [] = tt
escape_key-Avoids (c ∷ s) = ground (arith, escape_key-cons c s, escape_key-Avoids s)

escape_key_nil : (c : ℕ) (s : Text) → escape_key (c ∷ s) ≢ []
escape_key_nil c s h = ground (arith, escape_key-cons c s, h)

escape_key_heads :
    (c d : ℕ) (s t : Text)
    → escape_key (c ∷ s) ≡ escape_key (d ∷ t)
    → (c ≡ d) × (escape_key s ≡ escape_key t)
escape_key_heads c d s t h = ground (arith, escape_key-cons c s, escape_key-cons d t, h)

escape_key_injective : (j k : Text) → escape_key j ≡ escape_key k → j ≡ k
unfolding escape_key replace_byte
escape_key_injective [] [] h = refl
escape_key_injective [] (d ∷ t) h = absurd (escape_key_nil d t (sym h))
escape_key_injective (c ∷ s) [] h = absurd (escape_key_nil c s h)
escape_key_injective (c ∷ s) (d ∷ t) h =
    let r = escape_key_heads c d s t h in
    ap (λ x. x ∷ s) r.0 ∙ ap (λ r. d ∷ r) (escape_key_injective s t r.1)

other_index :
    (i j : ℕ) (rest : Text)
    → i ≢ j
    → IsPointer rest
    → rest_of (decimal i) (b'/' ∷ (decimal j ++ rest)) ≡ none
other_index i j rest n h =
    rest_of-other (decimal i) (decimal j) rest (decimal-Avoids b'/' i (omega arith))
      (decimal-Avoids b'/' j (omega arith)) (λ p. n (decimal_injective i j p)) h

other_key :
    (j k rest : Text)
    → text_eq j k ≡ false
    → IsPointer rest
    → rest_of (escape_key j) (b'/' ∷ (escape_key k ++ rest)) ≡ none
other_key j k rest n h =
    rest_of-other (escape_key j) (escape_key k) rest (escape_key-Avoids j) (escape_key-Avoids k)
      (λ p. cc (ap (λ x. text_eq x k) (escape_key_injective j k p), text_eq_refl k, n)) h

has_key-Lacks :
    (k rest : Text) (fs : Fields)
    → Lacks k fs
    → IsPointer rest
    → has_key (b'/' ∷ (escape_key k ++ rest)) fs ≡ false
unfolding has_key
has_key-Lacks k rest end l h = refl
has_key-Lacks k rest (field j v fs) l h =
    rw (other_key j k rest l.0 h) (has_key-Lacks k rest fs l.1 h)

has_key-append :
    (k rest : Text) (before : Fields) (v : Value) (after : Fields)
    → IsPointer rest
    → has_key (b'/' ∷ (escape_key k ++ rest)) (append_fields before (field k v after)) ≡ true
unfolding has_key
has_key-append k rest end v after h = rw (rest_of-same (escape_key k) rest h) refl
has_key-append k rest (field j w before) v after h =
    elim (Bool-cases (is_some (rest_of (escape_key j) (b'/' ∷ (escape_key k ++ rest))))) [
      | inl e ↦ rw e refl
      | inr e ↦ rw e (has_key-append k rest before v after h)
    ]

mapped_filled {ℓ κ} :
    {A : Type ℓ} {B : Type κ} (f : A → B) (g : Value → A) (o : Option Value)
    → filled_item f (filled_item g o) ≡ filled_item (λ w. f (g w)) o
mapped_filled f g none = refl
mapped_filled f g (some v) = refl

mapped-filled : (f : Value → Value) (o : Option Value) → filled_item f o ≡ mapped f o
mapped-filled f none = refl
mapped-filled f (some v) = refl

zero_left : (n : ℕ) → n ≡ 0 + n
zero_left n = omega arith

assign_item-at :
    (before : Items) (v : Value) (after : Items) (rest text : Text) (index : ℕ)
    → IsPointer rest
    → assign_item
        (b'/' ∷ (decimal (index + count_items before) ++ rest))
        text
        index
        (append_items before (cons v after))
      ≡ filled_item (λ w. append_items before (cons w after)) (assign rest text v)
unfolding assign
assign_item-at nil v after rest text index h =
    let n : index + 0 ≡ index = omega arith in rw (n, rest_of-same (decimal index) rest h) refl
assign_item-at (cons u before) v after rest text index h =
    let n : index + suc (count_items before) ≡ suc index + count_items before = omega arith in
    rw
      (
        n,
        other_index index (suc index + count_items before) rest (λ p. omega (arith, p)) h,
        assign_item-at before v after rest text (suc index) h,
      )
      (mapped_filled (cons u) (λ w. append_items before (cons w after)) (assign rest text v))

assign_field-at :
    (before : Fields) (k : Text) (v : Value) (after : Fields) (rest text : Text)
    → Lacks k after
    → IsPointer rest
    → assign_field (b'/' ∷ (escape_key k ++ rest)) text (append_fields before (field k v after))
      ≡ filled_item (λ w. append_fields before (field k w after)) (assign rest text v)
unfolding assign
assign_field-at end k v after rest text l h =
    rw (has_key-Lacks k rest after l h, rest_of-same (escape_key k) rest h) refl
assign_field-at (field j u before) k v after rest text l h =
    rw (has_key-append k rest before v after h, assign_field-at before k v after rest text l h)
      (mapped_filled (field j u) (λ w. append_fields before (field k w after)) (assign rest text v))

pub assign-PointerLaws : PointerLaws assign
unfolding assign
assign-PointerLaws = record {
  at_root = λ text v. refl;
  at_index = λ before v after rest text h.
      rw (zero_left (count_items before))
        (ap (filled_item array) (assign_item-at before v after rest text 0 h))
      ∙ mapped_filled array (λ w. append_items before (cons w after)) (assign rest text v)
      ∙ mapped-filled (λ w. array (append_items before (cons w after))) (assign rest text v);
  at_key = λ before k v after rest text l h.
      ap (filled_item object) (assign_field-at before k v after rest text l h)
      ∙ mapped_filled object (λ w. append_fields before (field k w after)) (assign rest text v)
      ∙ mapped-filled (λ w. object (append_fields before (field k w after))) (assign rest text v);
}
