-- ===== src/Json/Pointers.antt =====
-- What `Value::pointer_mut` is documented to do: RFC 6901 on arrays, and on maps whose keys are
-- unique.
use ctxward.Prelude.{ℕ, suc, ◌≡◌, refl, ap, Option, none, some, [], ◌∷◌, ◌++◌, Text}
use ctxward.Prelude.Decimal.{decimal}
use ctxward.Json.{
  Value, null, boolean, number, string, array, object, Items, nil, cons, Fields, end, field, Lacks,
  escape_key,
}

abbrev pub append_items : Items → Items → Items
append_items nil ys = ys
append_items (cons x xs) ys = cons x (append_items xs ys)

abbrev pub count_items : Items → ℕ
count_items nil = 0
count_items (cons x xs) = suc (count_items xs)

abbrev pub append_fields : Fields → Fields → Fields
append_fields end gs = gs
append_fields (field k v fs) gs = field k v (append_fields fs gs)

-- A pointer is empty or begins with a slash.
abbrev pub IsPointer : Text → Type 0
IsPointer [] = Unit
IsPointer (c ∷ s) = c ≡ b'/'

abbrev pub mapped : (Value → Value) → Option Value → Option Value
mapped f none = none
mapped f (some v) = some (f v)

-- `assign pointer text value` is the value with the text in the slot of `pointer_mut`, if it has one.
pub record PointerLaws (assign : Text → Text → Value → Option Value) : Type 0 where
  pub at_root : (text : Text) (v : Value) → assign [] text v ≡ some (string text)
  pub at_index :
      (before : Items) (v : Value) (after : Items) (rest text : Text)
      → IsPointer rest
      → assign
          (b'/' ∷ (decimal (count_items before) ++ rest))
          text
          (array (append_items before (cons v after)))
        ≡ mapped (λ w. array (append_items before (cons w after))) (assign rest text v)
  pub at_key :
      (before : Fields) (k : Text) (v : Value) (after : Fields) (rest text : Text)
      → Lacks k after
      → IsPointer rest
      → assign
          (b'/' ∷ (escape_key k ++ rest))
          text
          (object (append_fields before (field k v after)))
        ≡ mapped (λ w. object (append_fields before (field k w after))) (assign rest text v)

abbrev mutual
  -- The keys of every map inside are unique.
  pub HasUniqueKeys : Value → Type 0
  HasUniqueKeys null = Unit
  HasUniqueKeys (boolean b) = Unit
  HasUniqueKeys (number n) = Unit
  HasUniqueKeys (string text) = Unit
  HasUniqueKeys (array items) = AllUnique items
  HasUniqueKeys (object fields) = FieldsUnique fields

  pub AllUnique : Items → Type 0
  AllUnique nil = Unit
  AllUnique (cons v items) = HasUniqueKeys v × AllUnique items

  pub FieldsUnique : Fields → Type 0
  FieldsUnique end = Unit
  FieldsUnique (field k v fields) = Lacks k fields × HasUniqueKeys v × FieldsUnique fields

pub append_items-snoc :
    (xs : Items) (v : Value) (ys : Items)
    → append_items (append_items xs (cons v nil)) ys ≡ append_items xs (cons v ys)
append_items-snoc nil v ys = refl
append_items-snoc (cons x xs) v ys = ap (λ r. cons x r) (append_items-snoc xs v ys)

pub count_items-snoc :
    (xs : Items) (v : Value) → count_items (append_items xs (cons v nil)) ≡ suc (count_items xs)
count_items-snoc nil v = refl
count_items-snoc (cons x xs) v = ap suc (count_items-snoc xs v)

pub append_fields-snoc :
    (fs : Fields) (k : Text) (v : Value) (gs : Fields)
    → append_fields (append_fields fs (field k v end)) gs ≡ append_fields fs (field k v gs)
append_fields-snoc end k v gs = refl
append_fields-snoc (field j w fs) k v gs = ap (λ r. field j w r) (append_fields-snoc fs k v gs)
