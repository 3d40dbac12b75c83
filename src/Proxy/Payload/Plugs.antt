-- ===== src/Proxy/Payload/Plugs.antt =====
-- A value in which a pointer's slot is a slot of a part, at the rest of the pointer.
use ctxward.Prelude.{
  ◌≡◌, refl, sym, ap, ◌∙◌, Option, some, none, [], ◌∷◌, ◌++◌, append_nil, append_assoc, Text,
}
use ctxward.Prelude.Decimal.{decimal}
use ctxward.Json.{
  Value, string, array, object, Items, cons, Fields, field, Lacks, escape_key, at_token,
}
use ctxward.Json.Pointers.{append_items, count_items, append_fields, IsPointer, mapped, PointerLaws}

mapped_id : (o : Option Value) → mapped (λ v. v) o ≡ o
mapped_id none = refl
mapped_id (some v) = refl

mapped-mapped :
    (f g : Value → Value) (o : Option Value) → mapped f (mapped g o) ≡ mapped (λ v. f (g v)) o
mapped-mapped f g none = refl
mapped-mapped f g (some v) = refl

module _ (assign : Text → Text → Value → Option Value) where
  -- The pointers below `base` are those of the value that is plugged in.
  pub Plugs : Text → (Value → Value) → Type 0
  Plugs base plug =
      (rest text : Text) (v : Value)
      → IsPointer rest
      → assign (base ++ rest) text (plug v) ≡ mapped plug (assign rest text v)

  pub Plugs-all : Plugs [] (λ v. v)
  unfolding Plugs
  Plugs-all rest text v h = sym (mapped_id (assign rest text v))

module _ (assign : Text → Text → Value → Option Value) (laws : PointerLaws assign) where
  pub Plugs-item :
      (base : Text) (plug : Value → Value) (before after : Items)
      → Plugs assign base plug
      → Plugs assign
          (at_token base (decimal (count_items before)))
          (λ v. plug (array (append_items before (cons v after))))
  unfolding Plugs
  Plugs-item base plug before after p rest text v h =
      ap (λ q. assign q text (plug (array (append_items before (cons v after)))))
        (append_assoc base (b'/' ∷ decimal (count_items before)) rest)
      ∙ p (b'/' ∷ (decimal (count_items before) ++ rest)) text
          (array (append_items before (cons v after))) refl
      ∙ ap (mapped plug) (laws.at_index before v after rest text h)
      ∙ mapped-mapped plug (λ w. array (append_items before (cons w after))) (assign rest text v)

  pub Plugs-field :
      (base : Text) (plug : Value → Value) (before : Fields) (key : Text) (after : Fields)
      → Lacks key after
      → Plugs assign base plug
      → Plugs assign
          (at_token base (escape_key key))
          (λ v. plug (object (append_fields before (field key v after))))
  unfolding Plugs
  Plugs-field base plug before key after l p rest text v h =
      ap (λ q. assign q text (plug (object (append_fields before (field key v after)))))
        (append_assoc base (b'/' ∷ escape_key key) rest)
      ∙ p (b'/' ∷ (escape_key key ++ rest)) text (object (append_fields before (field key v after)))
          refl
      ∙ ap (mapped plug) (laws.at_key before key v after rest text l h)
      ∙ mapped-mapped plug (λ w. object (append_fields before (field key w after)))
          (assign rest text v)

  pub Plugs-here :
      (base : Text) (plug : Value → Value) (text : Text) (v : Value)
      → Plugs assign base plug
      → assign base text (plug v) ≡ some (plug (string text))
  unfolding Plugs
  Plugs-here base plug text v p =
      ap (λ q. assign q text (plug v)) (sym (append_nil base))
      ∙ p [] text v tt
      ∙ ap (mapped plug) (laws.at_root text v)
