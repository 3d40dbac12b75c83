-- ===== src/Json.antt =====
-- `serde_json::Value`, and src/proxy.rs: the strings of a value with their JSON pointers.
pub mod Pointers
pub mod Reference
use ctxward.Prelude.{
  ℕ, suc, ◌+◌, Bool, List, [], ◌∷◌, ◌++◌, Text, bytes, eqb, text_eq, ◌≡◌, false, if◌then◌else◌,
}
use ctxward.Prelude.Decimal.{decimal}

-- A number that fits `u64`, or any other as it is written.
pub data Number : Type 0 where
  unsigned : ℕ → Number
  other_number : Text → Number

mutual
  pub data Value : Type 0 where
    null : Value
    boolean : Bool → Value
    number : Number → Value
    string : Text → Value
    array : Items → Value
    object : Fields → Value

  pub data Items : Type 0 where
    nil : Items
    cons : Value → Items → Items

  -- The entries of a map, in the order of its iteration.
  pub data Fields : Type 0 where
    end : Fields
    field : Text → Value → Fields → Fields

-- No two entries of a map have one key.
abbrev pub Lacks : Text → Fields → Type 0
Lacks k end = Unit
Lacks k (field j v fs) = (text_eq j k ≡ false) × Lacks k fs

-- `str::replace` of one byte
pub replace_byte : ℕ → Text → Text → Text
replace_byte b with [] = []
replace_byte b with (c ∷ s) =
    let rest = replace_byte b with s in if eqb c b then with ++ rest else c ∷ rest

-- `key.replace('~', "~0").replace('/', "~1")`
unfoldable pub escape_key : Text → Text
unfolding replace_byte
escape_key key = replace_byte b'/' (bytes "~1") (replace_byte b'~' (bytes "~0") key)

-- `format!("{pointer}/{token}")`
abbrev pub at_token : Text → Text → Text
at_token pointer token = pointer ++ b'/' ∷ token

unfoldable mutual
  -- `collect_string_nodes`
  pub collect_string_nodes : Value → Text → List (Text × Text)
  collect_string_nodes null pointer = []
  collect_string_nodes (boolean b) pointer = []
  collect_string_nodes (number n) pointer = []
  collect_string_nodes (string text) pointer = (pointer, text) ∷ []
  collect_string_nodes (array items) pointer = collect_items items pointer 0
  collect_string_nodes (object fields) pointer = collect_fields fields pointer

  pub collect_items : Items → Text → ℕ → List (Text × Text)
  collect_items nil pointer index = []
  collect_items (cons item items) pointer index =
      collect_string_nodes item (at_token pointer (decimal index))
      ++ collect_items items pointer (suc index)

  pub collect_fields : Fields → Text → List (Text × Text)
  collect_fields end pointer = []
  collect_fields (field key item fields) pointer =
      collect_string_nodes item (at_token pointer (escape_key key)) ++ collect_fields fields pointer
