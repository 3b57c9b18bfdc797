-- ===== src/ImageBudget/Trees.antt =====
-- JSON trees without a repeated key, for src/inbound/v1/responses/image_budget.rs.
use prelay_server.Base.{◌≡◌, refl, ◌⊎◌, inl, inr, some, List, [], ◌∷◌, false}
use prelay_server.Text.{Bytes, text_eq}
use prelay_server.Values.{
  Value, null, bool, number, string, array, object, Items, empty_array, item, Fields, empty_object,
  field,
}
use prelay_server.ImageBudget.{ImageSlot, is_text}

-- No field has the key.
abbrev pub Absent : Bytes → Fields → Type 0
Absent k empty_object = Unit
Absent k (field j value fields) = (text_eq k j ≡ false) × Absent k fields

-- No object in the value has a key twice, as is so in the maps of the JSON library.
unfoldable mutual
  pub UniqueKeys : Value → Type 0
  UniqueKeys (object fields) = UniqueFields fields
  UniqueKeys (array items) = UniqueItems items
  UniqueKeys null = Unit
  UniqueKeys (bool b) = Unit
  UniqueKeys (number n) = Unit
  UniqueKeys (string s) = Unit

  pub UniqueItems : Items → Type 0
  UniqueItems empty_array = Unit
  UniqueItems (item value items) = UniqueKeys value × UniqueItems items

  pub UniqueFields : Fields → Type 0
  UniqueFields empty_object = Unit
  UniqueFields (field k value fields) = Absent k fields × UniqueKeys value × UniqueFields fields

abbrev pub IsTree : Value → Type 0
IsTree (object fields) = Unit
IsTree (array items) = Unit
IsTree null = ⊥
IsTree (bool b) = ⊥
IsTree (number n) = ⊥
IsTree (string s) = ⊥

pub is_text-tree : (value : Value) (text : Bytes) → IsTree value → is_text (some value) text ≡ false
is_text-tree (object fields) text h = refl
is_text-tree (array items) text h = refl
is_text-tree null text h = elim h [ ]
is_text-tree (bool b) text h = elim h [ ]
is_text-tree (number n) text h = elim h [ ]
is_text-tree (string s) text h = elim h [ ]

pub Slots-cases :
    (found : List ImageSlot)
    → (found ≡ []) ⊎ ((slot : ImageSlot) × (rest : List ImageSlot) × (found ≡ slot ∷ rest))
Slots-cases [] = inl refl
Slots-cases (slot ∷ rest) = inr (slot, rest, refl)

abbrev pub head_or : ImageSlot → List ImageSlot → ImageSlot
head_or slot [] = slot
head_or slot (first ∷ found) = first

abbrev pub tail : List ImageSlot → List ImageSlot
tail [] = []
tail (first ∷ found) = found
