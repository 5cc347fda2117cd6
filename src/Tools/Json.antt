-- ===== src/Tools/Json.antt =====
-- The JSON values that the agents' state and the tools' arguments hold, with Python's truth of a value.
use agentic_learning_platfor.Base.{
  ℕ, zero, suc, String, Bool, true, false, none, some, List, [], ◌∷◌, str_eq, Assoc, get,
  if◌then◌else◌,
}

mutual
  pub data Json : Type 0 where
    null : Json
    bool : Bool → Json
    number : ℕ → Json
    text : String → Json
    array : Items → Json
    object : Fields → Json

  pub data Items : Type 0 where
    nil : Items
    item : Json → Items → Items

  pub data Fields : Type 0 where
    end : Fields
    field : String → Json → Fields → Fields

-- bool(value)
abbrev pub is_true : Json → Bool
is_true null = false
is_true (bool b) = b
is_true (number zero) = false
is_true (number (suc n)) = true
is_true (text String.[]) = false
is_true (text (String.◌∷◌ c s)) = true
is_true (array nil) = false
is_true (array (item x xs)) = true
is_true (object end) = false
is_true (object (field k x fs)) = true

-- d.get(key, default)
abbrev pub get_or : Json → String → Assoc Json → Json
get_or default key d = elim (get key d) [ none ↦ default | some v ↦ v ]

-- d.get(key) or default
abbrev pub get_true : Json → String → Assoc Json → Json
get_true default key d = if is_true (get_or null key d) then get_or null key d else default

-- The value of a key of a JSON object; null where there is none, and for what is no object.
abbrev pub lookup : String → Fields → Json
lookup key end = null
lookup key (field k v fields) = if str_eq k key then v else lookup key fields

abbrev pub field_of : String → Json → Json
field_of key (object fields) = lookup key fields
field_of key _ = null

-- str(value), where the value is text
abbrev pub text_of : Json → String
text_of (text s) = s
text_of _ = ""

-- str(d.get(key) or default), for a key that holds text or nothing
abbrev pub text_field : String → String → Json → String
text_field default key d = if is_true (field_of key d) then text_of (field_of key d) else default

abbrev pub item_texts : Items → List String
item_texts nil = []
item_texts (item v items) = text_of v ∷ item_texts items

-- The entries of a JSON array that are text.
abbrev pub texts : Json → List String
texts (array items) = item_texts items
texts _ = []
