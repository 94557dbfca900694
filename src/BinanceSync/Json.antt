-- ===== src/BinanceSync/Json.antt =====
-- The decoded answers of the exchange and `_history_rows`.
use portfolio_tracker_public.Prelude.{
  String, List, [], ◌∷◌, Option, none, some, ◌==◌, string_eq, if◌then◌else◌, get_or,
}

mutual
  -- What the json module decodes: None, a text, number or truth value, a list, a dict.
  pub data Json : Type 0 where
    null : Json
    scalar : String → Json
    array : Items → Json
    object : Fields → Json

  pub data Items : Type 0 where
    no_items : Items
    item : Json → Items → Items

  pub data Fields : Type 0 where
    no_fields : Fields
    field : String → Json → Fields → Fields

-- `payload.get(key)`
unfoldable pub get_field : Fields → String → Json
get_field no_fields name = null
get_field (field key value rest) name = if key == name then value else get_field rest name

-- `[row for row in payload if isinstance(row, dict)]`
unfoldable pub dict_rows : Items → List Fields
dict_rows no_items = []
dict_rows (item (object dict) rest) = dict ∷ dict_rows rest
dict_rows (item null rest) = dict_rows rest
dict_rows (item (scalar text) rest) = dict_rows rest
dict_rows (item (array items) rest) = dict_rows rest

-- The rows of the first of the keys that holds a list.
unfoldable pub rows_under : Fields → List String → Option (List Fields)
rows_under dict [] = none
rows_under dict (key ∷ keys) =
    let rest = rows_under dict keys in
    elim (get_field dict key) [
      | array items ↦ some (dict_rows items)
      | null ↦ rest
      | scalar text ↦ rest
      | object inner ↦ rest
    ]

abbrev pub row_keys : List String
row_keys = "rows" ∷ "row" ∷ "list" ∷ "data" ∷ []

unfoldable pub history_rows : Json → List Fields
history_rows null = []
history_rows (scalar text) = []
history_rows (array items) = dict_rows items
history_rows (object dict) = get_or (rows_under dict row_keys) (dict ∷ [])
