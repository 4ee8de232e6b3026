-- ===== src/Platform/Codec.antt =====
-- What the agent takes from Go's JSON, float and formatting libraries.
use serving_agent.Common.{ℕ, String, List, Option, Result, ok, err}
use serving_agent.Platform.Values.{Json, Fields, end, field, GoMap, nil_map, made, insert_field}

-- `sprint` is `%v` and `%s` of a value, `fixed` is `%f`, and floats are bit patterns. `seconds` is
-- `%f` of the time between two instants.
pub record Format : Type 0 where
  pub sprint : Json → String
  pub parse_float : String → Option ℕ
  pub fixed : Json → String
  pub float_div : ℕ → ℕ → ℕ
  pub seconds : ℕ → ℕ → String

-- `json.Marshal` of a value, and `json.Unmarshal` into an `interface{}`, into an empty map and into
-- a list of maps; `number` is a Go `int` as a JSON value.
pub record JsonCodec : Type 0 where
  pub write : Json → Result String
  pub parse : String → Result Json
  pub parse_map : String → Result GoMap
  pub parse_maps : String → Result (List GoMap)
  pub number : ℕ → Json

merge_fields : Fields → Fields → Fields
unfolding insert_field
merge_fields old end = old
merge_fields old (field k v new) = merge_fields (insert_field k v old) new

-- `json.Unmarshal` into a map that holds entries already: it keeps those that the text does not
-- name, and `null` makes the map nil.
merge_maps : GoMap → GoMap → GoMap
merge_maps old nil_map = nil_map
merge_maps nil_map (made new) = made new
merge_maps (made old) (made new) = made (merge_fields old new)

unfoldable pub parse_into : JsonCodec → GoMap → String → Result GoMap
unfolding merge_fields merge_maps
parse_into codec old bytes = elim (codec.parse_map bytes) [
  | err e ↦ err e
  | ok new ↦ ok (merge_maps old new)
]
