-- ===== src/Json/Reading.antt =====
-- The fields of a dictionary that `json.loads` has returned.
use hands_free_auto_lab_port.Prelude.{
  String, List, [], ◌∷◌, Result, ok, err, raised, key_error, str_eq, if◌then◌else◌,
}
use hands_free_auto_lab_port.Json.Print.{Json, Fields, end, field}

-- `frozenset(value)`
unfoldable pub field_names : Fields → List String
field_names end = []
field_names (field key value fs) = key ∷ field_names fs

-- `value[key]`
unfoldable pub get_field : String → Fields → Result Json
get_field k end = err (raised key_error k "")
get_field k (field key value fs) = if str_eq k key then ok value else get_field k fs
