-- ===== src/Core/Json.antt =====
-- `String(value)` and `JSON.stringify(value)` of the language, for JSON values.
mod Tests
use Prim.Native.Char.{Char, code}
use Prim.Native.String
use nestai.Prelude.{
  ℕ, ◌/◌, ◌%◌, ◌-◌, Bool, true, false, String, Option, none, some, ltb, ◌==◌, str_eq, if◌then◌else◌,
}
use nestai.Contracts.Entities.{
  JsonValue, JsonArray, JsonRecord, text, number, boolean, null, array, object, nil, cons, empty,
  entry,
}
use nestai.Core.Text.{◌+++◌, hex_digit}

abbrev of_bool : Bool → String
of_bool true = "true"
of_bool false = "false"

-- An array is shown by its elements with commas between them, a null element by the empty text.
abbrev mutual
  pub shown : JsonValue → String
  shown (text s) = s
  shown (number s) = s
  shown (boolean b) = of_bool b
  shown null = "null"
  shown (array nil) = ""
  shown (array (cons x xs)) = shown_element x +++ shown_rest xs
  shown (object fields) = "[object Object]"

  shown_element : JsonValue → String
  shown_element null = ""
  shown_element (text s) = s
  shown_element (number s) = s
  shown_element (boolean b) = of_bool b
  shown_element (array nil) = ""
  shown_element (array (cons x xs)) = shown_element x +++ shown_rest xs
  shown_element (object fields) = "[object Object]"

  shown_rest : JsonArray → String
  shown_rest nil = ""
  shown_rest (cons x xs) = "," +++ shown_element x +++ shown_rest xs

abbrev escape_code : ℕ → String → String
escape_code c other =
    if c == 34
    then "\\\""
    else if c == 92
    then "\\\\"
    else if c == 8
    then "\\b"
    else if c == 9
    then "\\t"
    else if c == 10
    then "\\n"
    else if c == 12
    then "\\f"
    else if c == 13
    then "\\r"
    else if ltb c 32
    then "\\u00" +++ hex_digit (c / 16) +++ hex_digit (c % 16)
    else other

abbrev escape : String → String
escape String.[] = ""
escape (String.◌∷◌ c s) = escape_code (code c) (String.◌∷◌ c "") +++ escape s

abbrev pub quoted : String → String
quoted s = "\"" +++ escape s +++ "\""

abbrev mutual
  pub stringify : JsonValue → String
  stringify (text s) = quoted s
  stringify (number s) = s
  stringify (boolean b) = of_bool b
  stringify null = "null"
  stringify (array nil) = "[]"
  stringify (array (cons x xs)) = "[" +++ stringify x +++ stringify_rest xs
  stringify (object empty) = "{}"
  stringify (object (entry key value fields)) =
      "{" +++ quoted key +++ ":" +++ stringify value +++ stringify_fields fields

  stringify_rest : JsonArray → String
  stringify_rest nil = "]"
  stringify_rest (cons x xs) = "," +++ stringify x +++ stringify_rest xs

  stringify_fields : JsonRecord → String
  stringify_fields empty = "}"
  stringify_fields (entry key value fields) =
      "," +++ quoted key +++ ":" +++ stringify value +++ stringify_fields fields

-- `record[key]`, for a record with no two entries of one key.
abbrev pub field : String → JsonRecord → Option JsonValue
field key empty = none
field key (entry k value fields) = if str_eq k key then some value else field key fields
