-- ===== src/Js/Json.antt =====
-- `JSON.stringify(value, undefined, "  ")` on the values of the model.
use Prim.Native.Char.{code}
use pulumi_kubernetes.Common.{
  ℕ, ◌-◌, String, ◌<>◌, true, false, ◌||◌, Option, none, some, ◌==◌, if◌then◌else◌, ltb, eqb, List,
  [], ◌∷◌, join, text_at,
}
use pulumi_kubernetes.Js.Value.{
  Value, undefined, null, bool, number, string, array, object, Items, nil, cons, Fields, end, field,
}

abbrev hex_digits : List String
hex_digits =
    "0" ∷ "1" ∷ "2" ∷ "3" ∷ "4" ∷ "5" ∷ "6" ∷ "7" ∷ "8" ∷ "9" ∷ "a" ∷ "b" ∷ "c" ∷ "d" ∷ "e" ∷ "f"
    ∷ []

-- The named escapes, `\u00..` for the other control characters, and the character itself.
escape_code : ℕ → String → String
escape_code n plain =
    if eqb n 34
    then "\\\""
    else if eqb n 92
    then "\\\\"
    else if eqb n 8
    then "\\b"
    else if eqb n 12
    then "\\f"
    else if eqb n 10
    then "\\n"
    else if eqb n 13
    then "\\r"
    else if eqb n 9
    then "\\t"
    else if ltb n 16
    then "\\u000" <> text_at hex_digits n
    else if ltb n 32
    then "\\u001" <> text_at hex_digits (n - 16)
    else plain

escape_text : String → String
unfolding escape_code
escape_text String.[] = ""
escape_text (String.◌∷◌ c s) = escape_code (code c) (String.◌∷◌ c String.[]) <> escape_text s

unfoldable pub quote_text : String → String
unfolding escape_text
quote_text s = "\"" <> (escape_text s <> "\"")

-- A number that is not finite is written `null`.
abbrev number_text : String → String
number_text n = if n == "NaN" || n == "Infinity" || n == "-Infinity" then "null" else n

-- The parts of an array or an object between its brackets, each on a line of its own.
unfoldable pub enclose : String → String → String → List String → String
unfolding join
enclose opening closing indent [] = opening <> closing
enclose opening closing indent (part ∷ parts) =
    opening
    <> ("\n"
        <> (indent
            <> ("  "
                <> (join (",\n" <> (indent <> "  ")) (part ∷ parts)
                    <> ("\n" <> (indent <> closing))))))

abbrev element_text : Option String → String
element_text none = "null"
element_text (some s) = s

abbrev add_property : String → Option String → List String → List String
add_property k none parts = parts
add_property k (some s) parts = (quote_text k <> (": " <> s)) ∷ parts

-- `none` stands for `undefined`: such a property is left out, such an array element is `null`.
unfoldable mutual
  unfolding quote_text enclose

  pub serialize : Value → String → Option String
  serialize undefined indent = none
  serialize null indent = some "null"
  serialize (bool true) indent = some "true"
  serialize (bool false) indent = some "false"
  serialize (number n) indent = some (number_text n)
  serialize (string s) indent = some (quote_text s)
  serialize (array xs) indent = some (enclose "[" "]" indent (serialize_items xs (indent <> "  ")))
  serialize (object fs) indent =
      some (enclose "{" "}" indent (serialize_fields fs (indent <> "  ")))

  serialize_items : Items → String → List String
  serialize_items nil indent = []
  serialize_items (cons v xs) indent = element_text (serialize v indent) ∷ serialize_items xs indent

  serialize_fields : Fields → String → List String
  serialize_fields end indent = []
  serialize_fields (field k v fs) indent =
      add_property k (serialize v indent) (serialize_fields fs indent)

-- The text of a value other than `undefined`.
unfoldable pub stringify : Value → String
unfolding serialize
stringify v = element_text (serialize v "")
