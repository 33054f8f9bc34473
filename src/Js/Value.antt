-- ===== src/Js/Value.antt =====
-- The values that the YAML loader and the caller hand over (`any` in the source), with the
-- conversions that the language applies to them. A number is carried by its `String(n)`, which
-- tells all numbers apart but 0 and -0. An object's properties stand in the order of creation.
use pulumi_kubernetes.Common.{String, ◌<>◌, Bool, true, false, not, ◌||◌, ◌==◌, if◌then◌else◌}

mutual
  pub data Value : Type 0 where
    undefined null : Value
    bool : Bool → Value
    number : String → Value
    string : String → Value
    array : Items → Value
    object : Fields → Value

  pub data Items : Type 0 where
    nil : Items
    cons : Value → Items → Items

  pub data Fields : Type 0 where
    end : Fields
    field : String → Value → Fields → Fields

-- `v == null`
abbrev pub is_nullish : Value → Bool
is_nullish undefined = true
is_nullish null = true
is_nullish _ = false

-- Whether a condition or `||` takes the value as true.
abbrev pub truthy : Value → Bool
truthy undefined = false
truthy null = false
truthy (bool b) = b
truthy (number n) = not (n == "0" || n == "NaN")
truthy (string s) = not (s == "")
truthy _ = true

abbrev pub is_undefined : Value → Bool
is_undefined undefined = true
is_undefined _ = false

-- Objects and arrays are passed by reference, so that a callee can change them.
abbrev pub is_reference : Value → Bool
is_reference (array _) = true
is_reference (object _) = true
is_reference _ = false

-- `Object.keys(v).length == 0`, for a value other than `undefined` and `null`: a number and a
-- Boolean have no keys, a string and an array have their indices.
abbrev pub has_no_keys : Value → Bool
has_no_keys (string s) = s == ""
has_no_keys (array nil) = true
has_no_keys (array (cons _ _)) = false
has_no_keys (object end) = true
has_no_keys (object (field _ _ _)) = false
has_no_keys _ = true

-- An own property, `undefined` if there is none.
unfoldable pub property : String → Fields → Value
property k end = undefined
property k (field j v fs) = if j == k then v else property k fs

-- The text of a value in a template literal. An array joins its elements' texts by commas, with
-- the empty text for `undefined` and `null`.
unfoldable mutual
  pub to_text : Value → String
  to_text undefined = "undefined"
  to_text null = "null"
  to_text (bool true) = "true"
  to_text (bool false) = "false"
  to_text (number n) = n
  to_text (string s) = s
  to_text (array xs) = join_items xs
  to_text (object _) = "[object Object]"

  join_items : Items → String
  join_items nil = ""
  join_items (cons v xs) = (if is_nullish v then "" else to_text v) <> join_more xs

  join_more : Items → String
  join_more nil = ""
  join_more (cons v xs) = "," <> ((if is_nullish v then "" else to_text v) <> join_more xs)
