-- ===== src/Path.antt =====
-- pack/nodejs/path.ts. The two regular expressions are read as scans from left to right.
pub mod Scan
pub mod Quoting
use Prim.Native.Char.{Char, code}
use pulumi_kubernetes.Common.{
  ℕ, String, ◌<>◌, Bool, true, false, ◌&&◌, ◌||◌, ◌==◌, if◌then◌else◌, List, [], ◌∷◌, eqb, leb,
}

-- A text of one character. The characters matched are all ASCII, so that it makes no difference
-- that the engine matches UTF-16 units.
abbrev pub of_char : Char → String
of_char c = String.◌∷◌ c String.[]

abbrev contains_code : List ℕ → ℕ → Bool
contains_code [] n = false
contains_code (k ∷ ks) n = eqb k n || contains_code ks n

abbrev special_codes : List ℕ
special_codes =
    b'#' ∷ b'!' ∷ 34 ∷ b'$' ∷ b'&' ∷ 39 ∷ b'(' ∷ b')' ∷ b'*' ∷ b',' ∷ b':' ∷ b';' ∷ b'<' ∷ b'='
    ∷ b'>' ∷ b'?' ∷ b'@' ∷ b'[' ∷ 92 ∷ b']' ∷ b'^' ∷ b'`' ∷ b'{' ∷ b'|' ∷ b'}' ∷ []

-- [#!"$&'()*,:;<=>?@\[\\\]^`{|}]
unfoldable pub is_special : Char → Bool
is_special c = contains_code special_codes (code c)

-- [A-z], which holds the six characters between `Z` and `a` too.
unfoldable pub is_letter : Char → Bool
is_letter c = leb b'A' (code c) && leb (code c) b'z'

unfoldable pub is_backslash : Char → Bool
is_backslash c = eqb (code c) 92

unfoldable pub is_colon : Char → Bool
is_colon c = eqb (code c) b':'

-- Whether a text begins with `:` and a special character.
unfoldable pub starts_marked : String → Bool
starts_marked String.[] = false
starts_marked (String.◌∷◌ c String.[]) = false
starts_marked (String.◌∷◌ c (String.◌∷◌ d s)) = is_colon c && is_special d

-- Where the first expression's scan stands: between matches, or inside a match of the drive
-- `([A-z]:)`, before its colon or before the special character.
pub data Mode : Type 0 where
  between colon marked : Mode

unfoldable pub next_mode : Mode → Char → String → Mode
unfolding starts_marked
next_mode between c s = if is_letter c && starts_marked s then colon else between
next_mode colon c s = marked
next_mode marked c s = between

-- Whether the replacement `$1\$2` puts a backslash before the character.
unfoldable pub is_marked : Mode → Char → String → Bool
unfolding starts_marked
is_marked between c s = if is_letter c && starts_marked s then false else is_special c
is_marked colon c s = false
is_marked marked c s = true

-- `.replace(/([A-z]:)?([#!"$&'()*,:;<=>?@\[\\\]^`{|}])/g, "$1\\$2")`
unfoldable pub escape_from : Mode → String → String
unfolding is_marked next_mode
escape_from mode String.[] = ""
escape_from mode (String.◌∷◌ c s) =
    (if is_marked mode c s then "\\" else "") <> (of_char c <> escape_from (next_mode mode c s) s)

abbrev pub starts_backslash : String → Bool
starts_backslash String.[] = false
starts_backslash (String.◌∷◌ c s) = is_backslash c

-- `.replace(/\\\\/g, "\\")`: of two backslashes the first is dropped, and the scan goes on behind
-- the second. `inside` tells that the next character is that second one.
unfoldable pub collapse_from : Bool → String → String
collapse_from inside String.[] = ""
collapse_from true (String.◌∷◌ c s) = String.◌∷◌ c (collapse_from false s)
collapse_from false (String.◌∷◌ c s) =
    let pair = is_backslash c && starts_backslash s in
    (if pair then "" else of_char c) <> collapse_from pair s

unfoldable pub quote_windows_path : String → String
unfolding escape_from collapse_from is_backslash
quote_windows_path path = collapse_from false (escape_from between path)

-- `quotePath`, over `process.platform` and shell-quote's `quote`.
unfoldable pub quote_path : String → (List String → String) → String → String
unfolding quote_windows_path
quote_path platform quote path =
    if platform == "win32" then quote_windows_path path else quote (path ∷ [])
