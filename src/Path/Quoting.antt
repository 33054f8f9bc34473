-- ===== src/Path/Quoting.antt =====
-- What `quoteWindowsPath` makes of a path, with and without a drive.
use Prim.Native.Char.{Char}
use text.Mathlib.TextLemmas.{nil-append}
use pulumi_kubernetes.Common.{
  String, ◌<>◌, ◌≡◌, refl, ◌∙◌, ap, true, false, not, ◌&&◌, ◌||◌, if◌then◌else◌, arith,
}
use pulumi_kubernetes.Path.{
  of_char, is_special, is_letter, is_backslash, is_colon, starts_marked, between, next_mode,
  is_marked, quote_windows_path,
}
use pulumi_kubernetes.Path.Scan.{quoted_from, collapse_from-escape_from, of_char-append}

-- A backslash before each special character that is no backslash itself.
abbrev pub quoted : String → String
quoted String.[] = ""
quoted (String.◌∷◌ c s) =
    (if is_special c && not (is_backslash c) then "\\" else "") <> (of_char c <> quoted s)

abbrev pub NoColon : String → Type 0
NoColon String.[] = Unit
NoColon (String.◌∷◌ c s) = (is_colon c ≡ false) × NoColon s

-- No special character but backslashes.
abbrev pub IsPlain : String → Type 0
IsPlain String.[] = Unit
IsPlain (String.◌∷◌ c s) = ((not (is_special c) || is_backslash c) ≡ true) × IsPlain s

starts_marked-NoColon : (s : String) → NoColon s → starts_marked s ≡ false
unfolding starts_marked
starts_marked-NoColon String.[] h = refl
starts_marked-NoColon (String.◌∷◌ c String.[]) h = refl
starts_marked-NoColon (String.◌∷◌ c (String.◌∷◌ d s)) (h, _) = rw h

-- No character of `[A-z]` that a colon and a special character follow.
abbrev pub NoDrive : String → Type 0
NoDrive String.[] = Unit
NoDrive (String.◌∷◌ c s) = ((is_letter c && starts_marked s) ≡ false) × NoDrive s

quoted_from-NoDrive : (s : String) → NoDrive s → quoted_from between s ≡ quoted s
unfolding quoted_from is_marked next_mode
quoted_from-NoDrive String.[] h = refl
quoted_from-NoDrive (String.◌∷◌ c s) (e, h) = simp (e, quoted_from-NoDrive s h)

NoColon-NoDrive : (s : String) → NoColon s → NoDrive s
NoColon-NoDrive String.[] h = tt
NoColon-NoDrive (String.◌∷◌ c s) (_, h) =
    let unmarked = starts_marked-NoColon s h in (ground arith, NoColon-NoDrive s h)

quoted_from-NoColon : (s : String) → NoColon s → quoted_from between s ≡ quoted s
quoted_from-NoColon s h = quoted_from-NoDrive s (NoColon-NoDrive s h)

NoColon-IsPlain : (s : String) → IsPlain s → NoColon s
NoColon-IsPlain String.[] h = tt
NoColon-IsPlain (String.◌∷◌ c s) (p, h) = (plain-not_colon c p, NoColon-IsPlain s h)
  where
    plain-not_colon :
        (c : Char) → (not (is_special c) || is_backslash c) ≡ true → is_colon c ≡ false
    plain-not_colon c p = unfold is_special is_backslash is_colon in ground arith

quoted-IsPlain : (s : String) → IsPlain s → quoted s ≡ s
quoted-IsPlain String.[] h = refl
quoted-IsPlain (String.◌∷◌ c s) (p, h) =
    simp (plain-unmarked c p, nil-append, of_char-append, quoted-IsPlain s h)
  where
    plain-unmarked :
        (c : Char)
        → (not (is_special c) || is_backslash c) ≡ true
        → (is_special c && not (is_backslash c)) ≡ false
    plain-unmarked c p = ground arith

pub quote_windows_path-NoColon : (s : String) → NoColon s → quote_windows_path s ≡ quoted s
unfolding quote_windows_path
quote_windows_path-NoColon s h = collapse_from-escape_from between s tt ∙ quoted_from-NoColon s h

-- A path in which no character of `[A-z]` is followed by a colon and a special character gets a
-- backslash before each special character, its colons included, but for the backslashes, which stay
-- as they are.
pub quote_windows_path-NoDrive : (s : String) → NoDrive s → quote_windows_path s ≡ quoted s
unfolding quote_windows_path
quote_windows_path-NoDrive s h = collapse_from-escape_from between s tt ∙ quoted_from-NoDrive s h

-- A drive, a letter and a colon before a special character, is kept as it is before a path
-- without colons, and the rest is quoted like any path without colons.
pub quote_windows_path_drive :
    (a c d : Char) (s : String)
    → is_letter a ≡ true
    → is_colon c ≡ true
    → is_special d ≡ true
    → NoColon s
    → quote_windows_path (String.◌∷◌ a (String.◌∷◌ c (String.◌∷◌ d s)))
      ≡ String.◌∷◌ a (String.◌∷◌ c (quoted (String.◌∷◌ d s)))
unfolding quote_windows_path quoted_from is_marked next_mode starts_marked
quote_windows_path_drive a c d s letter is_drive special h =
    collapse_from-escape_from between (String.◌∷◌ a (String.◌∷◌ c (String.◌∷◌ d s))) tt
    ∙ simp (letter, is_drive, special, nil-append, of_char-append, quoted_from-NoColon s h)

-- Quoting changes nothing in a path whose special characters are all backslashes, whether the path
-- stands alone or behind a letter, a colon and a backslash.
pub quote_windows_path_identity :
    (a : Char) (s : String)
    → is_letter a ≡ true
    → IsPlain s
    → (quote_windows_path s ≡ s)
      × (quote_windows_path (String.◌∷◌ a (String.◌∷◌ ":" (String.◌∷◌ "\\" s)))
          ≡ String.◌∷◌ a (String.◌∷◌ ":" (String.◌∷◌ "\\" s)))
unfolding is_colon is_special is_backslash
quote_windows_path_identity a s letter h = (
  quote_windows_path-NoColon s (NoColon-IsPlain s h) ∙ quoted-IsPlain s h,
  quote_windows_path_drive a ":" "\\" s letter refl refl (NoColon-IsPlain s h)
      ∙ ap (λ t. String.◌∷◌ a (String.◌∷◌ ":" t)) (quoted-IsPlain (String.◌∷◌ "\\" s) (refl, h)),
)
