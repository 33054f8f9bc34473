-- ===== src/Path/Scan.antt =====
-- What `quoteWindowsPath` computes: the escapes of the first replacement, less those before a
-- backslash, which the second replacement takes back.
use Prim.Native.Char.{Char}
use text.Mathlib.TextLemmas.{nil-append, cons-append}
use pulumi_kubernetes.Common.{
  String, ◌<>◌, ◌≡◌, refl, sym, ◌∙◌, ap, Bool, true, false, not, ◌&&◌, if◌then◌else◌, arith,
  Bool-cases, inl, inr,
}
use pulumi_kubernetes.Path.{
  of_char, is_special, is_letter, is_backslash, is_colon, starts_marked, starts_backslash, Mode,
  between, colon, marked, next_mode, is_marked, escape_from, collapse_from,
}

pub of_char-append : (c : Char) (s : String) → of_char c <> s ≡ String.◌∷◌ c s
of_char-append c s = rw (cons-append, nil-append)

not_backslash_of_colon : (c : Char) → is_colon c ≡ true → is_backslash c ≡ false
unfolding is_colon is_backslash
not_backslash_of_colon c h = ground arith

collapse_plain :
    (c : Char) (s : String)
    → is_backslash c ≡ false
    → collapse_from false (String.◌∷◌ c s) ≡ String.◌∷◌ c (collapse_from false s)
unfolding collapse_from
collapse_plain c s h = rw (h, of_char-append)

slash-append : (s : String) → "\\" <> s ≡ String.◌∷◌ "\\" s
slash-append s = rw (cons-append, nil-append)

is_backslash-slash : is_backslash "\\" ≡ true
unfolding is_backslash
is_backslash-slash = refl

collapse_marked :
    (c : Char) (s : String)
    → collapse_from false ("\\" <> (of_char c <> s))
      ≡ (if is_backslash c then "" else "\\") <> (of_char c <> collapse_from false s)
unfolding collapse_from
collapse_marked c s = elim (Bool-cases (is_backslash c)) [
  | inl same ↦ simp (slash-append, of_char-append, is_backslash-slash, same, nil-append)
  | inr other ↦ simp (slash-append, of_char-append, is_backslash-slash, other, nil-append)
]

collapse_single :
    (c : Char) (s : String)
    → starts_backslash s ≡ false
    → collapse_from false (String.◌∷◌ c s) ≡ String.◌∷◌ c (collapse_from false s)
unfolding collapse_from
collapse_single c s h = elim (Bool-cases (is_backslash c)) [
  | inl same ↦ simp (of_char-append, same, h)
  | inr other ↦ simp (of_char-append, other)
]

is_special_of_backslash : (c : Char) → is_special c ≡ false → is_backslash c ≡ false
unfolding is_special is_backslash
is_special_of_backslash c h = ground arith

-- The text from which the scan goes on inside a match.
abbrev pub Fits : Mode → String → Type 0
Fits colon String.[] = ⊥
Fits colon (String.◌∷◌ c s) = is_colon c ≡ true
Fits _ s = Unit

-- One pass: a backslash before each marked character that is no backslash itself.
unfoldable pub quoted_from : Mode → String → String
quoted_from mode String.[] = ""
quoted_from mode (String.◌∷◌ c s) =
    (if is_marked mode c s && not (is_backslash c) then "\\" else "")
    <> (of_char c <> quoted_from (next_mode mode c s) s)

Fits-starts_marked : (s : String) → starts_marked s ≡ true → Fits colon s
unfolding starts_marked
Fits-starts_marked String.[] h = cc
Fits-starts_marked (String.◌∷◌ c String.[]) h = cc
Fits-starts_marked (String.◌∷◌ c (String.◌∷◌ d s)) h = ground arith

starts_backslash-colon :
    (s : String) → Fits colon s → starts_backslash (escape_from colon s) ≡ false
unfolding escape_from is_marked
starts_backslash-colon String.[] h = absurd h
starts_backslash-colon (String.◌∷◌ c s) h =
    rw (nil-append, of_char-append) (not_backslash_of_colon c h)

flip_mark :
    (b : Bool) (s : String) → (if b then "" else "\\") <> s ≡ (if not b then "\\" else "") <> s
flip_mark true s = refl
flip_mark false s = refl

-- The two replacements together.
pub collapse_from-escape_from :
    (mode : Mode) (s : String)
    → Fits mode s
    → collapse_from false (escape_from mode s) ≡ quoted_from mode s
unfolding escape_from quoted_from is_marked next_mode
collapse_from-escape_from mode String.[] h = unfold collapse_from in refl
collapse_from-escape_from colon (String.◌∷◌ c s) h =
    rw (nil-append, of_char-append, collapse_plain c _ (not_backslash_of_colon c h), nil-append)
      (ap (String.◌∷◌ c) (collapse_from-escape_from marked s tt) ∙ sym (of_char-append c _))
collapse_from-escape_from marked (String.◌∷◌ c s) h =
    rw (collapse_marked, collapse_from-escape_from between s tt) (flip_mark (is_backslash c) _)
collapse_from-escape_from between (String.◌∷◌ c s) h =
    elim (Bool-cases (is_letter c && starts_marked s)) [
      | inl drive ↦ simp (
        drive,
        nil-append,
        of_char-append,
        collapse_single c _ (starts_backslash-colon s (Fits-starts_marked s (ground arith))),
        collapse_from-escape_from colon s (Fits-starts_marked s (ground arith)),
      )
      | inr single ↦ elim (Bool-cases (is_special c)) [
        | inl special ↦
            rw (single, special, collapse_marked, collapse_from-escape_from between s tt)
              (flip_mark (is_backslash c) _)
        | inr plain ↦ simp (
          single,
          plain,
          nil-append,
          of_char-append,
          collapse_plain c _ (is_special_of_backslash c plain),
          collapse_from-escape_from between s tt,
        )
      ]
    ]
