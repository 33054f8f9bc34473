-- ===== src/Yaml/Object/Names.antt =====
-- What the texts that `parseYamlObject` compares and stores by tell: the type's text its two
-- parts, and the qualified name the namespace and the name.
use text.Mathlib.TextLemmas.{nil-append, cons-append, tail-eq_of_cons-eq, cons-eq-cons}
use mathlib.Core.Path.{ap₂}
use pulumi_kubernetes.Common.{
  String, ◌<>◌, ◌≡◌, refl, sym, ap, ◌∙◌, true, false, if◌then◌else◌, arith, ◌==◌, eq_iff, some,
  Bool-cases, inl, inr,
}
use pulumi_kubernetes.Js.Value.{string, to_text}
use pulumi_kubernetes.Yaml.Case.{Case}
use pulumi_kubernetes.Yaml.Switch.{switch_cases}
use pulumi_kubernetes.Yaml.Object.{find_case, qualified_id}
use pulumi_kubernetes.Yaml.Dispatch.{has_slash, find_case-IsCoherent, api_version_of, kind_of}

slash-append : (s : String) → "/" <> s ≡ String.◌∷◌ "/" s
slash-append s = rw (cons-append, nil-append)

has_slash-append : (s t : String) → has_slash (s <> String.◌∷◌ "/" t) ≡ true
has_slash-append String.[] t = rw nil-append
has_slash-append (String.◌∷◌ c s) t = rw cons-append (ground (arith, has_slash-append s t))

-- Where two texts end in a slash and a part without one, the parts are the same.
last_slash_lem :
    (x y s t : String)
    → has_slash s ≡ false
    → has_slash t ≡ false
    → x <> String.◌∷◌ "/" s ≡ y <> String.◌∷◌ "/" t
    → (x ≡ y) × (s ≡ t)
last_slash_lem String.[] String.[] s t p q e = (refl, tail-eq_of_cons-eq (simp nil-append at e))
last_slash_lem String.[] (String.◌∷◌ d y) s t p q e =
    let h : s ≡ y <> String.◌∷◌ "/" t = tail-eq_of_cons-eq (simp (nil-append, cons-append) at e) in
    cc (ap has_slash h, has_slash-append y t)
last_slash_lem (String.◌∷◌ c x) String.[] s t p q e =
    let h : t ≡ x <> String.◌∷◌ "/" s =
      tail-eq_of_cons-eq (sym (simp (nil-append, cons-append) at e)) in
    cc (ap has_slash h, has_slash-append x s)
last_slash_lem (String.◌∷◌ c x) (String.◌∷◌ d y) s t p q e =
    let (same, more) = cons-eq-cons.0 (simp cons-append at e) in
    let (heads, tails) = last_slash_lem x y s t p q more in (ap₂ String.◌∷◌ same heads, tails)

last_slash_unique :
    (x y s t : String)
    → has_slash s ≡ false
    → has_slash t ≡ false
    → x <> ("/" <> s) ≡ y <> ("/" <> t)
    → (x ≡ y) × (s ≡ t)
last_slash_unique x y s t p q e = last_slash_lem x y s t p q (simp slash-append at e)

-- An object whose kind is a text without a slash gets a class of its own API version and kind: no
-- other pair has the same type text.
pub find_case_exact :
    (v k : String) (c : Case)
    → has_slash k ≡ false
    → find_case (v <> ("/" <> k)) switch_cases ≡ some c
    → (api_version_of c.made ≡ v) × (kind_of c.made ≡ k)
find_case_exact v k c plain found =
    let (same, fits) = find_case-IsCoherent (v <> ("/" <> k)) c found in
    last_slash_unique (api_version_of c.made) v (kind_of c.made) k fits.plain_kind plain
      (sym fits.label ∙ same)

qualified_id-string :
    (name space : String)
    → to_text (qualified_id (string name) (string space))
      ≡ (if space == "" then name else space <> ("/" <> name))
unfolding qualified_id to_text
qualified_id-string name space = ground arith

not_behind_slash :
    (name space name' : String) → has_slash name ≡ false → name ≡ space <> ("/" <> name') → ⊥
not_behind_slash name space name' p e = cc (
  ap has_slash e,
  has_slash-append space name',
  ap (λ t. has_slash (space <> t)) (slash-append name'),
)

-- Qualified names are equal only if the namespaces and the names are, where the names hold no slash:
-- an empty namespace counts as none.
pub qualified_id_injective :
    (name name' space space' : String)
    → has_slash name ≡ false
    → has_slash name' ≡ false
    → to_text (qualified_id (string name) (string space))
      ≡ to_text (qualified_id (string name') (string space'))
    → (space ≡ space') × (name ≡ name')
qualified_id_injective name name' space space' p p' e =
    let h : (if space == "" then name else space <> ("/" <> name))
        ≡ (if space' == "" then name' else space' <> ("/" <> name')) =
      sym (qualified_id-string name space) ∙ e ∙ qualified_id-string name' space' in
    elim (Bool-cases (space == "")) [
      | inl bare ↦ elim (Bool-cases (space' == "")) [
        | inl bare' ↦ ((eq_iff _ _).0 bare ∙ sym ((eq_iff _ _).0 bare'), rw (bare, bare') at h)
        | inr given' ↦ absurd (not_behind_slash name space' name' p (rw (bare, given') at h))
      ]
      | inr given ↦ elim (Bool-cases (space' == "")) [
        | inl bare' ↦ absurd (not_behind_slash name' space name p' (sym (rw (given, bare') at h)))
        | inr given' ↦ last_slash_unique space space' name name' p p' (rw (given, given') at h)
      ]
    ]
