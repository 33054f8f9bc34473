-- ===== src/Types/Plain.antt =====
-- pack/nodejs/types/output.ts against pack/nodejs/types/input.ts.
use pulumi_kubernetes.Common.{
  String, ◌≡◌, refl, sym, ap, ◌∙◌, Bool, true, false, ◌&&◌, ◌==◌, eq_iff, Option, none, some,
  Option-cases, inl, inr, List, [], ◌∷◌, all, arith, Bool-cases,
}
use pulumi_kubernetes.Types.Shape.{
  Shape, text, number, boolean, any_object, number_or_text, list, dict, ref, input, Field,
  Interface, Namespaces,
}
use pulumi_kubernetes.Types.Find.{find_named, find_interface, find_field, find_field-all}
use pulumi_kubernetes.Types.Input.{input_types}
use pulumi_kubernetes.Types.Output.{output_types}

-- A type without `pulumi.Input<…>`.
abbrev pub plain : Shape → Shape
plain (input s) = plain s
plain (list s) = list (plain s)
plain (dict s) = dict (plain s)
plain s = s

unfoldable eq_shape : Shape → Shape → Bool
eq_shape text text = true
eq_shape number number = true
eq_shape boolean boolean = true
eq_shape any_object any_object = true
eq_shape number_or_text number_or_text = true
eq_shape (list s) (list t) = eq_shape s t
eq_shape (dict s) (dict t) = eq_shape s t
eq_shape (ref m s) (ref n t) = m == n && s == t
eq_shape (input s) (input t) = eq_shape s t
eq_shape _ _ = false

eq_shape_sound : (s t : Shape) → eq_shape s t ≡ true → s ≡ t
unfolding eq_shape
eq_shape_sound text text h = refl
eq_shape_sound number number h = refl
eq_shape_sound boolean boolean h = refl
eq_shape_sound any_object any_object h = refl
eq_shape_sound number_or_text number_or_text h = refl
eq_shape_sound (list s) (list t) h = ap list (eq_shape_sound s t h)
eq_shape_sound (dict s) (dict t) h = ap dict (eq_shape_sound s t h)
eq_shape_sound (ref m s) (ref n t) h = ground (arith, eq_iff m n, eq_iff s t)
eq_shape_sound (input s) (input t) h = ap input (eq_shape_sound s t h)
eq_shape_sound _ _ h = cc

abbrev pub shape_field : Option Field → Option Shape
shape_field none = none
shape_field (some f) = some f.shape

-- The type of a field, if it is declared.
abbrev pub shape_in : String → List Field → Option Shape
shape_in name fs = shape_field (find_field name fs)

abbrev pub shape_interface : String → Option Interface → Option Shape
shape_interface field none = none
shape_interface field (some i) = shape_in field i.fields

abbrev pub shape_of : Namespaces → String → String → String → Option Shape
shape_of types namespace name field = shape_interface field (find_interface types namespace name)

abbrev pub plain_of : Option Shape → Option Shape
plain_of none = none
plain_of (some s) = some (plain s)

abbrev matches : Option Shape → Shape → Bool
matches none s = false
matches (some t) s = eq_shape t s

abbrev is_declared : Option Shape → Bool
is_declared none = false
is_declared (some _) = true

-- The same fields, each with the plain type.
unfoldable same_fields : List Field → List Field → Bool
same_fields fs gs =
    all (λ (f : Field). matches (shape_in f.name gs) (plain f.shape)) fs
    && all (λ (g : Field). is_declared (shape_in g.name fs)) gs

unfoldable same_interfaces : List Interface → List Interface → Bool
unfolding same_fields
same_interfaces [] [] = true
same_interfaces (i ∷ is) (j ∷ js) =
    i.name == j.name && (same_fields i.fields j.fields && same_interfaces is js)
same_interfaces _ _ = false

unfoldable same_types : Namespaces → Namespaces → Bool
unfolding same_interfaces
same_types [] [] = true
same_types ((m, is) ∷ types) ((n, js) ∷ others) =
    m == n && (same_interfaces is js && same_types types others)
same_types _ _ = false

output_same : same_types input_types output_types ≡ true
unfolding same_types same_interfaces same_fields eq_shape find_field input_types output_types
output_same = refl

matches_sound : (o : Option Shape) (s : Shape) → matches o s ≡ true → o ≡ some s
matches_sound none s h = cc
matches_sound (some t) s h = ap some (eq_shape_sound t s h)

not_declared : (o : Option Shape) → o ≡ none → is_declared o ≡ true → ⊥
not_declared o e h = cc (rw e at h)

shape_in-plain :
    (fs gs : List Field) (name : String)
    → same_fields fs gs ≡ true
    → shape_in name gs ≡ plain_of (shape_in name fs)
unfolding same_fields
shape_in-plain fs gs name h =
    let typed : all (λ (f : Field). matches (shape_in f.name gs) (plain f.shape)) fs ≡ true =
      ground (arith, h) in
    let known : all (λ (g : Field). is_declared (shape_in g.name fs)) gs ≡ true =
      ground (arith, h) in
    elim (Option-cases (find_field name fs)) [
      | inl missing ↦ elim (Option-cases (find_field name gs)) [
        | inl absent ↦
            ap shape_field absent
            ∙ sym (ap (λ (o : Option Field). plain_of (shape_field o)) missing)
        | inr (g, found) ↦
            let (there, same) =
              find_field-all (λ (g : Field). is_declared (shape_in g.name fs)) name gs g known
                found in
            absurd (not_declared (shape_in name fs) (ap shape_field missing) (rw same at there))
      ]
      | inr (f, found) ↦
          let (there, same) =
            find_field-all (λ (f : Field). matches (shape_in f.name gs) (plain f.shape)) name fs f
              typed found in
          matches_sound (shape_in name gs) (plain f.shape) (rw same at there)
          ∙ sym (ap (λ (o : Option Field). plain_of (shape_field o)) found)
    ]

shape_named-plain :
    (is js : List Interface) (name field : String)
    → same_interfaces is js ≡ true
    → shape_interface field (find_named name js)
      ≡ plain_of (shape_interface field (find_named name is))
unfolding same_interfaces find_named
shape_named-plain [] [] name field h = refl
shape_named-plain (i ∷ is) (j ∷ js) name field h =
    let same : i.name ≡ j.name = ground (arith, h, eq_iff i.name j.name) in
    let fields : same_fields i.fields j.fields ≡ true = ground (arith, h) in
    let rest : same_interfaces is js ≡ true = ground (arith, h) in
    rw (← same) (elim (Bool-cases (i.name == name)) [
      | inl this ↦ rw this (shape_in-plain i.fields j.fields field fields)
      | inr other ↦ rw other (shape_named-plain is js name field rest)
    ])
shape_named-plain [] (j ∷ js) name field h = cc
shape_named-plain (i ∷ is) [] name field h = cc

shape_of-plain :
    (types others : Namespaces) (namespace name field : String)
    → same_types types others ≡ true
    → shape_of others namespace name field ≡ plain_of (shape_of types namespace name field)
unfolding same_types find_interface
shape_of-plain [] [] namespace name field h = refl
shape_of-plain ((m, is) ∷ types) ((n, js) ∷ others) namespace name field h =
    let same : m ≡ n = ground (arith, h, eq_iff m n) in
    let interfaces : same_interfaces is js ≡ true = ground (arith, h) in
    let rest : same_types types others ≡ true = ground (arith, h) in
    rw (← same) (elim (Bool-cases (m == namespace)) [
      | inl this ↦ rw this (shape_named-plain is js name field interfaces)
      | inr other ↦ rw other (shape_of-plain types others namespace name field rest)
    ])
shape_of-plain [] ((n, js) ∷ others) namespace name field h = cc
shape_of-plain ((m, is) ∷ types) [] namespace name field h = cc

-- The outputs have a field of an interface exactly where the arguments have it, and the field's
-- type is that of the argument without `pulumi.Input<…>`.
pub shape_of-output :
    (namespace name field : String)
    → shape_of output_types namespace name field
      ≡ plain_of (shape_of input_types namespace name field)
shape_of-output namespace name field =
    shape_of-plain input_types output_types namespace name field output_same
