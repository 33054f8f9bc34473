-- ===== src/Yaml/Dispatch/Fits.antt =====
-- The types of what a class gives the base class.
use pulumi_kubernetes.Common.{
  String, ◌≡◌, refl, sym, ap, ◌∙◌, inl, inr, Bool, true, false, not, ◌&&◌, ◌||◌, ◌==◌, eq_iff,
  if◌then◌else◌, Option, none, some, Option-cases, Bool-cases, List, [], ◌∷◌, all, contains,
  and_true, or_true,
}
use pulumi_kubernetes.Common.Dict.{Dict}
use pulumi_kubernetes.Js.Value.{Value, object, string, Fields, field, end, is_undefined, property}
use pulumi_kubernetes.Js.Outcome.{ok}
use pulumi_kubernetes.Resources.Class.{ResourceClass, populate}
use pulumi_kubernetes.Types.Shape.{Field, Interface, Namespaces, ref}
use pulumi_kubernetes.Types.Find.{find_named, find_interface, find_field, find_field-all}
use pulumi_kubernetes.Types.Fits.{content, fits_field, present, has_required, fits, fits_fields}
use pulumi_kubernetes.Types.Fits.Properties.{
  is_text, or_right, fits_field-property, text-fits, fits-interface,
}
use pulumi_kubernetes.Types.Input.{input_types}
use pulumi_kubernetes.Yaml.Case.{Case}
use pulumi_kubernetes.Yaml.Switch.{switch_cases}
use pulumi_kubernetes.Yaml.Object.{find_case}
use pulumi_kubernetes.Yaml.Dispatch.{names, api_version_of, kind_of, find_case-all}
use pulumi_kubernetes.Yaml.Dispatch.Inputs.{declared_input, declared_inputs, populate-case}
use pulumi_kubernetes.Yaml.Dispatch.Types.{args_of}

-- A dictionary as an object.
abbrev pub fields_of : Dict Value → Fields
fields_of [] = end
fields_of ((k, v) ∷ d) = field k v (fields_of d)

-- A declared argument is an output, and its type is `string` where the class sets it.
abbrev covered : ResourceClass → Field → Bool
covered c f =
    contains (names c.outputs) f.name
    && ((if f.name == "apiVersion" then is_text (content f.shape) else true)
        && (if f.name == "kind" then is_text (content f.shape) else true))

abbrev covers : ResourceClass → Option Interface → Bool
covers c none = false
covers c (some i) = all (covered c) i.fields

covering : Case → Bool
covering c = covers c.made (args_of c)

all-covering : all covering switch_cases ≡ true
unfolding covering switch_cases find_interface find_named input_types
all-covering = refl

module _ (types : Namespaces) (c : ResourceClass) (fs : Fields) (ds : List Field) where
  declared_input-fits :
      (k : String) (f : Field)
      → covered c f ≡ true
      → f.name ≡ k
      → has_required fs ds ≡ true
      → fits_fields types fs ds ≡ true
      → find_field k ds ≡ some f
      → fits_field
          (fits types (declared_input c fs k))
          (is_undefined (declared_input c fs k))
          (some f)
        ≡ true
  declared_input-fits k f cover same there typed declared =
      let (_, texts) = and_true (contains (names c.outputs) f.name) _ cover in
      let (version, kind) =
        and_true (if f.name == "apiVersion" then is_text (content f.shape) else true)
          (if f.name == "kind" then is_text (content f.shape) else true) texts in
      elim (Bool-cases (k == "apiVersion")) [
        | inl this ↦ rw this (fits_text (api_version_of c) (rw (same, this) at version))
        | inr other ↦ elim (Bool-cases (k == "kind")) [
          | inl this ↦ rw (other, this) (fits_text (kind_of c) (rw (same, this) at kind))
          | inr own ↦ rw (other, own) (fits_field-property types fs ds k f there typed declared)
        ]
      ]
    where
      fits_text :
          (t : String)
          → is_text (content f.shape) ≡ true
          → ((f.is_optional && false) || fits types (string t) (content f.shape)) ≡ true
      fits_text t h = rw (text-fits types (content f.shape) t h) (or_right (f.is_optional && false))

  fits_fields-inputs :
      (ks : List String)
      → all (covered c) ds ≡ true
      → has_required fs ds ≡ true
      → fits_fields types fs ds ≡ true
      → fits_fields types (fields_of (declared_inputs c fs ks)) ds ≡ true
  unfolding fits fits_fields
  fits_fields-inputs [] cover there typed = refl
  fits_fields-inputs (k ∷ ks) cover there typed = elim (Option-cases (find_field k ds)) [
    | inl missing ↦ rw missing (fits_fields-inputs ks cover there typed)
    | inr (f, declared) ↦
        let (covers_it, same) = find_field-all (covered c) k ds f cover declared in
        rw (declared, declared_input-fits k f covers_it same there typed declared)
          (fits_fields-inputs ks cover there typed)
  ]

property-declared_inputs :
    (c : ResourceClass) (fs : Fields) (ks : List String) (k : String)
    → contains ks k ≡ true
    → property k (fields_of (declared_inputs c fs ks)) ≡ declared_input c fs k
unfolding property
property-declared_inputs c fs [] k h = cc
property-declared_inputs c fs (j ∷ ks) k h = elim (Bool-cases (j == k)) [
  | inl same ↦ rw same (ap (declared_input c fs) ((eq_iff j k).0 same))
  | inr other ↦ rw other (property-declared_inputs c fs ks k (rw other at h))
]

module _ (c : ResourceClass) (fs : Fields) where
  declared_input-defined :
      (k : String)
      → not (is_undefined (property k fs)) ≡ true
      → not (is_undefined (declared_input c fs k)) ≡ true
  declared_input-defined k h = elim (Bool-cases (k == "apiVersion")) [
    | inl this ↦ rw this refl
    | inr other ↦ elim (Bool-cases (k == "kind")) [
      | inl this ↦ rw (other, this) refl
      | inr own ↦ rw (other, own) h
    ]
  ]

  present-inputs :
      (f : Field)
      → covered c f ≡ true
      → present fs f ≡ true
      → present (fields_of (declared_inputs c fs (names c.outputs))) f ≡ true
  present-inputs f cover there =
      let (named, _) = and_true (contains (names c.outputs) f.name) _ cover in
      elim (or_true f.is_optional (not (is_undefined (property f.name fs))) there) [
        | inl optional ↦ rw optional refl
        | inr set ↦
            rw
              (
                property-declared_inputs c fs (names c.outputs) f.name named,
                declared_input-defined f.name set,
              )
              (or_right f.is_optional)
      ]

  has_required-inputs :
      (ds : List Field)
      → all (covered c) ds ≡ true
      → has_required fs ds ≡ true
      → has_required (fields_of (declared_inputs c fs (names c.outputs))) ds ≡ true
  has_required-inputs [] cover there = refl
  has_required-inputs (f ∷ ds) cover there =
      let (covers_it, more) = and_true (covered c f) (all (covered c) ds) cover in
      let (set, rest) = and_true (present fs f) (has_required fs ds) there in
      rw (present-inputs f covers_it set) (has_required-inputs ds more rest)

-- Made from an object that has the type of the class's arguments, the class of a case gives the
-- base class inputs of that same type: all that it requires, and each property with its own type.
pub populate-fits :
    (label : String) (c : Case) (i : Interface) (fs : Fields)
    → find_case label switch_cases ≡ some c
    → args_of c ≡ some i
    → fits input_types (object fs) (ref c.made.args.0 c.made.args.1) ≡ true
    → (inputs : Dict Value) × (populate c.made (object fs) ≡ ok inputs)
      × (fits input_types (object (fields_of inputs)) (ref c.made.args.0 c.made.args.1) ≡ true)
unfolding covering
populate-fits label c i fs found declared typed =
    let ks = names c.made.outputs in
    let inputs = declared_inputs c.made fs ks in
    let cover : covers c.made (args_of c) ≡ true =
      (find_case-all covering label switch_cases c all-covering found).0 in
    let all_covered : all (covered c.made) i.fields ≡ true =
      sym (ap (covers c.made) declared) ∙ cover in
    let (there, each) =
      and_true (has_required fs i.fields) (fits_fields input_types fs i.fields)
        (sym (fits-interface input_types c.made.args.0 c.made.args.1 i fs declared) ∙ typed) in
    (
      inputs,
      populate-case label c fs found,
      fits-interface input_types c.made.args.0 c.made.args.1 i (fields_of inputs) declared
          ∙ rw
              (
                has_required-inputs c.made fs i.fields all_covered there,
                fits_fields-inputs input_types c.made fs i.fields ks all_covered there each,
              )
              refl,
    )
