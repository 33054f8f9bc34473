-- ===== src/Types/Fits/Properties.antt =====
-- What it says of a property that its object has a declared type.
use pulumi_kubernetes.Common.{
  String, ◌≡◌, refl, sym, ap, ◌∙◌, ◌⊎◌, inl, inr, Bool, true, false, not, ◌&&◌, ◌||◌, ◌==◌, eq_iff,
  some, Bool-cases, List, and_true, or_true,
}
use pulumi_kubernetes.Js.Value.{Value, object, string, Fields, field, end, is_undefined, property}
use pulumi_kubernetes.Types.Shape.{Shape, text, Field, Interface, Namespaces, ref}
use pulumi_kubernetes.Types.Find.{find_interface, find_field, find_field-all}
use pulumi_kubernetes.Types.Fits.{
  content, fits_field, present, has_required, fits_declared, fits, fits_fields,
}

abbrev pub is_text : Shape → Bool
is_text text = true
is_text _ = false

pub or_right : (b : Bool) → (b || true) ≡ true
or_right true = refl
or_right false = refl

module _ (types : Namespaces) where
  property-fits :
      (fs : Fields) (ds : List Field) (k : String) (f : Field)
      → fits_fields types fs ds ≡ true
      → find_field k ds ≡ some f
      → (is_undefined (property k fs) ≡ true)
        ⊎ (fits types (property k fs) (content f.shape) ≡ true)
  unfolding fits fits_fields property
  property-fits end ds k f h declared = inl refl
  property-fits (field j v fs) ds k f h declared =
      let (first, rest) =
        and_true (fits_field (fits types v) (is_undefined v) (find_field j ds))
          (fits_fields types fs ds) h in
      elim (Bool-cases (j == k)) [
        | inl same ↦ rw same (
            typed_value v (
              ap (fits_field (fits types v) (is_undefined v))
                (sym (ap (λ n. find_field n ds) ((eq_iff j k).0 same) ∙ declared))
              ∙ first))
        | inr other ↦ rw other (property-fits fs ds k f rest declared)
      ]
    where
      typed_value :
          (v : Value)
          → fits_field (fits types v) (is_undefined v) (some f) ≡ true
          → (is_undefined v ≡ true) ⊎ (fits types v (content f.shape) ≡ true)
      typed_value v h =
          elim (or_true (f.is_optional && is_undefined v) (fits types v (content f.shape)) h) [
            | inl missing ↦ inl (and_true f.is_optional (is_undefined v) missing).1
            | inr typed ↦ inr typed
          ]

  -- A property of an object that fits, missing ones included.
  pub fits_field-property :
      (fs : Fields) (ds : List Field) (k : String) (f : Field)
      → has_required fs ds ≡ true
      → fits_fields types fs ds ≡ true
      → find_field k ds ≡ some f
      → fits_field (fits types (property k fs)) (is_undefined (property k fs)) (some f) ≡ true
  fits_field-property fs ds k f there typed declared =
      elim (property-fits fs ds k f typed declared) [
        | inr this ↦ rw this (or_right (f.is_optional && is_undefined (property k fs)))
        | inl missing ↦
            let (needed, same) = find_field-all (present fs) k ds f there declared in
            elim (or_true f.is_optional (not (is_undefined (property f.name fs))) needed) [
              | inl optional ↦ rw (optional, missing) refl
              | inr set ↦ cc (rw (same, missing) at set)
            ]
      ]

  pub text-fits : (s : Shape) (t : String) → is_text s ≡ true → fits types (string t) s ≡ true
  unfolding fits
  text-fits text t h = refl
  text-fits _ t h = cc

pub fits-interface :
    (types : Namespaces) (namespace name : String) (i : Interface) (fs : Fields)
    → find_interface types namespace name ≡ some i
    → fits types (object fs) (ref namespace name)
      ≡ (has_required fs i.fields && fits_fields types fs i.fields)
unfolding fits
fits-interface types namespace name i fs found = ap (fits_declared (fits_fields types fs) fs) found
