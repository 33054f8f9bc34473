-- ===== src/Types/Fits.antt =====
-- Which values have a type of pack/nodejs/types. Promises and outputs, which `pulumi.Input<T>` allows
-- beside `T`, are no values of the model, and properties that an interface does not declare are
-- allowed.
pub mod Properties
use pulumi_kubernetes.Common.{Bool, true, false, not, ◌&&◌, ◌||◌, Option, none, some, List, all}
use pulumi_kubernetes.Js.Value.{
  Value, bool, number as num, string, array, object, Items, nil, cons, Fields, field, end,
  is_undefined, property,
}
use pulumi_kubernetes.Types.Shape.{
  Shape, text, number, boolean, any_object, number_or_text, list, dict, ref, input, Field,
  Interface, Namespaces,
}
use pulumi_kubernetes.Types.Find.{find_interface, find_field}

-- A type without the `pulumi.Input<…>` around it.
abbrev pub content : Shape → Shape
content (input s) = content s
content s = s

-- A property of the type that is declared for it: an optional one may be `undefined`.
abbrev pub fits_field : (Shape → Bool) → Bool → Option Field → Bool
fits_field has_type missing none = true
fits_field has_type missing (some f) = (f.is_optional && missing) || has_type (content f.shape)

-- A property that must be there.
abbrev pub present : Fields → Field → Bool
present fs f = f.is_optional || not (is_undefined (property f.name fs))

abbrev pub has_required : Fields → List Field → Bool
has_required fs ds = all (present fs) ds

abbrev pub fits_declared : (List Field → Bool) → Fields → Option Interface → Bool
fits_declared typed fs none = false
fits_declared typed fs (some i) = has_required fs i.fields && typed i.fields

module _ (types : Namespaces) where
  unfoldable mutual
    unfolding find_interface find_field property

    pub fits : Value → Shape → Bool
    fits (string s) text = true
    fits (string s) number_or_text = true
    fits (num n) number = true
    fits (num n) number_or_text = true
    fits (bool b) boolean = true
    fits (array xs) any_object = true
    fits (array xs) (list s) = fits_items xs (content s)
    fits (object fs) any_object = true
    fits (object fs) (dict s) = fits_values fs (content s)
    fits (object fs) (ref namespace name) =
        fits_declared (fits_fields fs) fs (find_interface types namespace name)
    fits _ _ = false

    fits_items : Items → Shape → Bool
    fits_items nil s = true
    fits_items (cons v xs) s = fits v s && fits_items xs s

    fits_values : Fields → Shape → Bool
    fits_values end s = true
    fits_values (field k v fs) s = fits v s && fits_values fs s

    pub fits_fields : Fields → List Field → Bool
    fits_fields end ds = true
    fits_fields (field k v fs) ds =
        fits_field (fits v) (is_undefined v) (find_field k ds) && fits_fields fs ds
