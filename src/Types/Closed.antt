-- ===== src/Types/Closed.antt =====
-- The names in the types of pack/nodejs/types/input.ts and pack/nodejs/types/output.ts.
use pulumi_kubernetes.Common.{
  String, ◌≡◌, refl, Bool, true, false, Option, none, some, Option-cases, inl, inr, all,
}
use pulumi_kubernetes.Types.Shape.{
  Shape, text, number, boolean, any_object, number_or_text, list, dict, ref, input, Field,
  Interface, Namespaces,
}
use pulumi_kubernetes.Types.Find.{
  find_named, find_interface, find_field, all_interfaces, find_interface-all, find_field-all,
}
use pulumi_kubernetes.Types.Input.{input_types}
use pulumi_kubernetes.Types.Output.{output_types}

-- Every name in a type is declared.
abbrev pub IsClosed : Namespaces → Shape → Type 0
IsClosed types (list s) = IsClosed types s
IsClosed types (dict s) = IsClosed types s
IsClosed types (input s) = IsClosed types s
IsClosed types (ref namespace name) =
    (i : Interface) × (find_interface types namespace name ≡ some i)
IsClosed types _ = Unit

abbrev is_some {ℓ} : {A : Type ℓ} → Option A → Bool
is_some none = false
is_some (some _) = true

unfoldable closed : Namespaces → Shape → Bool
closed types (list s) = closed types s
closed types (dict s) = closed types s
closed types (input s) = closed types s
closed types (ref namespace name) = is_some (find_interface types namespace name)
closed types _ = true

closed-IsClosed : (types : Namespaces) (s : Shape) → closed types s ≡ true → IsClosed types s
unfolding closed
closed-IsClosed types text h = tt
closed-IsClosed types number h = tt
closed-IsClosed types boolean h = tt
closed-IsClosed types any_object h = tt
closed-IsClosed types number_or_text h = tt
closed-IsClosed types (list s) h = closed-IsClosed types s h
closed-IsClosed types (dict s) h = closed-IsClosed types s h
closed-IsClosed types (input s) h = closed-IsClosed types s h
closed-IsClosed types (ref namespace name) h =
    elim (Option-cases (find_interface types namespace name)) [
      | inl missing ↦ cc (rw missing at h)
      | inr found ↦ found
    ]

all_closed : Namespaces → Bool
unfolding all_interfaces
all_closed types =
    all_interfaces (λ (i : Interface). all (λ (f : Field). closed types f.shape) i.fields) types

all_closed-input : all_closed input_types ≡ true
unfolding all_closed closed find_interface find_named input_types
all_closed-input = refl

all_closed-output : all_closed output_types ≡ true
unfolding all_closed closed find_interface find_named output_types
all_closed-output = refl

all_closed-IsClosed :
    (types : Namespaces) (namespace name field : String) (i : Interface) (f : Field)
    → all_closed types ≡ true
    → find_interface types namespace name ≡ some i
    → find_field field i.fields ≡ some f
    → IsClosed types f.shape
unfolding all_closed
all_closed-IsClosed types namespace name field i f h found declared =
    closed-IsClosed types f.shape
      (find_field-all (λ (g : Field). closed types g.shape) field i.fields f
        (find_interface-all (λ (j : Interface). all (λ (g : Field). closed types g.shape) j.fields)
          types namespace name i h found)
        declared).0

-- The two files, and the namespaces that each declares.
pub data TypesFile : Type 0 where
  arguments outputs : TypesFile

abbrev pub types_of : TypesFile → Namespaces
types_of arguments = input_types
types_of outputs = output_types

-- Every type name that a declared field mentions, in either file, is declared in the same file.
pub find_field-IsClosed :
    (file : TypesFile) (namespace name field : String) (i : Interface) (f : Field)
    → find_interface (types_of file) namespace name ≡ some i
    → find_field field i.fields ≡ some f
    → IsClosed (types_of file) f.shape
find_field-IsClosed arguments namespace name field i f found declared =
    all_closed-IsClosed input_types namespace name field i f all_closed-input found declared
find_field-IsClosed outputs namespace name field i f found declared =
    all_closed-IsClosed output_types namespace name field i f all_closed-output found declared
