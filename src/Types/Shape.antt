-- ===== src/Types/Shape.antt =====
-- The type expressions that pack/nodejs/types/input.ts and pack/nodejs/types/output.ts use, and the
-- interfaces that they declare.
use pulumi_kubernetes.Common.{String, Bool, true, false, Option, none, some, List}

-- `string`, `number`, `boolean`, `object`, `number | string`, `T[]`, `{[key: string]: T}`,
-- `ns.T` and `pulumi.Input<T>`.
pub data Shape : Type 0 where
  text number boolean any_object number_or_text : Shape
  list : Shape → Shape
  dict : Shape → Shape
  ref : String → String → Shape
  input : Shape → Shape

pub record Field : Type 0 where
  pub name : String
  pub is_optional : Bool
  pub shape : Shape

-- The test `is…` of an interface: the two texts that it compares `apiVersion` and `kind` with.
pub record Guard : Type 0 where
  pub api_version : String
  pub kind : String

pub record Interface : Type 0 where
  pub name : String
  pub guard : Option Guard
  pub fields : List Field

-- `name: pulumi.Input<T>` and `name?: pulumi.Input<T>`
abbrev pub required : String → Shape → Field
required name shape = record { name = name; is_optional = false; shape = input shape }

abbrev pub optional : String → Shape → Field
optional name shape = record { name = name; is_optional = true; shape = input shape }

-- `readonly name: T`
abbrev pub readonly : String → Shape → Field
readonly name shape = record { name = name; is_optional = false; shape = shape }

-- An interface without a test, and one with it.
abbrev pub interface : String → List Field → Interface
interface name fields = record { name = name; guard = none; fields = fields }

abbrev pub guarded : String → String → String → List Field → Interface
guarded name api_version kind fields = record {
  name = name;
  guard = some (record { api_version = api_version; kind = kind });
  fields = fields;
}

-- The namespaces of a file, each with its interfaces.
abbrev pub Namespaces : Type 0
Namespaces = List (String × List Interface)
