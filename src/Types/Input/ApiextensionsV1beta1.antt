-- ===== src/Types/Input/ApiextensionsV1beta1.antt =====
-- The interfaces of the namespace `apiextensions.v1beta1` of pack/nodejs/types/input.ts.
use pulumi_kubernetes.Common.{List, [], ◌∷◌}
use pulumi_kubernetes.Types.Shape.{
  Interface, guarded, interface, required, optional, text, number, boolean, any_object, list, ref,
}

abbrev pub custom_resource_definition : Interface
custom_resource_definition =
    guarded "CustomResourceDefinition" "apiextensions.k8s.io/v1beta1" "CustomResourceDefinition" (
      optional "apiVersion" text
      ∷ optional "kind" text
      ∷ optional "metadata" (ref "meta.v1" "ObjectMeta")
      ∷ optional "spec" (ref "apiextensions.v1beta1" "CustomResourceDefinitionSpec")
      ∷ optional "status" (ref "apiextensions.v1beta1" "CustomResourceDefinitionStatus")
      ∷ [])

abbrev pub custom_resource_definition_condition : Interface
custom_resource_definition_condition = interface "CustomResourceDefinitionCondition" (
    required "status" text
    ∷ required "type" text
    ∷ optional "lastTransitionTime" text
    ∷ optional "message" text
    ∷ optional "reason" text
    ∷ [])

abbrev pub custom_resource_definition_list : Interface
custom_resource_definition_list =
    guarded "CustomResourceDefinitionList" "apiextensions.k8s.io/v1beta1"
      "CustomResourceDefinitionList"
      (required "items" (list (ref "apiextensions.v1beta1" "CustomResourceDefinition"))
        ∷ optional "apiVersion" text
        ∷ optional "kind" text
        ∷ optional "metadata" (ref "meta.v1" "ListMeta")
        ∷ [])

abbrev pub custom_resource_definition_names : Interface
custom_resource_definition_names = interface "CustomResourceDefinitionNames" (
    required "kind" text
    ∷ required "plural" text
    ∷ optional "listKind" text
    ∷ optional "shortNames" (list text)
    ∷ optional "singular" text
    ∷ [])

abbrev pub custom_resource_definition_spec : Interface
custom_resource_definition_spec = interface "CustomResourceDefinitionSpec" (
    required "group" text
    ∷ required "names" (ref "apiextensions.v1beta1" "CustomResourceDefinitionNames")
    ∷ required "scope" text
    ∷ required "version" text
    ∷ optional "validation" (ref "apiextensions.v1beta1" "CustomResourceValidation")
    ∷ [])

abbrev pub custom_resource_definition_status : Interface
custom_resource_definition_status = interface "CustomResourceDefinitionStatus" (
    required "acceptedNames" (ref "apiextensions.v1beta1" "CustomResourceDefinitionNames")
    ∷ required "conditions" (list (ref "apiextensions.v1beta1" "CustomResourceDefinitionCondition"))
    ∷ [])

abbrev pub custom_resource_validation : Interface
custom_resource_validation =
    interface "CustomResourceValidation"
      (optional "openAPIV3Schema" (ref "apiextensions.v1beta1" "JSONSchemaProps") ∷ [])

abbrev pub external_documentation : Interface
external_documentation =
    interface "ExternalDocumentation" (optional "description" text ∷ optional "url" text ∷ [])

abbrev pub json : Interface
json = interface "JSON" (required "Raw" text ∷ [])

abbrev pub json_schema_props : Interface
json_schema_props = interface "JSONSchemaProps" (
    optional "$ref" text
    ∷ optional "$schema" text
    ∷ optional "additionalItems" (ref "apiextensions.v1beta1" "JSONSchemaPropsOrBool")
    ∷ optional "additionalProperties" (ref "apiextensions.v1beta1" "JSONSchemaPropsOrBool")
    ∷ optional "allOf" (list (ref "apiextensions.v1beta1" "JSONSchemaProps"))
    ∷ optional "anyOf" (list (ref "apiextensions.v1beta1" "JSONSchemaProps"))
    ∷ optional "default" (ref "apiextensions.v1beta1" "JSON")
    ∷ optional "definitions" any_object
    ∷ optional "dependencies" any_object
    ∷ optional "description" text
    ∷ optional "enum" (list (ref "apiextensions.v1beta1" "JSON"))
    ∷ optional "example" (ref "apiextensions.v1beta1" "JSON")
    ∷ optional "exclusiveMaximum" boolean
    ∷ optional "exclusiveMinimum" boolean
    ∷ optional "externalDocs" (ref "apiextensions.v1beta1" "ExternalDocumentation")
    ∷ optional "format" text
    ∷ optional "id" text
    ∷ optional "items" (ref "apiextensions.v1beta1" "JSONSchemaPropsOrArray")
    ∷ optional "maxItems" number
    ∷ optional "maxLength" number
    ∷ optional "maxProperties" number
    ∷ optional "maximum" number
    ∷ optional "minItems" number
    ∷ optional "minLength" number
    ∷ optional "minProperties" number
    ∷ optional "minimum" number
    ∷ optional "multipleOf" number
    ∷ optional "not" (ref "apiextensions.v1beta1" "JSONSchemaProps")
    ∷ optional "oneOf" (list (ref "apiextensions.v1beta1" "JSONSchemaProps"))
    ∷ optional "pattern" text
    ∷ optional "patternProperties" any_object
    ∷ optional "properties" any_object
    ∷ optional "required" (list text)
    ∷ optional "title" text
    ∷ optional "type" text
    ∷ optional "uniqueItems" boolean
    ∷ [])

abbrev pub json_schema_props_or_array : Interface
json_schema_props_or_array = interface "JSONSchemaPropsOrArray" (
    required "JSONSchemas" (list (ref "apiextensions.v1beta1" "JSONSchemaProps"))
    ∷ required "Schema" (ref "apiextensions.v1beta1" "JSONSchemaProps")
    ∷ [])

abbrev pub json_schema_props_or_bool : Interface
json_schema_props_or_bool = interface "JSONSchemaPropsOrBool" (
    required "Allows" boolean
    ∷ required "Schema" (ref "apiextensions.v1beta1" "JSONSchemaProps")
    ∷ [])

abbrev pub json_schema_props_or_string_array : Interface
json_schema_props_or_string_array = interface "JSONSchemaPropsOrStringArray" (
    required "Property" (list text)
    ∷ required "Schema" (ref "apiextensions.v1beta1" "JSONSchemaProps")
    ∷ [])

abbrev pub interfaces : List Interface
interfaces =
    custom_resource_definition ∷ custom_resource_definition_condition
    ∷ custom_resource_definition_list ∷ custom_resource_definition_names
    ∷ custom_resource_definition_spec ∷ custom_resource_definition_status
    ∷ custom_resource_validation ∷ external_documentation ∷ json ∷ json_schema_props
    ∷ json_schema_props_or_array ∷ json_schema_props_or_bool ∷ json_schema_props_or_string_array
    ∷ []
