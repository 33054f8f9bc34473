-- ===== src/Types/Output/ApiextensionsV1beta1.antt =====
-- The interfaces of the namespace `apiextensions.v1beta1` of pack/nodejs/types/output.ts.
use pulumi_kubernetes.Common.{List, [], ◌∷◌}
use pulumi_kubernetes.Types.Shape.{
  Interface, interface, readonly, text, number, boolean, any_object, list, ref,
}

abbrev pub custom_resource_definition : Interface
custom_resource_definition = interface "CustomResourceDefinition" (
    readonly "apiVersion" text
    ∷ readonly "kind" text
    ∷ readonly "metadata" (ref "meta.v1" "ObjectMeta")
    ∷ readonly "spec" (ref "apiextensions.v1beta1" "CustomResourceDefinitionSpec")
    ∷ readonly "status" (ref "apiextensions.v1beta1" "CustomResourceDefinitionStatus")
    ∷ [])

abbrev pub custom_resource_definition_condition : Interface
custom_resource_definition_condition = interface "CustomResourceDefinitionCondition" (
    readonly "lastTransitionTime" text
    ∷ readonly "message" text
    ∷ readonly "reason" text
    ∷ readonly "status" text
    ∷ readonly "type" text
    ∷ [])

abbrev pub custom_resource_definition_list : Interface
custom_resource_definition_list = interface "CustomResourceDefinitionList" (
    readonly "apiVersion" text
    ∷ readonly "items" (list (ref "apiextensions.v1beta1" "CustomResourceDefinition"))
    ∷ readonly "kind" text
    ∷ readonly "metadata" (ref "meta.v1" "ListMeta")
    ∷ [])

abbrev pub custom_resource_definition_names : Interface
custom_resource_definition_names = interface "CustomResourceDefinitionNames" (
    readonly "kind" text
    ∷ readonly "listKind" text
    ∷ readonly "plural" text
    ∷ readonly "shortNames" (list text)
    ∷ readonly "singular" text
    ∷ [])

abbrev pub custom_resource_definition_spec : Interface
custom_resource_definition_spec = interface "CustomResourceDefinitionSpec" (
    readonly "group" text
    ∷ readonly "names" (ref "apiextensions.v1beta1" "CustomResourceDefinitionNames")
    ∷ readonly "scope" text
    ∷ readonly "validation" (ref "apiextensions.v1beta1" "CustomResourceValidation")
    ∷ readonly "version" text
    ∷ [])

abbrev pub custom_resource_definition_status : Interface
custom_resource_definition_status = interface "CustomResourceDefinitionStatus" (
    readonly "acceptedNames" (ref "apiextensions.v1beta1" "CustomResourceDefinitionNames")
    ∷ readonly "conditions" (list (ref "apiextensions.v1beta1" "CustomResourceDefinitionCondition"))
    ∷ [])

abbrev pub custom_resource_validation : Interface
custom_resource_validation =
    interface "CustomResourceValidation"
      (readonly "openAPIV3Schema" (ref "apiextensions.v1beta1" "JSONSchemaProps") ∷ [])

abbrev pub external_documentation : Interface
external_documentation =
    interface "ExternalDocumentation" (readonly "description" text ∷ readonly "url" text ∷ [])

abbrev pub json : Interface
json = interface "JSON" (readonly "Raw" text ∷ [])

abbrev pub json_schema_props : Interface
json_schema_props = interface "JSONSchemaProps" (
    readonly "$ref" text
    ∷ readonly "$schema" text
    ∷ readonly "additionalItems" (ref "apiextensions.v1beta1" "JSONSchemaPropsOrBool")
    ∷ readonly "additionalProperties" (ref "apiextensions.v1beta1" "JSONSchemaPropsOrBool")
    ∷ readonly "allOf" (list (ref "apiextensions.v1beta1" "JSONSchemaProps"))
    ∷ readonly "anyOf" (list (ref "apiextensions.v1beta1" "JSONSchemaProps"))
    ∷ readonly "default" (ref "apiextensions.v1beta1" "JSON")
    ∷ readonly "definitions" any_object
    ∷ readonly "dependencies" any_object
    ∷ readonly "description" text
    ∷ readonly "enum" (list (ref "apiextensions.v1beta1" "JSON"))
    ∷ readonly "example" (ref "apiextensions.v1beta1" "JSON")
    ∷ readonly "exclusiveMaximum" boolean
    ∷ readonly "exclusiveMinimum" boolean
    ∷ readonly "externalDocs" (ref "apiextensions.v1beta1" "ExternalDocumentation")
    ∷ readonly "format" text
    ∷ readonly "id" text
    ∷ readonly "items" (ref "apiextensions.v1beta1" "JSONSchemaPropsOrArray")
    ∷ readonly "maxItems" number
    ∷ readonly "maxLength" number
    ∷ readonly "maxProperties" number
    ∷ readonly "maximum" number
    ∷ readonly "minItems" number
    ∷ readonly "minLength" number
    ∷ readonly "minProperties" number
    ∷ readonly "minimum" number
    ∷ readonly "multipleOf" number
    ∷ readonly "not" (ref "apiextensions.v1beta1" "JSONSchemaProps")
    ∷ readonly "oneOf" (list (ref "apiextensions.v1beta1" "JSONSchemaProps"))
    ∷ readonly "pattern" text
    ∷ readonly "patternProperties" any_object
    ∷ readonly "properties" any_object
    ∷ readonly "required" (list text)
    ∷ readonly "title" text
    ∷ readonly "type" text
    ∷ readonly "uniqueItems" boolean
    ∷ [])

abbrev pub json_schema_props_or_array : Interface
json_schema_props_or_array = interface "JSONSchemaPropsOrArray" (
    readonly "JSONSchemas" (list (ref "apiextensions.v1beta1" "JSONSchemaProps"))
    ∷ readonly "Schema" (ref "apiextensions.v1beta1" "JSONSchemaProps")
    ∷ [])

abbrev pub json_schema_props_or_bool : Interface
json_schema_props_or_bool = interface "JSONSchemaPropsOrBool" (
    readonly "Allows" boolean
    ∷ readonly "Schema" (ref "apiextensions.v1beta1" "JSONSchemaProps")
    ∷ [])

abbrev pub json_schema_props_or_string_array : Interface
json_schema_props_or_string_array = interface "JSONSchemaPropsOrStringArray" (
    readonly "Property" (list text)
    ∷ readonly "Schema" (ref "apiextensions.v1beta1" "JSONSchemaProps")
    ∷ [])

abbrev pub interfaces : List Interface
interfaces =
    custom_resource_definition ∷ custom_resource_definition_condition
    ∷ custom_resource_definition_list ∷ custom_resource_definition_names
    ∷ custom_resource_definition_spec ∷ custom_resource_definition_status
    ∷ custom_resource_validation ∷ external_documentation ∷ json ∷ json_schema_props
    ∷ json_schema_props_or_array ∷ json_schema_props_or_bool ∷ json_schema_props_or_string_array
    ∷ []
