-- ===== src/Tests/Yaml.antt =====
-- The theorems on YAML at a pod.
use pulumi_kubernetes.Common.{String, ◌≡◌, refl, ◌↔◌, false, none, some, [], ◌∷◌, contains}
use pulumi_kubernetes.Js.Value.{undefined, object, string, property, to_text, Value, is_nullish}
use pulumi_kubernetes.Js.Outcome.{ok, throws, error, type_error, read}
use pulumi_kubernetes.Options.{many, Transformation}
use pulumi_kubernetes.Resources.Class.{populate, populate_from}
use pulumi_kubernetes.Yaml.Switch.{switch_cases}
use pulumi_kubernetes.Yaml.Dispatch.{
  IsCoherent, find_case-IsCoherent, get_resource_labels-find_case, api_version_of, kind_of,
}
use pulumi_kubernetes.Yaml.Dispatch.Inputs.{populate-case}
use pulumi_kubernetes.Yaml.Collection.Labels.{get_resource_labels}
use pulumi_kubernetes.Yaml.Object.{
  find_case, transform, qualified_id, parse_yaml_object, build_object, identify_object, make_object,
  apply_transformation,
}
use pulumi_kubernetes.Yaml.Object.Branches.{
  IsTyped, registration, instance_of, parse_yaml_object-known, parse_yaml_object-no_metadata,
}
use pulumi_kubernetes.Yaml.Object.Names.{find_case_exact, qualified_id_injective}
use pulumi_kubernetes.Yaml.Object.Run.{IsRun, parse_yaml_object-IsRun}
use pulumi_kubernetes.Yaml.Document.{
  Resources as Stored, document_from, parse_yaml_document, parse, get_resource, new_config_file,
}
use pulumi_kubernetes.Yaml.Document.Objects.{store_all, collect_objects}
use pulumi_kubernetes.Yaml.Document.Trace.{IsDocumentRun, parse_yaml_document-IsDocumentRun}
use pulumi_kubernetes.Yaml.Document.Unknown.{parse_yaml_document-unknown}
use pulumi_kubernetes.Yaml.Document.Texts.{parse-texts}
use pulumi_kubernetes.Yaml.Document.Lookup.{
  ask, get_resource-parse_yaml_document, get_resource-store_all,
}
use pulumi_kubernetes.Yaml.Document.Files.{IsFileRun, new_config_file-IsFileRun}
use pulumi_kubernetes.Yaml.Object.Transformed.{parse_yaml_object-transform}
use pulumi_kubernetes.Common.Dict.{insert}
use pulumi_kubernetes.Resources.Instance.{CustomResource, new_resource}
use pulumi_kubernetes.Tests.World.{
  db_fields, pod, pod_meta, pod_fields, pod_case, widget_fields, bare_fields, world, web_pod,
}

pod_found : find_case "v1/Pod" switch_cases ≡ some pod_case
unfolding find_case switch_cases
pod_found = refl

pod-IsTyped : IsTyped pod none pod_fields
unfolding transform property
pod-IsTyped = record { given = refl; full = refl; changed = refl; kind = refl; version = refl }

widget-IsTyped : IsTyped (object widget_fields) none widget_fields
unfolding transform property
widget-IsTyped = record { given = refl; full = refl; changed = refl; kind = refl; version = refl }

bare-IsTyped : IsTyped (object bare_fields) none bare_fields
unfolding transform property
bare-IsTyped = record { given = refl; full = refl; changed = refl; kind = refl; version = refl }

abbrev db_pod : CustomResource
db_pod = instance_of pod_case.made (string "db") db_fields none

db_collected :
    collect_objects world none none (object db_fields ∷ []) (registration web_pod ∷ []) ≡ (
      ok (record { name = "v1/Pod::db"; resource = db_pod } ∷ []),
      registration web_pod ∷ registration db_pod ∷ [],
    )
unfolding collect_objects parse_yaml_object build_object identify_object make_object qualified_id
    transform find_case switch_cases new_resource populate populate_from property read insert
    to_text
db_collected = refl

get_resource-parse_yaml_document_example :
    (resources : Stored) × (parse_yaml_document world
        (record { objs = pod ∷ object db_fields ∷ []; transformations = none })
        none
        []
      ≡ (ok resources, registration web_pod ∷ registration db_pod ∷ []))
    × (ask (record { self = 0; resources = resources }) "v1/Pod" (some "prod") "web"
        ≡ ok (some web_pod))
unfolding property to_text qualified_id document_from find_case switch_cases
get_resource-parse_yaml_document_example =
    get_resource-parse_yaml_document world none none [] (object db_fields ∷ []) pod pod_fields
      pod_meta pod_case "web" (some "prod") [] [] (registration web_pod ∷ registration db_pod ∷ [])
      [] (record { name = "v1/Pod::db"; resource = db_pod } ∷ []) 0 pod-IsTyped refl refl refl refl
      refl refl db_collected refl

parse_yaml_object-known_example : parse_yaml_object world pod none none [] ≡ (
  ok (
      some (record {
        name = "v1/Pod::prod/web";
        resource = instance_of pod_case.made (string "prod/web") pod_fields none;
      })),
  registration (instance_of pod_case.made (string "prod/web") pod_fields none) ∷ [],
)
unfolding property to_text qualified_id
parse_yaml_object-known_example =
    parse_yaml_object-known world none [] pod none pod_fields pod-IsTyped pod_meta pod_case refl
      pod_found

parse_yaml_document-unknown_example :
    parse_yaml_document world
      (record { objs = pod ∷ object widget_fields ∷ pod ∷ []; transformations = none })
      none
      []
    ≡ (throws (error "Unrecognized resource type example.com/v1/Widget"), registration web_pod ∷ [])
unfolding parse_yaml_document document_from parse_yaml_object build_object identify_object
    make_object qualified_id transform find_case switch_cases new_resource populate populate_from
    property read insert to_text get_resource_labels
parse_yaml_document-unknown_example =
    parse_yaml_document-unknown world none none (pod ∷ []) (pod ∷ []) (object widget_fields)
      widget_fields pod_meta widget-IsTyped refl refl []

parse_yaml_object-no_metadata_example :
    parse_yaml_object world (object bare_fields) none none []
    ≡ (throws (type_error "name" undefined), [])
unfolding property
parse_yaml_object-no_metadata_example =
    parse_yaml_object-no_metadata world none [] (object bare_fields) none bare_fields bare-IsTyped
      refl

find_case-IsCoherent_example : (pod_case.label ≡ "v1/Pod") × IsCoherent pod_case
find_case-IsCoherent_example = find_case-IsCoherent "v1/Pod" pod_case pod_found

populate-case_example :
    populate pod_case.made pod
    ≡ ok (
        ("apiVersion", string "v1")
        ∷ ("kind", string "Pod")
        ∷ ("metadata", object pod_meta)
        ∷ ("spec", string "s")
        ∷ ("status", undefined)
        ∷ [])
unfolding property
populate-case_example = populate-case "v1/Pod" pod_case pod_fields pod_found

get_resource_labels-find_case_example :
    (contains get_resource_labels "v1/Widget" ≡ false) ↔ (find_case "v1/Widget" switch_cases ≡ none)
get_resource_labels-find_case_example = get_resource_labels-find_case "v1/Widget"

find_case_exact_example : (api_version_of pod_case.made ≡ "v1") × (kind_of pod_case.made ≡ "Pod")
unfolding find_case switch_cases
find_case_exact_example = find_case_exact "v1" "Pod" pod_case refl refl

qualified_id_injective_example : (◌≡◌ {A = String} "prod" "prod") × (◌≡◌ {A = String} "web" "web")
qualified_id_injective_example = qualified_id_injective "web" "web" "prod" "prod" refl refl refl

parse_yaml_object-IsRun_example : IsRun none [] (parse_yaml_object world pod none none [])
parse_yaml_object-IsRun_example = parse_yaml_object-IsRun world none [] pod none

parse_yaml_document-IsDocumentRun_example :
    IsDocumentRun world none none (pod ∷ object widget_fields ∷ []) [] (
      parse_yaml_document world
        (record { objs = pod ∷ object widget_fields ∷ []; transformations = none })
        none
        [])
parse_yaml_document-IsDocumentRun_example =
    parse_yaml_document-IsDocumentRun world
      (record { objs = pod ∷ object widget_fields ∷ []; transformations = none }) none []

parse-texts_example :
    parse world
      (record { files = none; yaml = some (many ("pod" ∷ "pod" ∷ [])); transformations = none })
      none
      []
    ≡ parse_yaml_document world (record { objs = pod ∷ pod ∷ []; transformations = none }) none []
parse-texts_example =
    parse-texts world none none (many ("pod" ∷ "pod" ∷ [])) (pod ∷ pod ∷ []) [] refl

get_resource-store_all_example :
    get_resource (record { self = 0; resources = store_all [] [] }) "v1/Pod" "web" none ≡ ok none
unfolding find_case switch_cases
get_resource-store_all_example = get_resource-store_all 0 [] "v1/Pod" "web" none

new_config_file-IsFileRun_example :
    IsFileRun "a.yaml"
      (record { objs = pod ∷ []; transformations = none })
      none
      []
      (new_config_file world "a.yaml" (record { objs = pod ∷ []; transformations = none }) none [])
new_config_file-IsFileRun_example =
    new_config_file-IsFileRun world "a.yaml" (record { objs = pod ∷ []; transformations = none })
      none []

-- Callbacks that make the pod of an object, and that leave an object as it is.
abbrev podify : Transformation
podify v = ok pod

abbrev keep : Transformation
keep v = ok v

pod_left :
    (v : Value)
    → transform (podify ∷ keep ∷ []) (object widget_fields) ≡ ok v
    → is_nullish v ≡ false
unfolding transform apply_transformation
pod_left v e = let same : pod ≡ v = cc in rw (← same) refl

parse_yaml_object-transform_example :
    parse_yaml_object world (object widget_fields) (some (podify ∷ keep ∷ [])) none []
    ≡ parse_yaml_object world pod none none []
unfolding transform apply_transformation
parse_yaml_object-transform_example =
    parse_yaml_object-transform world none [] (podify ∷ []) (keep ∷ []) (object widget_fields) refl
      pod_left
