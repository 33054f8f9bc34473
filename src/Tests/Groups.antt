-- ===== src/Tests/Groups.antt =====
-- The theorems on groups of files and texts at a file and a text that hold the same pod.
use pulumi_kubernetes.Common.{◌≡◌, refl, none, some, [], ◌∷◌, ◌++◌, length, ◌≤◌, ◌+◌}
use pulumi_kubernetes.Js.Value.{string, property, to_text}
use pulumi_kubernetes.Js.Outcome.{ok, read}
use pulumi_kubernetes.Options.{one, many, ConfigGroupOpts, file}
use pulumi_kubernetes.Resources.Class.{populate, populate_from}
use pulumi_kubernetes.Yaml.Switch.{switch_cases}
use pulumi_kubernetes.Yaml.Object.{
  find_case, transform, qualified_id, parse_yaml_object, build_object, identify_object, make_object,
}
use pulumi_kubernetes.Yaml.Object.Branches.{registration, instance_of}
use pulumi_kubernetes.Yaml.Document.{
  Resources as Stored, document_from, parse_yaml_document, parse, new_config_file, new_config_group,
  parse_files, expand_files, files_from, new_component, parent_of,
}
use pulumi_kubernetes.Yaml.Document.Below.{IsBelow}
use pulumi_kubernetes.Common.Dict.{lookup, has, spread, insert}
use pulumi_kubernetes.Runtime.{Log, continue, glob_sync, read_file, component}
use pulumi_kubernetes.Yaml.Document.Overlay.{overlay, parse-overlay, parse-lookup}
use pulumi_kubernetes.Yaml.Document.Group.{group_opened, new_config_group-IsBelow}
use pulumi_kubernetes.Resources.Instance.{CustomResource, new_resource}
use pulumi_kubernetes.Yaml.Document.Made.{IsDocumentOf, parse_yaml_document-IsDocumentOf}
use pulumi_kubernetes.Yaml.Document.Bounds.{IsBounded, parse_yaml_document-length}
use pulumi_kubernetes.Tests.World.{pod, pod_fields, pod_case, world, web_pod}

abbrev pods : ConfigGroupOpts
pods = record {
  files = some (one "*.yaml");
  yaml = some (many ("pod" ∷ []));
  transformations = none;
}

new_config_group-IsBelow_example :
    IsBelow 0 (group_opened "g" pods none []) (new_config_group world "g" pods none []).1
new_config_group-IsBelow_example = new_config_group-IsBelow world "g" pods none []

parse-overlay_example :
    parse world pods none []
    ≡ continue
        (overlay world pods none (many ("pod" ∷ [])) (pod ∷ []))
        (parse_files world pods none [])
parse-overlay_example = parse-overlay world pods none (many ("pod" ∷ [])) (pod ∷ []) [] refl refl

-- The pod of the file.
abbrev file_pod : CustomResource
file_pod = instance_of pod_case.made (string "prod/web") pod_fields (parent_of 2)

abbrev file_log : Log
file_log =
    glob_sync "*.yaml"
    ∷ read_file "a.yaml"
    ∷ component "kubernetes:yaml:ConfigFile" "a.yaml"
        (file (record { objs = pod ∷ []; transformations = none })) none
    ∷ registration file_pod
    ∷ []

files_parsed : parse_files world pods none [] ≡ (ok (("v1/Pod::prod/web", file_pod) ∷ []), file_log)
unfolding parse_files expand_files files_from new_config_file new_component parse_yaml_document
    document_from parse_yaml_object build_object identify_object make_object qualified_id spread
    transform find_case switch_cases new_resource populate populate_from property read insert
    to_text
files_parsed = refl

text_parsed :
    parse_yaml_document world (record { objs = pod ∷ []; transformations = none }) none file_log
    ≡ (ok (("v1/Pod::prod/web", web_pod) ∷ []), file_log ++ registration web_pod ∷ [])
unfolding parse_yaml_document document_from parse_yaml_object build_object identify_object
    make_object qualified_id transform find_case switch_cases new_resource populate populate_from
    property read insert to_text
text_parsed = refl

parse-lookup_example :
    (resources : Stored) × (parse world pods none []
      ≡ (ok resources, file_log ++ registration web_pod ∷ []))
    × (lookup "v1/Pod::prod/web" resources ≡ some web_pod)
unfolding lookup has
parse-lookup_example =
    parse-lookup world pods none (many ("pod" ∷ [])) (pod ∷ []) [] file_log
      (file_log ++ registration web_pod ∷ []) (("v1/Pod::prod/web", file_pod) ∷ [])
      (("v1/Pod::prod/web", web_pod) ∷ []) "v1/Pod::prod/web" refl refl files_parsed text_parsed

parse_yaml_document-IsDocumentOf_example :
    IsDocumentOf world none none
      (pod ∷ [])
      (parse_yaml_document world (record { objs = pod ∷ []; transformations = none }) none [])
parse_yaml_document-IsDocumentOf_example =
    parse_yaml_document-IsDocumentOf world (record { objs = pod ∷ []; transformations = none }) none
      []

parse_yaml_document-length_example :
    (length (file_log ++ registration web_pod ∷ []) ≤ length file_log + 1)
    × IsBounded 1 (ok (("v1/Pod::prod/web", web_pod) ∷ []))
parse_yaml_document-length_example =
    parse_yaml_document-length world (record { objs = pod ∷ []; transformations = none }) none
      file_log (ok (("v1/Pod::prod/web", web_pod) ∷ [])) (file_log ++ registration web_pod ∷ [])
      text_parsed
