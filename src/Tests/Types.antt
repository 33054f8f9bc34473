-- ===== src/Tests/Types.antt =====
-- The theorems on the interfaces of pack/nodejs/types at the interface of a pod.
use pulumi_kubernetes.Common.{◌<>◌, ◌≡◌, refl, ◌↔◌, true, some}
use pulumi_kubernetes.Common.Dict.{Dict, lookup}
use pulumi_kubernetes.Js.Value.{Value, object, property}
use pulumi_kubernetes.Js.Outcome.{ok}
use pulumi_kubernetes.Resources.Class.{populate}
use pulumi_kubernetes.Types.Shape.{Interface, Guard, optional, input, ref}
use pulumi_kubernetes.Types.Find.{find_named, find_interface, find_field}
use pulumi_kubernetes.Types.Closed.{arguments, IsClosed, find_field-IsClosed}
use pulumi_kubernetes.Types.Plain.{shape_of, shape_of-output}
use pulumi_kubernetes.Types.Test.{accepts}
use pulumi_kubernetes.Types.Fits.{fits, fits_fields}
use pulumi_kubernetes.Types.Input.{input_types}
use pulumi_kubernetes.Types.Input.CoreV1.FromPersistentVolumeClaimVolumeSource
use pulumi_kubernetes.Types.Output.{output_types}
use pulumi_kubernetes.Yaml.Switch.{switch_cases}
use pulumi_kubernetes.Yaml.Object.{find_case}
use pulumi_kubernetes.Yaml.Dispatch.Types.{
  args_of, outputs_of, output_entries, find_case-interfaces, accepts-find_case,
}
use pulumi_kubernetes.Yaml.Dispatch.Fits.{fields_of, populate-fits}
use pulumi_kubernetes.Yaml.Dispatch.Overloads.{get_resource_overloads-find_case}
use pulumi_kubernetes.Yaml.Collection.Overloads.{get_resource_overloads}
use pulumi_kubernetes.Tests.World.{pod_case, db_fields}

abbrev pod_type : Interface
pod_type = FromPersistentVolumeClaimVolumeSource.pod

abbrev pod_guard : Guard
pod_guard = record { api_version = "v1"; kind = "Pod" }

pod_found : find_case "v1/Pod" switch_cases ≡ some pod_case
unfolding find_case switch_cases
pod_found = refl

pod_declared : args_of pod_case ≡ some pod_type
unfolding find_interface find_named input_types
pod_declared = refl

find_field-IsClosed_example : IsClosed input_types (input (ref "core.v1" "PodSpec"))
unfolding find_interface find_named input_types find_field
find_field-IsClosed_example =
    find_field-IsClosed arguments "core.v1" "Pod" "spec" pod_type
      (optional "spec" (ref "core.v1" "PodSpec")) refl refl

shape_of-output_example :
    shape_of output_types "core.v1" "Pod" "spec" ≡ some (ref "core.v1" "PodSpec")
unfolding find_interface find_named input_types find_field
shape_of-output_example = shape_of-output "core.v1" "Pod" "spec"

find_case-interfaces_example :
    ((i : Interface) × (args_of pod_case ≡ some i) × (i.guard ≡ some pod_guard))
    × ((o : Interface) × (outputs_of pod_case ≡ some o)
        × (pod_case.made.outputs ≡ output_entries o.fields))
find_case-interfaces_example = find_case-interfaces "v1/Pod" pod_case pod_found

accepts-find_case_example :
    (accepts pod_guard (object db_fields) ≡ ok true)
    ↔ (find_case ("v1" <> ("/" <> "Pod")) switch_cases ≡ some pod_case)
unfolding property
accepts-find_case_example =
    accepts-find_case "v1/Pod" pod_case pod_type pod_guard db_fields "v1" "Pod" pod_found
      pod_declared refl refl refl refl

db_fits : fits input_types (object db_fields) (ref "core.v1" "Pod") ≡ true
unfolding fits fits_fields find_interface find_named input_types find_field property
db_fits = refl

populate-fits_example :
    (inputs : Dict Value) × (populate pod_case.made (object db_fields) ≡ ok inputs)
    × (fits input_types (object (fields_of inputs)) (ref "core.v1" "Pod") ≡ true)
populate-fits_example =
    populate-fits "v1/Pod" pod_case pod_type db_fields pod_found pod_declared db_fits

get_resource_overloads-find_case_example :
    lookup "v1/Pod" get_resource_overloads ≡ some ("core.v1", "Pod")
unfolding find_case switch_cases
get_resource_overloads-find_case_example = get_resource_overloads-find_case "v1/Pod"
