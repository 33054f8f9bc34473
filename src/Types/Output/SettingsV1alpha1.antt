-- ===== src/Types/Output/SettingsV1alpha1.antt =====
-- The interfaces of the namespace `settings.v1alpha1` of pack/nodejs/types/output.ts.
use pulumi_kubernetes.Common.{List, [], ◌∷◌}
use pulumi_kubernetes.Types.Shape.{Interface, interface, readonly, text, list, ref}

abbrev pub pod_preset : Interface
pod_preset = interface "PodPreset" (
    readonly "apiVersion" text
    ∷ readonly "kind" text
    ∷ readonly "metadata" (ref "meta.v1" "ObjectMeta")
    ∷ readonly "spec" (ref "settings.v1alpha1" "PodPresetSpec")
    ∷ [])

abbrev pub pod_preset_list : Interface
pod_preset_list = interface "PodPresetList" (
    readonly "apiVersion" text
    ∷ readonly "items" (list (ref "settings.v1alpha1" "PodPreset"))
    ∷ readonly "kind" text
    ∷ readonly "metadata" (ref "meta.v1" "ListMeta")
    ∷ [])

abbrev pub pod_preset_spec : Interface
pod_preset_spec = interface "PodPresetSpec" (
    readonly "env" (list (ref "core.v1" "EnvVar"))
    ∷ readonly "envFrom" (list (ref "core.v1" "EnvFromSource"))
    ∷ readonly "selector" (ref "meta.v1" "LabelSelector")
    ∷ readonly "volumeMounts" (list (ref "core.v1" "VolumeMount"))
    ∷ readonly "volumes" (list (ref "core.v1" "Volume"))
    ∷ [])

abbrev pub interfaces : List Interface
interfaces = pod_preset ∷ pod_preset_list ∷ pod_preset_spec ∷ []
