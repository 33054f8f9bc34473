-- ===== src/Types/Input/SettingsV1alpha1.antt =====
-- The interfaces of the namespace `settings.v1alpha1` of pack/nodejs/types/input.ts.
use pulumi_kubernetes.Common.{List, [], ◌∷◌}
use pulumi_kubernetes.Types.Shape.{
  Interface, guarded, interface, required, optional, text, list, ref,
}

abbrev pub pod_preset : Interface
pod_preset = guarded "PodPreset" "settings.k8s.io/v1alpha1" "PodPreset" (
    optional "apiVersion" text
    ∷ optional "kind" text
    ∷ optional "metadata" (ref "meta.v1" "ObjectMeta")
    ∷ optional "spec" (ref "settings.v1alpha1" "PodPresetSpec")
    ∷ [])

abbrev pub pod_preset_list : Interface
pod_preset_list = guarded "PodPresetList" "settings.k8s.io/v1alpha1" "PodPresetList" (
    required "items" (list (ref "settings.v1alpha1" "PodPreset"))
    ∷ optional "apiVersion" text
    ∷ optional "kind" text
    ∷ optional "metadata" (ref "meta.v1" "ListMeta")
    ∷ [])

abbrev pub pod_preset_spec : Interface
pod_preset_spec = interface "PodPresetSpec" (
    optional "env" (list (ref "core.v1" "EnvVar"))
    ∷ optional "envFrom" (list (ref "core.v1" "EnvFromSource"))
    ∷ optional "selector" (ref "meta.v1" "LabelSelector")
    ∷ optional "volumeMounts" (list (ref "core.v1" "VolumeMount"))
    ∷ optional "volumes" (list (ref "core.v1" "Volume"))
    ∷ [])

abbrev pub interfaces : List Interface
interfaces = pod_preset ∷ pod_preset_list ∷ pod_preset_spec ∷ []
