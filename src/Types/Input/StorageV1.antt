-- ===== src/Types/Input/StorageV1.antt =====
-- The interfaces of the namespace `storage.v1` of pack/nodejs/types/input.ts.
use pulumi_kubernetes.Common.{List, [], ◌∷◌}
use pulumi_kubernetes.Types.Shape.{
  Interface, guarded, required, optional, text, boolean, list, dict, ref, input,
}

abbrev pub storage_class : Interface
storage_class = guarded "StorageClass" "storage.k8s.io/v1" "StorageClass" (
    required "provisioner" text
    ∷ optional "allowVolumeExpansion" boolean
    ∷ optional "apiVersion" text
    ∷ optional "kind" text
    ∷ optional "metadata" (ref "meta.v1" "ObjectMeta")
    ∷ optional "mountOptions" (list text)
    ∷ optional "parameters" (dict (input text))
    ∷ optional "reclaimPolicy" text
    ∷ optional "volumeBindingMode" text
    ∷ [])

abbrev pub storage_class_list : Interface
storage_class_list = guarded "StorageClassList" "storage.k8s.io/v1" "StorageClassList" (
    required "items" (list (ref "storage.v1" "StorageClass"))
    ∷ optional "apiVersion" text
    ∷ optional "kind" text
    ∷ optional "metadata" (ref "meta.v1" "ListMeta")
    ∷ [])

abbrev pub interfaces : List Interface
interfaces = storage_class ∷ storage_class_list ∷ []
