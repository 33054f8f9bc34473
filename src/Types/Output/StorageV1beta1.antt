-- ===== src/Types/Output/StorageV1beta1.antt =====
-- The interfaces of the namespace `storage.v1beta1` of pack/nodejs/types/output.ts.
use pulumi_kubernetes.Common.{List, [], ◌∷◌}
use pulumi_kubernetes.Types.Shape.{Interface, interface, readonly, text, boolean, list, dict, ref}

abbrev pub storage_class : Interface
storage_class = interface "StorageClass" (
    readonly "allowVolumeExpansion" boolean
    ∷ readonly "apiVersion" text
    ∷ readonly "kind" text
    ∷ readonly "metadata" (ref "meta.v1" "ObjectMeta")
    ∷ readonly "mountOptions" (list text)
    ∷ readonly "parameters" (dict text)
    ∷ readonly "provisioner" text
    ∷ readonly "reclaimPolicy" text
    ∷ readonly "volumeBindingMode" text
    ∷ [])

abbrev pub storage_class_list : Interface
storage_class_list = interface "StorageClassList" (
    readonly "apiVersion" text
    ∷ readonly "items" (list (ref "storage.v1beta1" "StorageClass"))
    ∷ readonly "kind" text
    ∷ readonly "metadata" (ref "meta.v1" "ListMeta")
    ∷ [])

abbrev pub interfaces : List Interface
interfaces = storage_class ∷ storage_class_list ∷ []
