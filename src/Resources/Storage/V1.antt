-- ===== src/Resources/Storage/V1.antt =====
-- The classes of the namespace `storage.v1` of pack/nodejs/provider.ts.
use pulumi_kubernetes.Common.{[], ◌∷◌}
use pulumi_kubernetes.Resources.Class.{ResourceClass, assign, copy}

abbrev pub storage_class : ResourceClass
storage_class = record {
  name = ("storage.v1", "StorageClass");
  token = "kubernetes:storage.k8s.io/v1:StorageClass";
  args = ("storage.v1", "StorageClass");
  outputs =
      ("allowVolumeExpansion", "boolean")
      ∷ ("apiVersion", "string")
      ∷ ("kind", "string")
      ∷ ("metadata", "outputApi.meta.v1.ObjectMeta")
      ∷ ("mountOptions", "string[]")
      ∷ ("parameters", "{[key: string]: pulumi.Output<string>}")
      ∷ ("provisioner", "string")
      ∷ ("reclaimPolicy", "string")
      ∷ ("volumeBindingMode", "string")
      ∷ [];
  inputs =
      copy "allowVolumeExpansion"
      ∷ assign "apiVersion" "storage.k8s.io/v1"
      ∷ assign "kind" "StorageClass"
      ∷ copy "metadata"
      ∷ copy "mountOptions"
      ∷ copy "parameters"
      ∷ copy "provisioner"
      ∷ copy "reclaimPolicy"
      ∷ copy "volumeBindingMode"
      ∷ [];
}

abbrev pub storage_class_list : ResourceClass
storage_class_list = record {
  name = ("storage.v1", "StorageClassList");
  token = "kubernetes:storage.k8s.io/v1:StorageClassList";
  args = ("storage.v1", "StorageClassList");
  outputs =
      ("apiVersion", "string")
      ∷ ("items", "outputApi.storage.v1.StorageClass[]")
      ∷ ("kind", "string")
      ∷ ("metadata", "outputApi.meta.v1.ListMeta")
      ∷ [];
  inputs =
      assign "apiVersion" "storage.k8s.io/v1"
      ∷ copy "items"
      ∷ assign "kind" "StorageClassList"
      ∷ copy "metadata"
      ∷ [];
}
