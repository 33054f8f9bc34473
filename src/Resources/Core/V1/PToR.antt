-- ===== src/Resources/Core/V1/PToR.antt =====
-- The classes of `core.v1` in pack/nodejs/provider.ts from PersistentVolume to ResourceQuotaList.
use pulumi_kubernetes.Common.{[], ◌∷◌}
use pulumi_kubernetes.Resources.Class.{ResourceClass, assign, copy}

abbrev pub persistent_volume : ResourceClass
persistent_volume = record {
  name = ("core.v1", "PersistentVolume");
  token = "kubernetes:core/v1:PersistentVolume";
  args = ("core.v1", "PersistentVolume");
  outputs =
      ("apiVersion", "string")
      ∷ ("kind", "string")
      ∷ ("metadata", "outputApi.meta.v1.ObjectMeta")
      ∷ ("spec", "outputApi.core.v1.PersistentVolumeSpec")
      ∷ ("status", "outputApi.core.v1.PersistentVolumeStatus")
      ∷ [];
  inputs =
      assign "apiVersion" "v1"
      ∷ assign "kind" "PersistentVolume"
      ∷ copy "metadata"
      ∷ copy "spec"
      ∷ copy "status"
      ∷ [];
}

abbrev pub persistent_volume_claim : ResourceClass
persistent_volume_claim = record {
  name = ("core.v1", "PersistentVolumeClaim");
  token = "kubernetes:core/v1:PersistentVolumeClaim";
  args = ("core.v1", "PersistentVolumeClaim");
  outputs =
      ("apiVersion", "string")
      ∷ ("kind", "string")
      ∷ ("metadata", "outputApi.meta.v1.ObjectMeta")
      ∷ ("spec", "outputApi.core.v1.PersistentVolumeClaimSpec")
      ∷ ("status", "outputApi.core.v1.PersistentVolumeClaimStatus")
      ∷ [];
  inputs =
      assign "apiVersion" "v1"
      ∷ assign "kind" "PersistentVolumeClaim"
      ∷ copy "metadata"
      ∷ copy "spec"
      ∷ copy "status"
      ∷ [];
}

abbrev pub persistent_volume_claim_list : ResourceClass
persistent_volume_claim_list = record {
  name = ("core.v1", "PersistentVolumeClaimList");
  token = "kubernetes:core/v1:PersistentVolumeClaimList";
  args = ("core.v1", "PersistentVolumeClaimList");
  outputs =
      ("apiVersion", "string")
      ∷ ("items", "outputApi.core.v1.PersistentVolumeClaim[]")
      ∷ ("kind", "string")
      ∷ ("metadata", "outputApi.meta.v1.ListMeta")
      ∷ [];
  inputs =
      assign "apiVersion" "v1"
      ∷ copy "items"
      ∷ assign "kind" "PersistentVolumeClaimList"
      ∷ copy "metadata"
      ∷ [];
}

abbrev pub persistent_volume_list : ResourceClass
persistent_volume_list = record {
  name = ("core.v1", "PersistentVolumeList");
  token = "kubernetes:core/v1:PersistentVolumeList";
  args = ("core.v1", "PersistentVolumeList");
  outputs =
      ("apiVersion", "string")
      ∷ ("items", "outputApi.core.v1.PersistentVolume[]")
      ∷ ("kind", "string")
      ∷ ("metadata", "outputApi.meta.v1.ListMeta")
      ∷ [];
  inputs =
      assign "apiVersion" "v1"
      ∷ copy "items"
      ∷ assign "kind" "PersistentVolumeList"
      ∷ copy "metadata"
      ∷ [];
}

abbrev pub pod : ResourceClass
pod = record {
  name = ("core.v1", "Pod");
  token = "kubernetes:core/v1:Pod";
  args = ("core.v1", "Pod");
  outputs =
      ("apiVersion", "string")
      ∷ ("kind", "string")
      ∷ ("metadata", "outputApi.meta.v1.ObjectMeta")
      ∷ ("spec", "outputApi.core.v1.PodSpec")
      ∷ ("status", "outputApi.core.v1.PodStatus")
      ∷ [];
  inputs =
      assign "apiVersion" "v1"
      ∷ assign "kind" "Pod"
      ∷ copy "metadata"
      ∷ copy "spec"
      ∷ copy "status"
      ∷ [];
}

abbrev pub pod_list : ResourceClass
pod_list = record {
  name = ("core.v1", "PodList");
  token = "kubernetes:core/v1:PodList";
  args = ("core.v1", "PodList");
  outputs =
      ("apiVersion", "string")
      ∷ ("items", "outputApi.core.v1.Pod[]")
      ∷ ("kind", "string")
      ∷ ("metadata", "outputApi.meta.v1.ListMeta")
      ∷ [];
  inputs = assign "apiVersion" "v1" ∷ copy "items" ∷ assign "kind" "PodList" ∷ copy "metadata" ∷ [];
}

abbrev pub pod_template : ResourceClass
pod_template = record {
  name = ("core.v1", "PodTemplate");
  token = "kubernetes:core/v1:PodTemplate";
  args = ("core.v1", "PodTemplate");
  outputs =
      ("apiVersion", "string")
      ∷ ("kind", "string")
      ∷ ("metadata", "outputApi.meta.v1.ObjectMeta")
      ∷ ("template", "outputApi.core.v1.PodTemplateSpec")
      ∷ [];
  inputs =
      assign "apiVersion" "v1"
      ∷ assign "kind" "PodTemplate"
      ∷ copy "metadata"
      ∷ copy "template"
      ∷ [];
}

abbrev pub pod_template_list : ResourceClass
pod_template_list = record {
  name = ("core.v1", "PodTemplateList");
  token = "kubernetes:core/v1:PodTemplateList";
  args = ("core.v1", "PodTemplateList");
  outputs =
      ("apiVersion", "string")
      ∷ ("items", "outputApi.core.v1.PodTemplate[]")
      ∷ ("kind", "string")
      ∷ ("metadata", "outputApi.meta.v1.ListMeta")
      ∷ [];
  inputs =
      assign "apiVersion" "v1"
      ∷ copy "items"
      ∷ assign "kind" "PodTemplateList"
      ∷ copy "metadata"
      ∷ [];
}

abbrev pub replication_controller : ResourceClass
replication_controller = record {
  name = ("core.v1", "ReplicationController");
  token = "kubernetes:core/v1:ReplicationController";
  args = ("core.v1", "ReplicationController");
  outputs =
      ("apiVersion", "string")
      ∷ ("kind", "string")
      ∷ ("metadata", "outputApi.meta.v1.ObjectMeta")
      ∷ ("spec", "outputApi.core.v1.ReplicationControllerSpec")
      ∷ ("status", "outputApi.core.v1.ReplicationControllerStatus")
      ∷ [];
  inputs =
      assign "apiVersion" "v1"
      ∷ assign "kind" "ReplicationController"
      ∷ copy "metadata"
      ∷ copy "spec"
      ∷ copy "status"
      ∷ [];
}

abbrev pub replication_controller_list : ResourceClass
replication_controller_list = record {
  name = ("core.v1", "ReplicationControllerList");
  token = "kubernetes:core/v1:ReplicationControllerList";
  args = ("core.v1", "ReplicationControllerList");
  outputs =
      ("apiVersion", "string")
      ∷ ("items", "outputApi.core.v1.ReplicationController[]")
      ∷ ("kind", "string")
      ∷ ("metadata", "outputApi.meta.v1.ListMeta")
      ∷ [];
  inputs =
      assign "apiVersion" "v1"
      ∷ copy "items"
      ∷ assign "kind" "ReplicationControllerList"
      ∷ copy "metadata"
      ∷ [];
}

abbrev pub resource_quota : ResourceClass
resource_quota = record {
  name = ("core.v1", "ResourceQuota");
  token = "kubernetes:core/v1:ResourceQuota";
  args = ("core.v1", "ResourceQuota");
  outputs =
      ("apiVersion", "string")
      ∷ ("kind", "string")
      ∷ ("metadata", "outputApi.meta.v1.ObjectMeta")
      ∷ ("spec", "outputApi.core.v1.ResourceQuotaSpec")
      ∷ ("status", "outputApi.core.v1.ResourceQuotaStatus")
      ∷ [];
  inputs =
      assign "apiVersion" "v1"
      ∷ assign "kind" "ResourceQuota"
      ∷ copy "metadata"
      ∷ copy "spec"
      ∷ copy "status"
      ∷ [];
}

abbrev pub resource_quota_list : ResourceClass
resource_quota_list = record {
  name = ("core.v1", "ResourceQuotaList");
  token = "kubernetes:core/v1:ResourceQuotaList";
  args = ("core.v1", "ResourceQuotaList");
  outputs =
      ("apiVersion", "string")
      ∷ ("items", "outputApi.core.v1.ResourceQuota[]")
      ∷ ("kind", "string")
      ∷ ("metadata", "outputApi.meta.v1.ListMeta")
      ∷ [];
  inputs =
      assign "apiVersion" "v1"
      ∷ copy "items"
      ∷ assign "kind" "ResourceQuotaList"
      ∷ copy "metadata"
      ∷ [];
}
