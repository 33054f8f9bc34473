-- ===== src/Resources/Storage/V1alpha1.antt =====
-- The classes of the namespace `storage.v1alpha1` of pack/nodejs/provider.ts.
use pulumi_kubernetes.Common.{[], ◌∷◌}
use pulumi_kubernetes.Resources.Class.{ResourceClass, assign, copy}

abbrev pub volume_attachment : ResourceClass
volume_attachment = record {
  name = ("storage.v1alpha1", "VolumeAttachment");
  token = "kubernetes:storage.k8s.io/v1alpha1:VolumeAttachment";
  args = ("storage.v1alpha1", "VolumeAttachment");
  outputs =
      ("apiVersion", "string")
      ∷ ("kind", "string")
      ∷ ("metadata", "outputApi.meta.v1.ObjectMeta")
      ∷ ("spec", "outputApi.storage.v1alpha1.VolumeAttachmentSpec")
      ∷ ("status", "outputApi.storage.v1alpha1.VolumeAttachmentStatus")
      ∷ [];
  inputs =
      assign "apiVersion" "storage.k8s.io/v1alpha1"
      ∷ assign "kind" "VolumeAttachment"
      ∷ copy "metadata"
      ∷ copy "spec"
      ∷ copy "status"
      ∷ [];
}

abbrev pub volume_attachment_list : ResourceClass
volume_attachment_list = record {
  name = ("storage.v1alpha1", "VolumeAttachmentList");
  token = "kubernetes:storage.k8s.io/v1alpha1:VolumeAttachmentList";
  args = ("storage.v1alpha1", "VolumeAttachmentList");
  outputs =
      ("apiVersion", "string")
      ∷ ("items", "outputApi.storage.v1alpha1.VolumeAttachment[]")
      ∷ ("kind", "string")
      ∷ ("metadata", "outputApi.meta.v1.ListMeta")
      ∷ [];
  inputs =
      assign "apiVersion" "storage.k8s.io/v1alpha1"
      ∷ copy "items"
      ∷ assign "kind" "VolumeAttachmentList"
      ∷ copy "metadata"
      ∷ [];
}
